-- ===== src/Text/Lines.antt =====
-- strings.Split at newlines, and the trimming of a line that has nothing to trim.
use leilfs_operator.Base.{
  ℕ, Bool, true, false, List, [], ◌∷◌, ◌++◌, append-nil, append_assoc, ◌≡◌, ◌≢◌, refl, arith, All,
  All-append, ◌==◌,
}
use leilfs_operator.Text.{
  Text, is_space, is_empty, cut_lines, split_lines, trim_left, trim_right, trim_space, join,
  join_rest, cons_unless,
}
use leilfs_operator.Text.Fields.{IsWord, blank}

-- No line break in a text.
abbrev pub IsLine : Text → Type 0
IsLine l = All (λ c. (c ≢ 10) × (c ≢ 13)) l

-- The end of a line: "\r\n" or "\n".
abbrev pub eol : Bool → Text
eol true = 13 ∷ 10 ∷ []
eol false = 10 ∷ []

abbrev pub cr : Bool → Text
cr true = 13 ∷ []
cr false = []

cut_lines-append :
    (l s cur : Text) (b : Bool)
    → IsLine l
    → cut_lines (l ++ (eol b ++ s)) cur ≡ (cur ++ (l ++ cr b)) ∷ cut_lines s []
unfolding cut_lines
cut_lines-append [] s cur true h = refl
cut_lines-append [] s cur false h = rw append-nil
cut_lines-append (c ∷ l) s cur b ((hc, _), hl) =
    ground (arith, cut_lines-append l s (cur ++ c ∷ []) b hl, append_assoc cur (c ∷ []) (l ++ cr b))

pub split_lines-append :
    (l s : Text) (b : Bool)
    → IsLine l
    → split_lines (l ++ (eol b ++ s)) ≡ (l ++ cr b) ∷ split_lines s
unfolding split_lines
split_lines-append l s b h = cut_lines-append l s [] b h

abbrev pub is_cr : ℕ → Bool
is_cr c = c == 13

pub trim_right-line : (l : Text) (b : Bool) → IsLine l → trim_right is_cr (l ++ cr b) ≡ l
unfolding trim_right
trim_right-line [] true h = refl
trim_right-line [] false h = refl
trim_right-line (c ∷ l) b (hc, hl) = rw (trim_right-line l b hl) (cons_unless-ne c l hc.1)
  where
    cons_unless-ne : (c : ℕ) (l : Text) → c ≢ 13 → cons_unless is_cr c l ≡ c ∷ l
    cons_unless-ne c [] h = ground arith
    cons_unless-ne c (d ∷ l) h = refl

-- A text that starts with a word is not blank.
pub trim_space-word : (w s : Text) → IsWord w → is_empty (trim_space (w ++ s)) ≡ false
unfolding trim_space trim_left trim_right
trim_space-word [] s h = absurd (h.0 refl)
trim_space-word (c ∷ w) s h = rw h.1.0 (cons_unless-space c (trim_right is_space (w ++ s)) h.1.0)
  where
    cons_unless-space :
        (c : ℕ) (t : Text) → is_space c ≡ false → is_empty (cons_unless is_space c t) ≡ false
    cons_unless-space c [] h = rw h
    cons_unless-space c (d ∷ t) h = refl

pub word-IsLine : (w : Text) → All (λ c. is_space c ≡ false) w → IsLine w
word-IsLine [] h = tt
word-IsLine (c ∷ w) (hc, hw) = (unfold is_space in ground arith, word-IsLine w hw)

join_rest-IsLine :
    (x : ℕ) (ws : List Text) → (x ≢ 10) × (x ≢ 13) → All IsWord ws → IsLine (join_rest (x ∷ []) ws)
unfolding join_rest
join_rest-IsLine x [] inner h = tt
join_rest-IsLine x (w ∷ ws) inner ((_, hw), hws) = (
  inner,
  All-append _ w (join_rest (x ∷ []) ws) (word-IsLine w hw) (join_rest-IsLine x ws inner hws),
)

-- Words with one character between them that breaks no line.
pub join_space-IsLine :
    (x : ℕ) (ws : List Text) → (x ≢ 10) × (x ≢ 13) → All IsWord ws → IsLine (join (x ∷ []) ws)
unfolding join
join_space-IsLine x [] inner h = tt
join_space-IsLine x (w ∷ ws) inner ((_, hw), hws) =
    All-append _ w (join_rest (x ∷ []) ws) (word-IsLine w hw) (join_rest-IsLine x ws inner hws)

pub join-IsLine : (ws : List Text) → All IsWord ws → IsLine (join blank ws)
join-IsLine ws h = join_space-IsLine 32 ws (omega arith) h
