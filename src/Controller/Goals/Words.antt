-- ===== src/Controller/Goals/Words.antt =====
-- buildGoalsConfig: what a line of sfsgoals.cfg says, as words.
use leilfs_operator.Base.{
  ℕ, zero, suc, ◌-◌, false, List, [], ◌∷◌, ◌++◌, none, some, ◌≡◌, refl, ap, ◌∙◌, sym, All,
  All-append, replicate, append-nil, append_assoc, length, if◌then◌else◌,
}
use leilfs_operator.Base.Int.{ℤ, pos, negsuc}
use leilfs_operator.Text.{Text, codes, is_space, fields, join, join_rest}
use leilfs_operator.Text.Fields.{IsWord, blank, fields-word, fields-blank}
use leilfs_operator.Text.Decimal.{decimal-IsWord}
use leilfs_operator.Api.{EcSpec, GoalSpec}
use leilfs_operator.Controller.Goals.{show_ℤ, pad_right, ec_text, ec_pattern}

-- The words of the labels in braces, or none.
abbrev pub braced : List Text → List Text
braced [] = []
braced (l ∷ ls) = codes "{" ∷ ((l ∷ ls) ++ codes "}" ∷ [])

-- Copies without labels, or the labels.
abbrev pub copies : ℤ → List Text → List Text
copies n (l ∷ ls) = l ∷ ls
copies (pos n) [] = replicate n (codes "_")
copies (negsuc n) [] = []

abbrev pub pattern_words : GoalSpec → List Text
pattern_words g = elim g.ec [
  | some e ↦ ec_text e ∷ braced g.node_labels
  | none ↦ elim g.replication [ some n ↦ copies n g.node_labels | none ↦ [] ]
]

abbrev pub marker_words : GoalSpec → List Text
marker_words g = if g.default then codes "#" ∷ codes "←" ∷ codes "default" ∷ [] else []

-- id name : pattern, and the marker of a default goal.
unfoldable pub goal_words : GoalSpec → List Text
goal_words g = show_ℤ g.id ∷ g.name ∷ codes ":" ∷ (pattern_words g ++ marker_words g)

abbrev IsInk : ℕ → Type 0
IsInk c = is_space c ≡ false

pub show_ℤ-IsWord : (n : ℤ) → IsWord (show_ℤ n)
show_ℤ-IsWord (pos n) = decimal-IsWord n
show_ℤ-IsWord (negsuc n) =
    ((λ e. absurd (cc)), (unfold is_space in refl, (decimal-IsWord (suc n)).1))

comma-IsInk : (s : Text) → All IsInk s → All IsInk (codes "," ++ (s ++ codes ")"))
comma-IsInk s h =
    (unfold is_space in refl, All-append IsInk s (codes ")") h (unfold is_space in (refl, tt)))

ec_head-IsInk : (s : Text) → All IsInk s → All IsInk (codes "$ec(" ++ s)
ec_head-IsInk s h = unfold is_space in (refl, (refl, (refl, (refl, h))))

pub ec_text-IsWord : (e : EcSpec) → IsWord (ec_text e)
ec_text-IsWord e =
    let parity = comma-IsInk (show_ℤ e.parity_parts) (show_ℤ-IsWord e.parity_parts).1 in
    let both = All-append IsInk (show_ℤ e.data_parts) _ (show_ℤ-IsWord e.data_parts).1 parity in
    ((λ h. absurd (cc)), ec_head-IsInk _ both)

join_rest-append :
    (xs ys : List Text) → join_rest blank (xs ++ ys) ≡ join_rest blank xs ++ join_rest blank ys
unfolding join_rest
join_rest-append [] ys = refl
join_rest-append (x ∷ xs) ys =
    ap (λ t. 32 ∷ t)
      (ap (λ t. x ++ t) (join_rest-append xs ys)
        ∙ sym (append_assoc x (join_rest blank xs) (join_rest blank ys)))

pub ec_pattern-join :
    (e : EcSpec) (labels : List Text) → ec_pattern e labels ≡ join blank (ec_text e ∷ braced labels)
unfolding ec_pattern join join_rest
ec_pattern-join e [] = sym (append-nil (ec_text e))
ec_pattern-join e (l ∷ ls) =
    ap (λ t. ec_text e ++ 32 ∷ 123 ∷ t) (sym (join_rest-append (l ∷ ls) (codes "}" ∷ [])))

spaces_then : (k : ℕ) (s : Text) → fields (32 ∷ (replicate k 32 ++ s)) ≡ fields (32 ∷ s)
spaces_then zero s = refl
spaces_then (suc k) s = fields-blank (32 ∷ (replicate k 32 ++ s)) ∙ spaces_then k s

move_blank : (k : ℕ) (s : Text) → replicate k 32 ++ 32 ∷ s ≡ 32 ∷ (replicate k 32 ++ s)
move_blank zero s = refl
move_blank (suc k) s = ap (λ t. 32 ∷ t) (move_blank k s)

-- A word padded to any width, then one blank.
pub fields-pad_right :
    (width : ℕ) (w s : Text) → IsWord w → fields (pad_right width w ++ 32 ∷ s) ≡ w ∷ fields s
fields-pad_right width w s h =
    let k = width - length w in
    ap fields (append_assoc w (replicate k 32) (32 ∷ s) ∙ ap (λ t. w ++ t) (move_blank k s))
    ∙ (fields-word w (replicate k 32 ++ s) h
        ∙ ap (λ t. w ∷ t)
            (sym (fields-blank (replicate k 32 ++ s)) ∙ (spaces_then k s ∙ fields-blank s)))
