-- ===== src/Text/Fields.antt =====
-- strings.Fields on words with blanks between them, as strings.Join puts them together.
use leilfs_operator.Base.{
  ℕ, true, false, List, [], ◌∷◌, ◌++◌, append-nil, append_assoc, ◌≡◌, ◌≢◌, refl, ap, ◌∙◌, All,
}
use leilfs_operator.Text.{Text, is_space, cut_fields, fields, join, join_rest, close}

-- A text that strings.Fields keeps whole.
abbrev pub IsWord : Text → Type 0
IsWord w = (w ≢ []) × All (λ c. is_space c ≡ false) w

abbrev pub blank : Text
blank = 32 ∷ []

cut_fields-append :
    (w s cur : Text)
    → All (λ c. is_space c ≡ false) w
    → cut_fields (w ++ s) cur ≡ cut_fields s (cur ++ w)
unfolding cut_fields
cut_fields-append [] s cur h = rw append-nil
cut_fields-append (c ∷ w) s cur (hc, hw) =
    rw (hc, cut_fields) (rw (cut_fields-append w s (cur ++ c ∷ []) hw, append_assoc))

close_word : (w : Text) (rest : List Text) → w ≢ [] → close w rest ≡ w ∷ rest
close_word [] rest h = absurd (h refl)
close_word (c ∷ w) rest h = refl

cut_fields-space :
    (x : ℕ) (s cur : Text)
    → is_space x ≡ true
    → cut_fields (x ∷ s) cur ≡ close cur (cut_fields s [])
unfolding cut_fields
cut_fields-space x s cur h = rw (h, cut_fields) refl

cut_fields-blank : (s cur : Text) → cut_fields (32 ∷ s) cur ≡ close cur (cut_fields s [])
cut_fields-blank s cur = cut_fields-space 32 s cur (unfold is_space in refl)

cut_fields-join_rest :
    (x : ℕ) (w : Text) (ws : List Text)
    → is_space x ≡ true
    → w ≢ []
    → All IsWord ws
    → cut_fields (join_rest (x ∷ []) ws) w ≡ w ∷ ws
unfolding join_rest
cut_fields-join_rest x w [] space h _ = unfold cut_fields in close_word w [] h
cut_fields-join_rest x w (v ∷ ws) space h ((hv, sv), hws) =
    rw
      (
        cut_fields-space x (v ++ join_rest (x ∷ []) ws) w space,
        cut_fields-append v (join_rest (x ∷ []) ws) [] sv,
      )
      (rw (cut_fields-join_rest x v ws space hv hws) (close_word w (v ∷ ws) h))

-- Words with one white space between them, a blank or a tab.
pub fields-join_space :
    (x : ℕ) (ws : List Text) → is_space x ≡ true → All IsWord ws → fields (join (x ∷ []) ws) ≡ ws
unfolding fields join
fields-join_space x [] space _ = refl
fields-join_space x (w ∷ ws) space ((hw, sw), hws) =
    rw (cut_fields-append w (join_rest (x ∷ []) ws) [] sw)
      (cut_fields-join_rest x w ws space hw hws)

pub fields-join : (ws : List Text) → All IsWord ws → fields (join blank ws) ≡ ws
fields-join ws h = fields-join_space 32 ws (unfold is_space in refl) h

-- A word in front of a blank is the first field.
pub fields-word : (w s : Text) → IsWord w → fields (w ++ 32 ∷ s) ≡ w ∷ fields s
unfolding fields
fields-word w s (hw, sw) =
    rw (cut_fields-append w (32 ∷ s) [] sw, cut_fields-blank) (close_word w (cut_fields s []) hw)

-- A blank in front is no field.
pub fields-blank : (s : Text) → fields (32 ∷ s) ≡ fields s
unfolding fields
fields-blank s = cut_fields-blank s []

-- Words, a blank and more.
pub fields-join-blank :
    (ws : List Text) (s : Text) → All IsWord ws → fields (join blank ws ++ 32 ∷ s) ≡ ws ++ fields s
unfolding join join_rest
fields-join-blank [] s h = fields-blank s
fields-join-blank (w ∷ []) s (hw, _) = rw append-nil (fields-word w s hw)
fields-join-blank (w ∷ v ∷ ws) s (hw, hs) =
    rw (append_assoc) (fields-word w _ hw ∙ ap (λ t. w ∷ t) (fields-join-blank (v ∷ ws) s hs))
