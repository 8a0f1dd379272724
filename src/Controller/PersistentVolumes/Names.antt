-- ===== src/Controller/PersistentVolumes/Names.antt =====
-- internal/controller/leilfscluster_controller.go: saunafsLabel.
use mathlib.Core.Path.{subst}
use leilfs_operator.Base.{
  ℕ, ◌+◌, ◌≤◌, Bool, true, false, [], ◌∷◌, map, ◌≡◌, ◌↔◌, ◌⊎◌, refl, arith, All, Bool-cases, inl,
  inr,
}
use leilfs_operator.Text.{Text}
use leilfs_operator.Controller.PersistentVolumes.{
  to_lower, is_lower_or_digit, replaced, keep_only, is_label_char, saunafs_label,
}

abbrev pub IsLabel : Text → Type 0
IsLabel = All (λ c. is_label_char c ≡ true)

keep_only-All : (p : ℕ → Bool) (s : Text) → All (λ c. p c ≡ true) (keep_only p s)
unfolding keep_only
keep_only-All p [] = tt
keep_only-All p (c ∷ s) = elim (Bool-cases (p c)) [
  | inl hit ↦ rw hit (hit, keep_only-All p s)
  | inr miss ↦ rw miss (keep_only-All p s)
]

abbrev label_char_of : ℕ → ℕ
label_char_of c = replaced 32 95 (replaced 45 95 (to_lower c))

label_char_of-same : (c : ℕ) → is_label_char c ≡ true → label_char_of c ≡ c
unfolding to_lower is_lower_or_digit
label_char_of-same c h = ground arith

label-same : (s : Text) → IsLabel s → keep_only is_label_char (map label_char_of s) ≡ s
unfolding keep_only
label-same [] h = refl
label-same (c ∷ s) (h, hs) = rw (label_char_of-same c h) (rw h (rw (label-same s hs) refl))

-- saunafsLabel leaves a text as it is exactly when it has only small letters, digits and underscores.
-- As what it gives has only those, it is idempotent.
pub saunafs_label_iff : (s : Text) → (saunafs_label s ≡ s) ↔ IsLabel s
unfolding saunafs_label
saunafs_label_iff s =
    (λ e. subst IsLabel e (keep_only-All is_label_char (map label_char_of s)), label-same s)

-- A small letter, a digit or an underscore.
abbrev pub IsLabelChar : ℕ → Type 0
IsLabelChar c = ((97 ≤ c) × (c ≤ 122)) ⊎ (((48 ≤ c) × (c ≤ 57)) ⊎ (c ≡ 95))

-- What a character of a host's name becomes in a label: itself if labels have it, the small letter of
-- a capital, an underscore for a blank or a hyphen, and the small letter of the capital i with a dot
-- and of the Kelvin sign.
abbrev pub Becomes : ℕ → ℕ → Type 0
Becomes c d =
    (IsLabelChar c × (d ≡ c))
    ⊎ (((65 ≤ c) × (c ≤ 90) × (d ≡ c + 32))
        ⊎ ((((c ≡ 32) ⊎ (c ≡ 45)) × (d ≡ 95))
            ⊎ (((c ≡ 0x130) × (d ≡ 105)) ⊎ ((c ≡ 0x212a) × (d ≡ 107)))))

-- The label of a name: every character that becomes one of a label does so, the others are left out.
pub data Spells : Text → Text → Type 0 where
  done : Spells [] []
  put : {c d : ℕ} {s l : Text} → Becomes c d → Spells s l → Spells (c ∷ s) (d ∷ l)
  left_out : {c : ℕ} {s l : Text} → ((d : ℕ) → ¬ Becomes c d) → Spells s l → Spells (c ∷ s) l

char-IsLabelChar : (c : ℕ) → is_label_char c ≡ true → IsLabelChar c
unfolding is_lower_or_digit
char-IsLabelChar c h = ground arith

label_char_of-Becomes :
    (c : ℕ) → is_label_char (label_char_of c) ≡ true → Becomes c (label_char_of c)
unfolding to_lower is_lower_or_digit
label_char_of-Becomes c h = ground arith

label_char_of-left_out : (c : ℕ) → is_label_char (label_char_of c) ≡ false → (d : ℕ) → ¬ Becomes c d
unfolding to_lower is_lower_or_digit
label_char_of-left_out c h d b = ground arith

label-Spells : (s : Text) → Spells s (keep_only is_label_char (map label_char_of s))
unfolding keep_only
label-Spells [] = Spells.done
label-Spells (c ∷ s) = elim (Bool-cases (is_label_char (label_char_of c))) [
  | inl hit ↦ rw hit (Spells.put (label_char_of-Becomes c hit) (label-Spells s))
  | inr miss ↦ rw miss (Spells.left_out (label_char_of-left_out c miss) (label-Spells s))
]

label-All : (s : Text) → IsLabel s → All IsLabelChar s
label-All [] h = tt
label-All (c ∷ s) (h, hs) = (char-IsLabelChar c h, label-All s hs)

-- What saunafsLabel gives has only small letters, digits and underscores. It spells the name: small
-- letters, digits and underscores stay, capitals become small, blanks and hyphens underscores, and
-- only what is none of these is left out. When saunafsLabel is applied again, nothing changes.
pub saunafs_label-IsLabel :
    (s : Text)
    → All IsLabelChar (saunafs_label s)
      × Spells s (saunafs_label s)
      × (saunafs_label (saunafs_label s) ≡ saunafs_label s)
unfolding saunafs_label
saunafs_label-IsLabel s =
    let good = keep_only-All is_label_char (map label_char_of s) in
    (
      label-All (keep_only is_label_char (map label_char_of s)) good,
      label-Spells s,
      label-same (keep_only is_label_char (map label_char_of s)) good,
    )
