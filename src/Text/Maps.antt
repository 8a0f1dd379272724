-- ===== src/Text/Maps.antt =====
-- Go maps with text keys, as association lists: the first entry of a key is its value.
use leilfs_operator.Base.{
  Bool-cases, inl, inr, Bool, true, false, ◌||◌, List, [], ◌∷◌, Option, none, some, ◌≡◌, refl,
  arith, if◌then◌else◌,
}
use leilfs_operator.Text.{Text, text_eq, text_eq_iff}

abbrev pub TextMap {ℓ} : Type ℓ → Type ℓ
TextMap V = List (Text × V)

module _ {ℓ} {V : Type ℓ} where
  -- v, ok := m[k]
  unfoldable pub lookup : Text → TextMap V → Option V
  lookup k [] = none
  lookup k ((j, v) ∷ m) = if text_eq j k then some v else lookup k m

  -- m[k] = v
  unfoldable pub insert : Text → V → TextMap V → TextMap V
  insert k v [] = (k, v) ∷ []
  insert k v ((j, w) ∷ m) = if text_eq j k then (k, v) ∷ m else (j, w) ∷ insert k v m

  -- delete(m, k)
  unfoldable pub remove : Text → TextMap V → TextMap V
  remove k [] = []
  remove k ((j, w) ∷ m) = let rest = remove k m in if text_eq j k then rest else (j, w) ∷ rest

  pub lookup-insert :
      (k j : Text) (v : V) (m : TextMap V)
      → lookup j (insert k v m) ≡ (if text_eq k j then some v else lookup j m)
  unfolding lookup insert
  lookup-insert k j v [] = refl
  lookup-insert k j v ((i, w) ∷ m) =
      ground (arith, text_eq_iff k j, text_eq_iff i k, text_eq_iff i j, lookup-insert k j v m)

  pub lookup-remove :
      (k j : Text) (m : TextMap V)
      → lookup j (remove k m) ≡ (if text_eq k j then none else lookup j m)
  unfolding lookup remove
  lookup-remove k j [] = ground arith
  lookup-remove k j ((i, w) ∷ m) =
      ground (arith, text_eq_iff k j, text_eq_iff i k, text_eq_iff i j, lookup-remove k j m)

  -- _, ok := m[k]
  unfoldable pub has_key : Text → TextMap V → Bool
  has_key k [] = false
  has_key k ((j, v) ∷ m) = if text_eq j k then true else has_key k m

  pub lookup_of_has_key :
      (k : Text) (m : TextMap V) → has_key k m ≡ true → (v : V) × (lookup k m ≡ some v)
  unfolding has_key lookup
  lookup_of_has_key k [] h = absurd (cc)
  lookup_of_has_key k ((j, v) ∷ m) h = elim (Bool-cases (text_eq j k)) [
    | inl hit ↦ (v, rw hit)
    | inr miss ↦ let found = lookup_of_has_key k m (rw miss at h) in (found.0, rw miss found.1)
  ]

  pub lookup_of_no_key : (k : Text) (m : TextMap V) → has_key k m ≡ false → lookup k m ≡ none
  unfolding has_key lookup
  lookup_of_no_key k [] h = refl
  lookup_of_no_key k ((j, v) ∷ m) h = ground (arith, lookup_of_no_key k m)

  pub has_key-insert :
      (k j : Text) (v : V) (m : TextMap V) → has_key j (insert k v m) ≡ (text_eq k j || has_key j m)
  unfolding has_key insert
  has_key-insert k j v [] = ground arith
  has_key-insert k j v ((i, w) ∷ m) =
      ground (arith, text_eq_iff k j, text_eq_iff i k, text_eq_iff i j, has_key-insert k j v m)
