-- ===== src/Kubectl/Paths.antt =====
-- cmd/kubectl-leilfs/cmd/filegoal.go: normalizePath.
use leilfs_operator.Base.{
  ℕ, zero, suc, Bool, true, false, [], ◌∷◌, ◌++◌, ◌≡◌, ◌⊎◌, inl, inr, refl, ap, sym, ◌∙◌, arith,
  ◌==◌, Bool-cases, if◌then◌else◌,
}
use leilfs_operator.Text.{Text, codes, text_eq, eq_of_text_eq, trim_right, cons_unless}
use leilfs_operator.Kubectl.{is_slash, without_root, normalize_path}

-- Whether the last character is a slash.
unfoldable pub ends_in_slash : Text → Bool
ends_in_slash [] = false
ends_in_slash (c ∷ s) = let rest = ends_in_slash s in elim s [ [] ↦ is_slash c | d ∷ t ↦ rest ]

cons_unless-ends :
    (c : ℕ) (s : Text) → ends_in_slash s ≡ false → ends_in_slash (cons_unless is_slash c s) ≡ false
unfolding ends_in_slash
cons_unless-ends c [] h = ground arith
cons_unless-ends c (d ∷ s) h = h

trim_right-ends : (s : Text) → ends_in_slash (trim_right is_slash s) ≡ false
unfolding trim_right
trim_right-ends [] = unfold ends_in_slash in refl
trim_right-ends (c ∷ s) = cons_unless-ends c (trim_right is_slash s) (trim_right-ends s)

-- A text that does not end in a slash is not trimmed.
trim_right-same : (s : Text) → ends_in_slash s ≡ false → trim_right is_slash s ≡ s
unfolding trim_right ends_in_slash
trim_right-same [] h = refl
trim_right-same (c ∷ []) h = ground arith
trim_right-same (c ∷ d ∷ s) h = rw (trim_right-same (d ∷ s) h) refl

-- What is left of a text that is trimmed begins as it did.
trim_right-head :
    (c : ℕ) (s : Text)
    → (trim_right is_slash (c ∷ s) ≡ []) ⊎ ((t : Text) × (trim_right is_slash (c ∷ s) ≡ c ∷ t))
unfolding trim_right
trim_right-head c s = go (trim_right is_slash s)
  where
    go :
        (t : Text)
        → (cons_unless is_slash c t ≡ []) ⊎ ((u : Text) × (cons_unless is_slash c t ≡ c ∷ u))
    go [] = elim (Bool-cases (is_slash c)) [
      | inl hit ↦ inl (rw hit refl)
      | inr miss ↦ inr ([], rw miss refl)
    ]
    go (d ∷ t) = inr (d ∷ t, refl)

-- Nothing, or a slash first and none at the end.
abbrev pub IsNormal : Text → Type 0
IsNormal p = (p ≡ []) ⊎ ((t : Text) × (p ≡ 47 ∷ t) × (ends_in_slash p ≡ false))

-- A number of slashes.
abbrev pub slashes : ℕ → Text
slashes zero = []
slashes (suc n) = 47 ∷ slashes n

-- The path with one slash in front if it has none there.
unfoldable pub slash_first : Text → Text
slash_first [] = 47 ∷ []
slash_first (c ∷ p) = if c == 47 then c ∷ p else 47 ∷ c ∷ p

-- A path, and what is left of it without the slashes at its end.
abbrev pub IsNormalOf : Text → Text → Type 0
IsNormalOf path q = IsNormal q × ((n : ℕ) × (path ≡ q ++ slashes n))

trim_right-slashes : (s : Text) → (n : ℕ) × (s ≡ trim_right is_slash s ++ slashes n)
unfolding trim_right
trim_right-slashes [] = (0, refl)
trim_right-slashes (c ∷ s) = go (trim_right is_slash s) (trim_right-slashes s)
  where
    go :
        (t : Text)
        → (n : ℕ) × (s ≡ t ++ slashes n)
        → (n : ℕ) × (c ∷ s ≡ cons_unless is_slash c t ++ slashes n)
    go [] (n, e) = elim (Bool-cases (is_slash c)) [
      | inl hit ↦
          let slash : c ≡ 47 = ground arith in
          (suc n, rw hit (ap (λ t. c ∷ t) e ∙ ap (λ (d : ℕ). d ∷ slashes n) slash))
      | inr miss ↦ (n, rw miss (ap (λ t. c ∷ t) e))
    ]
    go (d ∷ t) (n, e) = (n, ap (λ t. c ∷ t) e)

root_ends : ends_in_slash (codes "/") ≡ true
unfolding ends_in_slash
root_ends = refl

IsNormalOf-rest :
    (t : Text)
    → IsNormalOf (47 ∷ t) (
        without_root
          (if text_eq (47 ∷ t) (codes "/") then 47 ∷ t else trim_right is_slash (47 ∷ t)))
IsNormalOf-rest t = elim (Bool-cases (text_eq (47 ∷ t) (codes "/"))) [
  | inl hit ↦ (inl (rw hit (rw hit refl)), (1, rw hit (rw hit (eq_of_text_eq _ _ hit))))
  | inr miss ↦ rw miss (elim (trim_right-head 47 t) [
    | inl gone ↦
        let (n, e) = trim_right-slashes (47 ∷ t) in
        (
          inl (rw gone (unfold text_eq in refl)),
          (n, rw gone (unfold text_eq in e ∙ ap (λ u. u ++ slashes n) gone)),
        )
    | inr (u, path) ↦
        let quiet : ends_in_slash (47 ∷ u) ≡ false =
          sym (ap ends_in_slash path) ∙ trim_right-ends (47 ∷ t) in
        let (n, e) = trim_right-slashes (47 ∷ t) in
        let long : 47 ∷ t ≡ 47 ∷ (u ++ slashes n) = e ∙ ap (λ v. v ++ slashes n) path in
        rw path (elim (Bool-cases (text_eq (47 ∷ u) (codes "/"))) [
          | inl root ↦
              let slash : 47 ∷ u ≡ codes "/" = eq_of_text_eq (47 ∷ u) (codes "/") root in
              absurd (cc (ap ends_in_slash slash, quiet, root_ends))
          | inr other ↦ rw other (inr (u, refl, quiet), (n, long))
        ])
  ])
]

-- normalizePath gives the path, with a slash in front if it had none there, without the slashes at
-- its end. So what it gives is empty exactly for a path of slashes only, such as the root, and else
-- begins with a slash and does not end in one, so that it can stand behind the mount point.
pub normalize_path-IsNormal : (p : Text) → IsNormalOf (slash_first p) (normalize_path p)
unfolding normalize_path slash_first
normalize_path-IsNormal [] = IsNormalOf-rest []
normalize_path-IsNormal (c ∷ p) = elim (Bool-cases (c == 47)) [
  | inl hit ↦ let same : c ≡ 47 = ground arith in rw hit (rw same (IsNormalOf-rest p))
  | inr miss ↦ rw miss (IsNormalOf-rest (c ∷ p))
]
