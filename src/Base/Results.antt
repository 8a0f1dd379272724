-- ===== src/Base/Results.antt =====
-- A value or an error: what a Go function that returns `(T, error)` gives back.
use mathlib.Core.List.{List, [], ◌∷◌, ◌++◌}

pub data Result {ℓ κ} (E : Type ℓ) (A : Type κ) : Type (ℓ ⊔ κ) where
  ok : A → Result E A
  err : E → Result E A

-- `if err != nil { return nil, err }` behind a call.
infixl 5 ◌>>=◌ ◌>>◌
abbrev pub ◌>>=◌ {ℓ κ μ} :
    {E : Type ℓ} {A : Type κ} {B : Type μ} → Result E A → (A → Result E B) → Result E B
ok a >>= f = f a
err e >>= f = err e

abbrev pub ◌>>◌ {ℓ κ} : {E : Type ℓ} {B : Type κ} → Result E (Unit {0}) → Result E B → Result E B
ok _ >> k = k
err e >> k = err e

module _ {ℓ κ μ} {E : Type ℓ} {A : Type κ} {B : Type μ} (f : A → Result E B) where
  -- `for _, x := range xs { y, err := f(x); …; out = append(out, y) }`
  unfoldable pub collect : List B → List A → Result E (List B)
  collect out [] = ok out
  collect out (x ∷ xs) = f x >>= λ y. collect (out ++ y ∷ []) xs
