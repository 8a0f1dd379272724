-- ===== src/Base/Lists.antt =====
-- Lists measured and indexed by native numbers, under the library's names, and predicates on lists
-- by recursion.
use Prim.Native.Nat.{ℕ, zero, suc, ◌+◌}
use mathlib.Core.Path.{◌≡◌, refl, sym, ap, subst}
use mathlib.Core.Bool.{Bool, false, ◌||◌}
use mathlib.Core.List.{List, [], ◌∷◌, ◌++◌, map, Memᴰ}
use mathlib.Core.Option.{Option, none, some}
use native.Mathlib.Omega.{arith}
use leilfs_operator.Base.Tests.{if◌then◌else◌}

module _ {ℓ} {A : Type ℓ} where
  abbrev pub length : List A → ℕ
  length [] = 0
  length (x ∷ xs) = suc (length xs)

  abbrev pub get_elem? : List A → ℕ → Option A
  get_elem? [] i = none
  get_elem? (x ∷ xs) zero = some x
  get_elem? (x ∷ xs) (suc i) = get_elem? xs i

  abbrev pub take : ℕ → List A → List A
  take zero xs = []
  take (suc n) [] = []
  take (suc n) (x ∷ xs) = x ∷ take n xs

  abbrev pub drop : ℕ → List A → List A
  drop zero xs = xs
  drop (suc n) [] = []
  drop (suc n) (x ∷ xs) = drop n xs

  abbrev pub replicate : ℕ → A → List A
  replicate zero a = []
  replicate (suc n) a = a ∷ replicate n a

  pub length-append : (xs ys : List A) → length (xs ++ ys) ≡ length xs + length ys
  length-append [] ys = omega arith
  length-append (x ∷ xs) ys = omega (arith, length-append xs ys)

  pub length-replicate : (n : ℕ) (a : A) → length (replicate n a) ≡ n
  length-replicate zero a = refl
  length-replicate (suc n) a = ap suc (length-replicate n a)

  -- Whether some element passes the test.
  unfoldable pub exists : (A → Bool) → List A → Bool
  exists p [] = false
  exists p (x ∷ xs) = p x || exists p xs

  -- The elements that pass the test, in order.
  unfoldable pub keep : (A → Bool) → List A → List A
  keep p [] = []
  keep p (x ∷ xs) = let rest = keep p xs in if p x then x ∷ rest else rest

  pub exists-append :
      (p : A → Bool) (xs ys : List A) → exists p (xs ++ ys) ≡ (exists p xs || exists p ys)
  unfolding exists
  exists-append p [] ys = refl
  exists-append p (x ∷ xs) ys = ground (arith, exists-append p xs ys)

  pub keep-append : (p : A → Bool) (xs ys : List A) → keep p (xs ++ ys) ≡ keep p xs ++ keep p ys
  unfolding keep
  keep-append p [] ys = refl
  keep-append p (x ∷ xs) ys = ground (arith, keep-append p xs ys)

module _ {ℓ κ} {A : Type ℓ} (P : A → Type κ) where
  abbrev pub All : List A → Type κ
  All [] = Unit
  All (x ∷ xs) = P x × All xs

  pub All-append : (xs ys : List A) → All xs → All ys → All (xs ++ ys)
  All-append [] ys _ hy = hy
  All-append (x ∷ xs) ys (px, hx) hy = (px, All-append xs ys hx hy)

module _ {ℓ κ} {A : Type ℓ} {B : Type κ} (f : A → B) where
  pub length-map : (xs : List A) → length (map f xs) ≡ length xs
  length-map [] = refl
  length-map (x ∷ xs) = ap suc (length-map xs)

module _ {ℓ κ} {A : Type ℓ} (P : A → Type κ) where
  pub All-Memᴰ : {a : A} (xs : List A) → All P xs → Memᴰ a xs → P a
  All-Memᴰ [] h m = elim m [ ]
  All-Memᴰ (x ∷ xs) h (Memᴰ.head e) = subst P (sym e) h.0
  All-Memᴰ (x ∷ xs) h (Memᴰ.tail m) = All-Memᴰ xs h.1 m

-- An element by its index.
pub Memᴰ_at {ℓ} : {A : Type ℓ} {a : A} (xs : List A) (i : ℕ) → get_elem? xs i ≡ some a → Memᴰ a xs
Memᴰ_at [] i e = absurd (cc)
Memᴰ_at (x ∷ xs) zero e = Memᴰ.head (cc)
Memᴰ_at (x ∷ xs) (suc i) e = Memᴰ.tail (Memᴰ_at xs i e)
