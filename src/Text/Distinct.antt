-- ===== src/Text/Distinct.antt =====
-- A pass over keys that looks each one up among those before it, against the plain statement that no
-- key occurs twice.
use leilfs_operator.Base.{
  Bool, true, false, not, ◌&&◌, ◌||◌, List, [], ◌∷◌, ◌++◌, ◌≡◌, ◌≢◌, ◌↔◌, refl, arith, All,
}
use leilfs_operator.Text.{Text, text_eq, text_eq_iff}

-- No element occurs twice.
abbrev pub Distinct {ℓ} : {A : Type ℓ} → List A → Type ℓ
Distinct [] = Unit
Distinct (k ∷ ks) = All (λ j. j ≢ k) ks × Distinct ks

-- The keys passed are added to those marked.
abbrev pub mark_one : Text → (Text → Bool) → Text → Bool
mark_one k p j = text_eq k j || p j

unfoldable pub mark : List Text → (Text → Bool) → Text → Bool
mark [] p = p
mark (k ∷ ks) p = mark ks (mark_one k p)

-- No key is marked when it is reached.
unfoldable pub clean : (Text → Bool) → List Text → Bool
clean p [] = true
clean p (k ∷ ks) = not (p k) && clean (mark_one k p) ks

pub clean-append :
    (p : Text → Bool) (xs ys : List Text)
    → clean p (xs ++ ys) ≡ (clean p xs && clean (mark xs p) ys)
unfolding clean mark
clean-append p [] ys = refl
clean-append p (x ∷ xs) ys = ground (arith, clean-append (mark_one x p) xs ys)

pub mark-append : (p : Text → Bool) (xs ys : List Text) → mark (xs ++ ys) p ≡ mark ys (mark xs p)
unfolding mark
mark-append p [] ys = refl
mark-append p (x ∷ xs) ys = mark-append (mark_one x p) xs ys

unmarked :
    (p : Text → Bool) (k : Text) (ks : List Text)
    → All (λ j. mark_one k p j ≡ false) ks
    → All (λ j. p j ≡ false) ks × All (λ j. j ≢ k) ks
unmarked p k [] h = (tt, tt)
unmarked p k (j ∷ ks) (hj, hs) =
    let (rest, distinct) = unmarked p k ks hs in
    ((ground arith, rest), ((λ e. ground (arith, text_eq_iff k j, e)), distinct))

marked :
    (p : Text → Bool) (k : Text) (ks : List Text)
    → All (λ j. p j ≡ false) ks
    → All (λ j. j ≢ k) ks
    → All (λ j. mark_one k p j ≡ false) ks
marked p k [] h d = tt
marked p k (j ∷ ks) (hj, hs) (dj, ds) = (ground (arith, text_eq_iff k j), marked p k ks hs ds)

clean_sound :
    (p : Text → Bool) (ks : List Text) → clean p ks ≡ true → All (λ k. p k ≡ false) ks × Distinct ks
unfolding clean
clean_sound p [] h = (tt, tt)
clean_sound p (k ∷ ks) h =
    let (fresh, distinct) = clean_sound (mark_one k p) ks (ground arith) in
    let (rest, others) = unmarked p k ks fresh in ((ground arith, rest), (others, distinct))

clean_complete :
    (p : Text → Bool) (ks : List Text) → All (λ k. p k ≡ false) ks → Distinct ks → clean p ks ≡ true
unfolding clean
clean_complete p [] h d = refl
clean_complete p (k ∷ ks) (hk, hs) (others, d) =
    rw hk (clean_complete (mark_one k p) ks (marked p k ks hs others) d)

none_marked : (ks : List Text) → All (λ k. ◌≡◌ {A = Bool} false false) ks
none_marked [] = tt
none_marked (k ∷ ks) = (refl, none_marked ks)

pub clean_iff : (ks : List Text) → (clean (λ k. false) ks ≡ true) ↔ Distinct ks
clean_iff ks =
    (λ h. (clean_sound (λ k. false) ks h).1, λ d. clean_complete (λ k. false) ks (none_marked ks) d)
