-- ===== src/Text/Decimal.antt =====
-- strconv.ParseUint, and the numerals that fmt's %d writes.
use mathlib.Core.List.{cons-ne-nil}
use leilfs_operator.Base.{
  ℕ, zero, suc, ◌+◌, ◌-◌, ◌*◌, ◌/◌, ◌%◌, ◌≤◌, ◌<◌, false, [], ◌∷◌, ◌≡◌, ◌≢◌, refl, arith, All, ok,
  ◌↔◌, ◌∙◌, ◌⊎◌, ltb, Bool-cases, inl, inr,
}
use leilfs_operator.Text.{Text, max_u64, write_digits, decimal, scan_uint, parse_uint, is_space}
use leilfs_operator.Text.Fields.{IsWord}

-- What the digits of a text add up to behind the number `n`, without any bound.
abbrev pub numeral_value : ℕ → Text → ℕ
numeral_value n [] = n
numeral_value n (c ∷ s) = numeral_value (n * 10 + (c - b'0')) s

-- '0' to '9'
abbrev pub IsDigit : ℕ → Type 0
IsDigit c = (b'0' ≤ c) × (c ≤ b'9')

scan_digit :
    (c : ℕ) (s : Text) (n : ℕ)
    → IsDigit c
    → n * 10 + (c - b'0') ≤ max_u64
    → scan_uint (c ∷ s) n ≡ scan_uint s (n * 10 + (c - b'0'))
unfolding scan_uint
scan_digit c s n h fits = ground arith

scan_uint_sound :
    (s : Text) (n r : ℕ)
    → n ≤ max_u64
    → scan_uint s n ≡ ok r
    → All IsDigit s × (r ≡ numeral_value n s) × (r ≤ max_u64)
unfolding scan_uint
scan_uint_sound [] n r fits h = ground arith
scan_uint_sound (c ∷ s) n r fits h = ground (arith, scan_uint_sound s (n * 10 + (c - b'0')) r)

le-numeral_value : (s : Text) (n : ℕ) → n ≤ numeral_value n s
le-numeral_value [] n = omega arith
le-numeral_value (c ∷ s) n = omega (arith, le-numeral_value s (n * 10 + (c - b'0')))

scan_uint_complete :
    (s : Text) (n : ℕ)
    → All IsDigit s
    → numeral_value n s ≤ max_u64
    → scan_uint s n ≡ ok (numeral_value n s)
scan_uint_complete [] n _ _ = unfold scan_uint in refl
scan_uint_complete (c ∷ s) n (hc, hs) fits =
    let m = n * 10 + (c - b'0') in
    scan_digit c s n hc (omega (arith, le-numeral_value s m)) ∙ scan_uint_complete s m hs fits

-- `strconv.ParseUint(s, 10, 64)` returns `n` exactly when `s` is a run of one or more decimal
-- digits that spells `n`, and `n` fits in 64 bits.
pub parse_uint_iff :
    (s : Text) (n : ℕ)
    → (parse_uint s ≡ ok n) ↔ ((s ≢ []) × All IsDigit s × (n ≡ numeral_value 0 s) × (n ≤ max_u64))
unfolding parse_uint
parse_uint_iff [] n = (λ h. absurd (cc), λ h. absurd (h.0 refl))
parse_uint_iff (c ∷ s) n = (
  λ h.
      let (all_digits, exact, fits) = scan_uint_sound (c ∷ s) 0 n (omega arith) h in
      (cons-ne-nil c s, all_digits, exact, fits),
  λ h. rw h.2 (scan_uint_complete (c ∷ s) 0 h.1 (omega arith)),
)

scan_last :
    (n : ℕ) (out : Text)
    → n ≤ max_u64
    → scan_uint ((b'0' + n % 10) ∷ out) (n / 10) ≡ scan_uint out n
unfolding scan_uint
scan_last n out fits = ground arith

scan-write_digits :
    (f n : ℕ) (out : Text)
    → n < f
    → n ≤ max_u64
    → scan_uint (write_digits f n out) 0 ≡ scan_uint out n
unfolding write_digits
scan-write_digits zero n out h fits = elim h [ ]
scan-write_digits (suc f) n out h fits = elim (Bool-cases (ltb n 10)) [
  | inl small ↦ rw small (let e : n / 10 ≡ 0 = ground arith in rw (← e) (scan_last n out fits))
  | inr large ↦ rw large (
      scan-write_digits f (n / 10) ((b'0' + n % 10) ∷ out) (ground arith) (omega arith)
      ∙ scan_last n out fits)
]

write_digits-ne-nil : (f n : ℕ) (out : Text) → (0 < f) ⊎ (out ≢ []) → write_digits f n out ≢ []
unfolding write_digits
write_digits-ne-nil zero n out (inl h) = elim h [ ]
write_digits-ne-nil zero n out (inr h) = h
write_digits-ne-nil (suc f) n out _ = ground (
  arith,
  write_digits-ne-nil f (n / 10) ((b'0' + n % 10) ∷ out) (inr (cons-ne-nil _ _)),
  cons-ne-nil (b'0' + n % 10) out,
)

-- What %d writes is digits.
write_digits-IsDigit : (f n : ℕ) (out : Text) → All IsDigit out → All IsDigit (write_digits f n out)
unfolding write_digits
write_digits-IsDigit zero n out h = h
write_digits-IsDigit (suc f) n out h =
    ground (arith, write_digits-IsDigit f (n / 10) ((b'0' + n % 10) ∷ out))

pub parse_uint-decimal : (n : ℕ) → n ≤ max_u64 → parse_uint (decimal n) ≡ ok n
unfolding decimal scan_uint parse_uint
parse_uint-decimal n h =
    parse_uint-scan (decimal n) (write_digits-ne-nil (suc n) n [] (inl (omega arith)))
    ∙ (scan-write_digits (suc n) n [] (omega arith) h ∙ refl)
  where
    parse_uint-scan : (s : Text) → s ≢ [] → parse_uint s ≡ scan_uint s 0
    parse_uint-scan [] h = absurd (h refl)
    parse_uint-scan (c ∷ s) h = refl

IsDigit-not_space : (s : Text) → All IsDigit s → All (λ c. is_space c ≡ false) s
unfolding is_space
IsDigit-not_space [] _ = tt
IsDigit-not_space (c ∷ s) (h, hs) = (ground arith, IsDigit-not_space s hs)

pub decimal-IsWord : (n : ℕ) → IsWord (decimal n)
unfolding decimal
decimal-IsWord n = (
  write_digits-ne-nil (suc n) n [] (inl (omega arith)),
  IsDigit-not_space (decimal n) (write_digits-IsDigit (suc n) n [] tt),
)
