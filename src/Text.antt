-- ===== src/Text.antt =====
-- Go's texts, and what the program uses of the packages strings, strconv and fmt. A text is the
-- list of its code points; a byte that is part of none, in the output of a
-- process, is a number above the code points, 0x110000 + the byte. The proofs are in the modules below.
pub mod Fields
pub mod Decimal
pub mod Lines
pub mod Maps
pub mod Distinct
use Prim.Native.Char.{code}
use Prim.Native.String.{String}
use leilfs_operator.Base.{
  ℕ, zero, suc, ◌+◌, ◌-◌, ◌*◌, ◌/◌, ◌%◌, ◌^◌, Bool, true, false, ◌&&◌, ◌||◌, not, List, [], ◌∷◌,
  ◌++◌, ◌≡◌, ◌↔◌, refl, arith, ltb, leb, ◌==◌, if◌then◌else◌, Result, ok, err,
}

abbrev pub Text : Type 0
Text = List ℕ

-- A literal as a text.
abbrev pub codes : String → Text
codes (String.◌∷◌ first rest) = code first ∷ codes rest
codes String.[] = []

-- s == t
unfoldable pub text_eq : Text → Text → Bool
text_eq [] [] = true
text_eq [] (d ∷ t) = false
text_eq (c ∷ s) [] = false
text_eq (c ∷ s) (d ∷ t) = c == d && text_eq s t

pub text_eq_refl : (s : Text) → text_eq s s ≡ true
unfolding text_eq
text_eq_refl [] = refl
text_eq_refl (c ∷ s) = ground (arith, text_eq_refl s)

pub eq_of_text_eq : (s t : Text) → text_eq s t ≡ true → s ≡ t
unfolding text_eq
eq_of_text_eq [] [] h = refl
eq_of_text_eq [] (d ∷ t) h = cc
eq_of_text_eq (c ∷ s) [] h = cc
eq_of_text_eq (c ∷ s) (d ∷ t) h = ground (arith, eq_of_text_eq s t)

pub text_eq_iff : (s t : Text) → (text_eq s t ≡ true) ↔ (s ≡ t)
text_eq_iff s t = (eq_of_text_eq s t, λ e. rw e (text_eq_refl t))

pub text_ne : (s t : Text) → text_eq s t ≡ false → ¬ (s ≡ t)
text_ne s t h e = cc (h, (text_eq_iff s t).1 e)

-- s == ""
abbrev pub is_empty {ℓ} : {A : Type ℓ} → List A → Bool
is_empty [] = true
is_empty (x ∷ xs) = false

-- unicode.IsSpace
unfoldable pub is_space : ℕ → Bool
is_space c =
    (leb 9 c && leb c 13)
    || c == 32
    || c == 0x85
    || c == 0xa0
    || c == 0x1680
    || (leb 0x2000 c && leb c 0x200a)
    || c == 0x2028
    || c == 0x2029
    || c == 0x202f
    || c == 0x205f
    || c == 0x3000

-- strings.TrimLeftFunc and strings.TrimRightFunc
unfoldable pub trim_left : (ℕ → Bool) → Text → Text
trim_left p [] = []
trim_left p (c ∷ s) = let rest = trim_left p s in if p c then rest else c ∷ s

abbrev pub cons_unless : (ℕ → Bool) → ℕ → Text → Text
cons_unless p c [] = if p c then [] else c ∷ []
cons_unless p c (d ∷ s) = c ∷ d ∷ s

unfoldable pub trim_right : (ℕ → Bool) → Text → Text
trim_right p [] = []
trim_right p (c ∷ s) = cons_unless p c (trim_right p s)

-- strings.TrimSpace
unfoldable pub trim_space : Text → Text
unfolding trim_left trim_right is_space
trim_space s = trim_right is_space (trim_left is_space s)

-- strings.Split(s, "\n"): the second argument is the part so far.
unfoldable pub cut_lines : Text → Text → List Text
cut_lines [] cur = cur ∷ []
cut_lines (c ∷ s) cur = elim (c == 10) [
  | true ↦ cur ∷ cut_lines s []
  | false ↦ cut_lines s (cur ++ c ∷ [])
]

unfoldable pub split_lines : Text → List Text
unfolding cut_lines
split_lines s = cut_lines s []

-- strings.Fields: a field ends at a space and is kept if it holds anything.
abbrev pub close : Text → List Text → List Text
close [] rest = rest
close (c ∷ cur) rest = (c ∷ cur) ∷ rest

unfoldable pub cut_fields : Text → Text → List Text
unfolding is_space
cut_fields [] cur = close cur []
cut_fields (c ∷ s) cur = elim (is_space c) [
  | true ↦ close cur (cut_fields s [])
  | false ↦ cut_fields s (cur ++ c ∷ [])
]

unfoldable pub fields : Text → List Text
unfolding cut_fields
fields s = cut_fields s []

-- strings.Join
unfoldable pub join_rest : Text → List Text → Text
join_rest sep [] = []
join_rest sep (x ∷ xs) = sep ++ (x ++ join_rest sep xs)

unfoldable pub join : Text → List Text → Text
unfolding join_rest
join sep [] = []
join sep (x ∷ xs) = x ++ join_rest sep xs

-- fmt's %d of a number that is not negative. One digit more is written in each round, so `suc n`
-- rounds are enough.
unfoldable pub write_digits : ℕ → ℕ → Text → Text
write_digits zero n out = out
write_digits (suc f) n out =
    let d = b'0' + n % 10 in
    let rest = write_digits f (n / 10) (d ∷ out) in if ltb n 10 then d ∷ out else rest

unfoldable pub decimal : ℕ → Text
unfolding write_digits
decimal n = write_digits (suc n) n []

-- strconv.ErrSyntax and strconv.ErrRange
pub data NumError : Type 0 where
  syntax range : NumError

abbrev pub u64 : ℕ → ℕ
u64 n = n % 2 ^ 64

abbrev pub max_u64 : ℕ
max_u64 = 2 ^ 64 - 1

-- The loop of strconv.ParseUint(s, 10, 64): `cutoff` is maxUint64/10 + 1.
unfoldable pub scan_uint : Text → ℕ → Result NumError ℕ
scan_uint [] n = ok n
scan_uint (c ∷ s) n =
    let d = c - b'0' in
    let n1 = u64 (u64 (n * 10) + d) in
    let rest = scan_uint s n1 in
    if ltb c b'0' || ltb b'9' c
    then err syntax
    else if leb (max_u64 / 10 + 1) n
    then err range
    else if ltb n1 (u64 (n * 10))
    then err range
    else rest

unfoldable pub parse_uint : Text → Result NumError ℕ
unfolding scan_uint
parse_uint [] = err syntax
parse_uint (c ∷ s) = scan_uint (c ∷ s) 0
