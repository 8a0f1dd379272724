-- ===== src/Exporter/Parser.antt =====
-- internal/exporter/parser.go: what its parsers share. A parser's error is a value that carries what
-- the message is built from; `no_field` is the panic of an index out of range.
pub mod Records
pub mod Storage
pub mod RoundTrip
pub mod Safety
use leilfs_operator.Base.{
  ℕ, Option, List, [], ◌∷◌, ◌++◌, none, some, ◌≡◌, refl, arith, get_elem?, Result, ok, err, ◌>>=◌,
  ◌==◌, if◌then◌else◌,
}
use leilfs_operator.Text.{
  Text, NumError, is_space, is_empty, split_lines, trim_right, trim_space, parse_uint,
}

pub data ParseError : Type 0 where
  empty_output : ParseError
  -- fields expected, fields found, the line
  too_few_fields : ℕ → ℕ → Text → ParseError
  -- the column, its text, what strconv said
  bad_uint : ℕ → Text → NumError → ParseError
  -- the tag, the line
  unknown_tag : Text → Text → ParseError
  no_field : ℕ → ParseError

abbrev pub Parsed : Type 0 → Type 0
Parsed A = Result ParseError A

abbrev pub or_no_field : ℕ → Option Text → Parsed Text
or_no_field i none = err (no_field i)
or_no_field i (some s) = ok s

-- f[i]
abbrev pub field : List Text → ℕ → Parsed Text
field f i = or_no_field i (get_elem? f i)

abbrev pub wrap_uint : ℕ → Text → Result NumError ℕ → Parsed ℕ
wrap_uint i s (ok v) = ok v
wrap_uint i s (err e) = err (bad_uint i s e)

-- `v, err := strconv.ParseUint(f[i], 10, 64); if err != nil { return nil, … }`
unfoldable pub uint_field : List Text → ℕ → Parsed ℕ
uint_field f i = field f i >>= λ s. wrap_uint i s (parse_uint s)

-- The loop of nonEmptyLines.
unfoldable pub keep_lines : List Text → List Text
keep_lines [] = []
keep_lines (l ∷ ls) =
    let line = trim_right (λ c. c == 13) l in
    let rest = keep_lines ls in if is_empty (trim_space line) then rest else line ∷ rest

unfoldable pub non_empty_lines : Text → List Text
unfolding keep_lines
non_empty_lines s = keep_lines (split_lines s)

abbrev head_or_empty : List Text → Text
head_or_empty [] = []
head_or_empty (l ∷ ls) = l

unfoldable pub first_non_empty_line : Text → Text
unfolding non_empty_lines
first_non_empty_line s = head_or_empty (non_empty_lines s)
