-- ===== src/Exporter/Parser/RoundTrip.antt =====
-- internal/exporter/parser.go against the column layouts that its comments document, printed by
-- `print_rows`.
pub mod Tables
pub mod Single
pub mod Health
pub mod Goals
use leilfs_operator.Base.{
  ℕ, Bool, true, false, List, [], ◌∷◌, ◌++◌, map, append-nil, append_assoc, ◌≡◌, ◌≢◌, refl, ◌≤◌,
  arith, All, ok, ◌==◌, if◌then◌else◌, Result, collect, ap, ◌∙◌,
}
use leilfs_operator.Text.{
  Text, is_empty, max_u64, decimal, fields, join, join_rest, trim_right, trim_space, cut_lines,
  split_lines, parse_uint,
}
use leilfs_operator.Text.Fields.{IsWord, blank, fields-join}
use leilfs_operator.Text.Lines.{
  eol, cr, split_lines-append, trim_right-line, trim_space-word, join-IsLine, join_space-IsLine,
}
use leilfs_operator.Exporter.Parser.{ParseError, non_empty_lines, first_non_empty_line}

-- The columns of one row: one word at least.
abbrev pub IsRow : List Text → Type 0
IsRow ws = (ws ≢ []) × All IsWord ws

-- The rows as `saunafs-admin` prints them: columns behind one blank each, lines ended by "\n", or by
-- "\r\n" if `crlf`.
pub print_rows : Bool → List (List Text) → Text
print_rows crlf [] = []
print_rows crlf (ws ∷ rows) = join blank ws ++ (eol crlf ++ print_rows crlf rows)

row-not_blank :
    (sep : Text) (ws : List Text) → IsRow ws → is_empty (trim_space (join sep ws)) ≡ false
unfolding join
row-not_blank sep [] h = absurd (h.0 refl)
row-not_blank sep (w ∷ ws) h = trim_space-word w (join_rest sep ws) h.1.0

pub non_empty_lines-print_rows :
    (crlf : Bool) (rows : List (List Text))
    → All IsRow rows
    → non_empty_lines (print_rows crlf rows) ≡ map (join blank) rows
unfolding non_empty_lines print_rows
non_empty_lines-print_rows crlf [] h = unfold split_lines trim_right trim_space in refl
non_empty_lines-print_rows crlf (ws ∷ rows) (h, hs) =
    rw (split_lines-append (join blank ws) (print_rows crlf rows) crlf (join-IsLine ws h.1)) (
      rw (trim_right-line (join blank ws) crlf (join-IsLine ws h.1), row-not_blank blank ws h)
        (ap (λ t. join blank ws ∷ t) (non_empty_lines-print_rows crlf rows hs)))

pub collect-map {ℓ κ} :
    {E : Type ℓ} {A B : Type κ} (f : A → Result E B) (g : B → A) (out xs : List B)
    → All (λ x. f (g x) ≡ ok x) xs
    → collect f out (map g xs) ≡ ok (out ++ xs)
unfolding collect
collect-map f g out [] h = rw append-nil
collect-map f g out (x ∷ xs) (hx, hs) =
    rw hx (rw (collect-map f g (out ++ x ∷ []) xs hs, append_assoc))

-- A table: how a row is laid out, which values can be laid out, and a line's parser that reads a
-- row back.
pub record Table (A : Type 0) : Type 1 where
  pub line : Text → Result ParseError A
  pub row : A → List Text
  pub Fits : A → Type 0
  pub row-IsRow : (a : A) → Fits a → IsRow (row a)
  pub line-row : (a : A) → Fits a → line (join blank (row a)) ≡ ok a

module _ {A : Type 0} (t : Table A) where
  open t use {line, row, Fits, row-IsRow, line-row}

  All-row : (xs : List A) → All Fits xs → All IsRow (map row xs)
  All-row [] h = tt
  All-row (x ∷ xs) (hx, hs) = (row-IsRow x hx, All-row xs hs)

  All-line : (xs : List A) → All Fits xs → All (λ x. line (join blank (row x)) ≡ ok x) xs
  All-line [] h = tt
  All-line (x ∷ xs) (hx, hs) = (line-row x hx, All-line xs hs)

  map_twice : (xs : List A) → map (join blank) (map row xs) ≡ map (λ x. join blank (row x)) xs
  map_twice [] = refl
  map_twice (x ∷ xs) = ap (λ t. join blank (row x) ∷ t) (map_twice xs)

  pub collect-print_rows :
      (crlf : Bool) (xs : List A)
      → All Fits xs
      → collect line [] (non_empty_lines (print_rows crlf (map row xs))) ≡ ok xs
  collect-print_rows crlf xs h =
      rw (non_empty_lines-print_rows crlf (map row xs) (All-row xs h), map_twice xs)
        (collect-map line (λ x. join blank (row x)) [] xs (All-line xs h))

-- The first line of one row.
pub first_non_empty_line-print_rows :
    (crlf : Bool) (ws : List Text)
    → IsRow ws
    → first_non_empty_line (print_rows crlf (ws ∷ [])) ≡ join blank ws
unfolding first_non_empty_line
first_non_empty_line-print_rows crlf ws h = rw (non_empty_lines-print_rows crlf (ws ∷ []) (h, tt))

pub row-ne-nil : (sep : Text) (ws : List Text) → IsRow ws → is_empty (join sep ws) ≡ false
unfolding join
row-ne-nil sep [] h = absurd (h.0 refl)
row-ne-nil sep ([] ∷ ws) h = absurd (h.1.0.0 refl)
row-ne-nil sep ((c ∷ w) ∷ ws) h = refl

abbrev pub tab : Text
tab = 9 ∷ []

-- One row with a tab between two columns, as `metadataserver-status --porcelain` prints it.
unfoldable pub print_tabs : Bool → List Text → Text
print_tabs crlf ws = join tab ws ++ (eol crlf ++ [])

pub first_non_empty_line-print_tabs :
    (crlf : Bool) (ws : List Text)
    → IsRow ws
    → first_non_empty_line (print_tabs crlf ws) ≡ join tab ws
unfolding first_non_empty_line non_empty_lines print_tabs
first_non_empty_line-print_tabs crlf ws h =
    let line = join_space-IsLine 9 ws (omega arith) h.1 in
    rw (split_lines-append (join tab ws) [] crlf line)
      (rw (trim_right-line (join tab ws) crlf line, row-not_blank tab ws h))
