-- ===== src/Exporter/Parser/Safety.antt =====
-- internal/exporter/parser.go: rules for results that are no panic, one for each step of a parser.
pub mod Parsers
use leilfs_operator.Base.{
  ℕ, zero, suc, ◌+◌, ◌-◌, ◌≤◌, ◌<◌, Bool, true, false, List, [], ◌∷◌, ◌++◌, none, some, ◌≡◌, ◌≢◌,
  refl, arith, length, get_elem?, ltb, Result, ok, err, ◌>>=◌, ◌>>◌, collect, Bool-cases, inl, inr,
  ltb→lt, if◌then◌else◌, Option-cases,
}
use leilfs_operator.Text.{Text, fields, is_empty, parse_uint, text_eq, codes, trim_space, NumError}
use leilfs_operator.Exporter.Parser.{
  Parsed, ParseError, empty_output, too_few_fields, bad_uint, unknown_tag, no_field, field,
  wrap_uint, or_no_field, uint_field, non_empty_lines, first_non_empty_line,
}
use leilfs_operator.Exporter.Parser.Records.{
  Info, at_least, info_of, only_line, parse_info, chunkserver_of, chunkserver_line,
  parse_chunkservers, metadataserver_of, metadataserver_line, parse_metadataservers,
  metadataserver_status_of, parse_metadataserver_status, parse_ready_chunkservers_count,
}
use leilfs_operator.Exporter.Parser.Storage.{
  ChunksHealthReport, availability_of, uint_fields, replication_of, health_row, health_line,
  health_lines, availability_row, counted_row, parse_chunks_health, disk_of, disk_line, parse_disks,
  goal_of, goal_line, parse_goals, mount_of, mount_line, parse_mounts,
}

-- A result that is no panic.
pub data IsSafe {A : Type 0} : Parsed A → Type 0 where
  safe_ok : (a : A) → IsSafe (ok a)
  safe_empty : IsSafe (err empty_output)
  safe_few : (n m : ℕ) (l : Text) → IsSafe (err (too_few_fields n m l))
  safe_uint : (i : ℕ) (s : Text) (e : NumError) → IsSafe (err (bad_uint i s e))
  safe_tag : (t l : Text) → IsSafe (err (unknown_tag t l))

pub IsSafe-ne : {A : Type 0} {r : Parsed A} (i : ℕ) → IsSafe r → r ≢ err (no_field i)
IsSafe-ne i (safe_ok a) e = cc
IsSafe-ne i safe_empty e = cc
IsSafe-ne i (safe_few n m l) e = cc
IsSafe-ne i (safe_uint j s x) e = cc
IsSafe-ne i (safe_tag t l) e = cc

pub IsSafe-bind :
    {A B : Type 0} {m : Parsed A} (f : A → Parsed B)
    → IsSafe m
    → ((a : A) → IsSafe (f a))
    → IsSafe (m >>= f)
IsSafe-bind f (safe_ok a) h = h a
IsSafe-bind f safe_empty h = safe_empty
IsSafe-bind f (safe_few n m l) h = safe_few n m l
IsSafe-bind f (safe_uint i s e) h = safe_uint i s e
IsSafe-bind f (safe_tag t l) h = safe_tag t l

or_no_field-IsSafe :
    (j : ℕ) (f : List Text) (i : ℕ) → i < length f → IsSafe (or_no_field j (get_elem? f i))
or_no_field-IsSafe j [] i h = elim h [ ]
or_no_field-IsSafe j (s ∷ f) zero h = safe_ok s
or_no_field-IsSafe j (s ∷ f) (suc i) h = or_no_field-IsSafe j f i (omega arith)

field-IsSafe : (f : List Text) (i : ℕ) → i < length f → IsSafe (field f i)
field-IsSafe f i h = or_no_field-IsSafe i f i h

pub uint_field-IsSafe : (f : List Text) (i : ℕ) → i < length f → IsSafe (uint_field f i)
unfolding uint_field
uint_field-IsSafe f i h = IsSafe-bind _ (field-IsSafe f i h) (λ s. read i s (parse_uint s))
  where
    read : (i : ℕ) (s : Text) (r : Result NumError ℕ) → IsSafe (wrap_uint i s r)
    read i s (ok v) = safe_ok v
    read i s (err e) = safe_uint i s e

module _ {B : Type 0} (f : List Text) (i : ℕ) (h : i < length f) where
  pub text_then : {k : Text → Parsed B} → ((s : Text) → IsSafe (k s)) → IsSafe (field f i >>= k)
  text_then safe = IsSafe-bind _ (field-IsSafe f i h) safe

  pub uint_then : {k : ℕ → Parsed B} → ((n : ℕ) → IsSafe (k n)) → IsSafe (uint_field f i >>= k)
  uint_then safe = IsSafe-bind _ (uint_field-IsSafe f i h) safe

-- The guard on the number of fields covers every index behind it.
pub at_least_then :
    {B : Type 0} (n : ℕ) (f : List Text) (line : Text) (r : Parsed B)
    → (n ≤ length f → IsSafe r)
    → IsSafe (at_least n f line >> r)
unfolding at_least
at_least_then n f line r safe = elim (Bool-cases (ltb (length f) n)) [
  | inl few ↦ rw few (safe_few n (length f) line)
  | inr enough ↦ rw enough (safe (ground arith))
]

pub only_line_then :
    {B : Type 0} (out : Text) (k : Text → Parsed B)
    → ((line : Text) → IsSafe (k line))
    → IsSafe (only_line out >>= k)
unfolding only_line
only_line_then out k safe = elim (Bool-cases (is_empty (first_non_empty_line out))) [
  | inl none_left ↦ rw none_left safe_empty
  | inr found ↦ rw found (safe (first_non_empty_line out))
]

pub collect-IsSafe :
    {B : Type 0} (f : Text → Parsed B) (out : List B) (ls : List Text)
    → ((l : Text) → IsSafe (f l))
    → IsSafe (collect f out ls)
unfolding collect
collect-IsSafe f out [] safe = safe_ok out
collect-IsSafe f out (l ∷ ls) safe =
    IsSafe-bind _ (safe l) (λ y. collect-IsSafe f (out ++ y ∷ []) ls safe)
