-- ===== src/Exporter/Parser/Safety/Parsers.antt =====
-- internal/exporter/parser.go: the indexing of the fields of a line, parser by parser.
use leilfs_operator.Base.{
  ℕ, zero, suc, ◌+◌, ◌-◌, ◌≤◌, List, [], ◌∷◌, ◌++◌, ◌≢◌, arith, length, ◌||◌, Result, ok, err,
  Bool-cases, inl, inr,
}
use leilfs_operator.Text.{Text, NumError, fields, parse_uint, text_eq, codes, trim_space}
use leilfs_operator.Exporter.Parser.{no_field, non_empty_lines}
use leilfs_operator.Exporter.Parser.Records.{
  info_of, parse_info, chunkserver_line, parse_chunkservers, metadataserver_line,
  parse_metadataservers, wrap_ready, metadataserver_status_of, parse_metadataserver_status,
  parse_ready_chunkservers_count,
}
use leilfs_operator.Exporter.Parser.Storage.{
  ChunksHealthReport, no_report, availability_of, uint_fields, replication_of, health_row,
  health_line, health_lines, availability_row, counted_row, parse_chunks_health, disk_line,
  parse_disks, goal_line, parse_goals, mount_line, parse_mounts,
}
use leilfs_operator.Exporter.Parser.Safety.{
  IsSafe, safe_ok, safe_uint, safe_tag, IsSafe-ne, IsSafe-bind, uint_field-IsSafe, text_then,
  uint_then, at_least_then, only_line_then, collect-IsSafe,
}

info_of-IsSafe : (f : List Text) → 15 ≤ length f → IsSafe (info_of f)
unfolding info_of
info_of-IsSafe f h = text_then f 0 (omega arith) λ _. uint_then f 1 (omega arith) λ _.
    uint_then f 2 (omega arith) λ _. uint_then f 3 (omega arith) λ _.
      uint_then f 4 (omega arith) λ _. uint_then f 5 (omega arith) λ _.
        uint_then f 6 (omega arith) λ _. uint_then f 7 (omega arith) λ _.
          uint_then f 8 (omega arith) λ _. uint_then f 9 (omega arith) λ _.
            uint_then f 10 (omega arith) λ _. uint_then f 11 (omega arith) λ _.
              uint_then f 12 (omega arith)
                λ _. uint_then f 13 (omega arith) λ _. uint_then f 14 (omega arith) λ _. safe_ok _

chunkserver_line-IsSafe : (l : Text) → IsSafe (chunkserver_line l)
unfolding chunkserver_line
chunkserver_line-IsSafe l = at_least_then 10 f l _ λ h. text_then f 0 (omega arith) λ _.
    text_then f 1 (omega arith) λ _. text_then f 9 (omega arith) λ _.
      uint_then f 2 (omega arith) λ _. uint_then f 3 (omega arith) λ _.
        uint_then f 4 (omega arith) λ _. uint_then f 5 (omega arith) λ _.
          uint_then f 6 (omega arith)
            λ _. uint_then f 7 (omega arith) λ _. uint_then f 8 (omega arith) λ _. safe_ok _
  where
    f : List Text
    f = fields l

metadataserver_line-IsSafe : (l : Text) → IsSafe (metadataserver_line l)
unfolding metadataserver_line
metadataserver_line-IsSafe l = at_least_then 7 f l _ λ h. uint_then f 1 (omega arith) λ _.
    uint_then f 5 (omega arith) λ _. text_then f 0 (omega arith) λ _.
      text_then f 2 (omega arith) λ _.
        text_then f 3 (omega arith)
          λ _. text_then f 4 (omega arith) λ _. text_then f 6 (omega arith) λ _. safe_ok _
  where
    f : List Text
    f = fields l

metadataserver_status_of-IsSafe :
    (f : List Text) → 3 ≤ length f → IsSafe (metadataserver_status_of f)
unfolding metadataserver_status_of
metadataserver_status_of-IsSafe f h =
    uint_then f 2 (omega arith)
      λ _. text_then f 0 (omega arith) λ _. text_then f 1 (omega arith) λ _. safe_ok _

disk_line-IsSafe : (l : Text) → IsSafe (disk_line l)
unfolding disk_line
disk_line-IsSafe l = at_least_then 10 f l _ λ h. text_then f 0 (omega arith) λ _.
    text_then f 1 (omega arith) λ _. text_then f 2 (omega arith) λ _.
      text_then f 3 (omega arith) λ _. text_then f 4 (omega arith) λ _.
        uint_then f 5 (omega arith) λ _. uint_then f 6 (omega arith) λ _.
          uint_then f 7 (omega arith)
            λ _. uint_then f 8 (omega arith) λ _. uint_then f 9 (omega arith) λ _. safe_ok _
  where
    f : List Text
    f = fields l

goal_line-IsSafe : (l : Text) → IsSafe (goal_line l)
unfolding goal_line
goal_line-IsSafe l = at_least_then 3 (fields l) l _ λ h.
    uint_then (fields l) 0 (omega arith) λ _. text_then (fields l) 1 (omega arith) λ _. safe_ok _

mount_line-IsSafe : (l : Text) → IsSafe (mount_line l)
unfolding mount_line
mount_line-IsSafe l = at_least_then 14 f l _ λ h. uint_then f 0 (omega arith) λ _.
    text_then f 1 (omega arith) λ _. text_then f 2 (omega arith) λ _.
      text_then f 3 (omega arith) λ _. text_then f 4 (omega arith) λ _.
        uint_then f 5 (omega arith) λ _. uint_then f 6 (omega arith) λ _.
          uint_then f 7 (omega arith) λ _. uint_then f 8 (omega arith) λ _.
            text_then f 9 (omega arith) λ _. text_then f 10 (omega arith) λ _.
              text_then f 11 (omega arith)
                λ _. text_then f 12 (omega arith) λ _. text_then f 13 (omega arith) λ _. safe_ok _
  where
    f : List Text
    f = fields l

-- The counters of a REP or DEL row: `i + n` is the number of fields.
uint_fields-IsSafe :
    (f : List Text) (i n : ℕ) (counts : List ℕ)
    → i + n ≤ length f
    → IsSafe (uint_fields f i n counts)
unfolding uint_fields
uint_fields-IsSafe f i zero counts h = safe_ok counts
uint_fields-IsSafe f i (suc n) counts h =
    IsSafe-bind _ (uint_field-IsSafe f i (omega arith))
      λ v. uint_fields-IsSafe f (suc i) n (counts ++ v ∷ []) (omega arith)

counted_row-IsSafe :
    (rep : ChunksHealthReport) (f : List Text) (tag : Text)
    → 2 ≤ length f
    → IsSafe (counted_row rep f tag)
unfolding counted_row replication_of
counted_row-IsSafe rep f tag h =
    IsSafe-bind _
      (IsSafe-bind _ (uint_fields-IsSafe f 2 (length f - 2) [] (omega arith))
        λ _. text_then f 1 (omega arith) λ _. safe_ok _)
      λ _. safe_ok _

availability_row-IsSafe :
    (rep : ChunksHealthReport) (f : List Text) (line : Text) → IsSafe (availability_row rep f line)
unfolding availability_row availability_of
availability_row-IsSafe rep f line = at_least_then 5 f line _ λ h.
    IsSafe-bind _
      (text_then f 1 (omega arith) λ _.
        uint_then f 2 (omega arith)
          λ _. uint_then f 3 (omega arith) λ _. uint_then f 4 (omega arith) λ _. safe_ok _)
      λ _. safe_ok _

health_row-IsSafe :
    (rep : ChunksHealthReport) (f : List Text) (line tag : Text)
    → 2 ≤ length f
    → IsSafe (health_row rep f line tag)
unfolding health_row
health_row-IsSafe rep f line tag h = elim (Bool-cases (text_eq tag (codes "AVA"))) [
  | inl ava ↦ rw ava (availability_row-IsSafe rep f line)
  | inr other ↦
      rw other (elim (Bool-cases (text_eq tag (codes "REP") || text_eq tag (codes "DEL"))) [
        | inl counted ↦ rw counted (counted_row-IsSafe rep f tag h)
        | inr unknown ↦ rw unknown (safe_tag tag line)
      ])
]

health_lines-IsSafe : (rep : ChunksHealthReport) (ls : List Text) → IsSafe (health_lines rep ls)
unfolding health_lines health_line
health_lines-IsSafe rep [] = safe_ok rep
health_lines-IsSafe rep (l ∷ ls) =
    IsSafe-bind _
      (at_least_then 2 (fields l) l _
        λ h. text_then (fields l) 0 (omega arith) λ tag. health_row-IsSafe rep (fields l) l tag h)
      λ rep'. health_lines-IsSafe rep' ls

wrap_ready-IsSafe : (l : Text) (r : Result NumError ℕ) → IsSafe (wrap_ready l r)
wrap_ready-IsSafe l (ok v) = safe_ok v
wrap_ready-IsSafe l (err e) = safe_uint 0 l e

-- No output of `saunafs-admin` whatever makes any of the nine parsers panic on a field that is not
-- there.
pub parsers_never_panic :
    (out : Text) (i : ℕ)
    → (parse_info out ≢ err (no_field i))
      × (parse_chunkservers out ≢ err (no_field i))
      × (parse_metadataservers out ≢ err (no_field i))
      × (parse_metadataserver_status out ≢ err (no_field i))
      × (parse_chunks_health out ≢ err (no_field i))
      × (parse_disks out ≢ err (no_field i))
      × (parse_goals out ≢ err (no_field i))
      × (parse_mounts out ≢ err (no_field i))
      × (parse_ready_chunkservers_count out ≢ err (no_field i))
unfolding parse_info parse_chunkservers parse_metadataservers parse_metadataserver_status
    parse_chunks_health parse_disks parse_goals parse_mounts parse_ready_chunkservers_count
parsers_never_panic out i = (
  IsSafe-ne i
      (only_line_then out _ λ l. at_least_then 15 (fields l) l _ λ h. info_of-IsSafe (fields l) h),
  IsSafe-ne i (collect-IsSafe chunkserver_line [] (non_empty_lines out) chunkserver_line-IsSafe),
  IsSafe-ne i
      (collect-IsSafe metadataserver_line [] (non_empty_lines out) metadataserver_line-IsSafe),
  IsSafe-ne i (
      only_line_then out _
        λ l. at_least_then 3 (fields l) l _ λ h. metadataserver_status_of-IsSafe (fields l) h),
  IsSafe-ne i (health_lines-IsSafe no_report (non_empty_lines out)),
  IsSafe-ne i (collect-IsSafe disk_line [] (non_empty_lines out) disk_line-IsSafe),
  IsSafe-ne i (collect-IsSafe goal_line [] (non_empty_lines out) goal_line-IsSafe),
  IsSafe-ne i (collect-IsSafe mount_line [] (non_empty_lines out) mount_line-IsSafe),
  IsSafe-ne i (only_line_then out _ λ l. wrap_ready-IsSafe l (parse_uint (trim_space l))),
)
