-- ===== src/Exporter/Parser/Storage.antt =====
-- internal/exporter/parser.go: the parsers of chunk health, disks, goals and mounts.
use leilfs_operator.Base.{
  ℕ, zero, suc, ◌-◌, Bool, List, [], ◌∷◌, ◌++◌, ◌==◌, length, drop, ok, err, ◌>>=◌, ◌>>◌, collect,
  if◌then◌else◌, ◌||◌,
}
use leilfs_operator.Text.{Text, codes, text_eq, fields, join}
use leilfs_operator.Exporter.Parser.{Parsed, unknown_tag, field, uint_field, non_empty_lines}
use leilfs_operator.Exporter.Parser.Records.{at_least}

pub record ChunksAvailability : Type 0 where
  pub goal : Text
  pub safe : ℕ
  pub endangered : ℕ
  pub lost : ℕ

pub record ChunksReplication : Type 0 where
  pub goal : Text
  pub counts : List ℕ

pub record ChunksHealthReport : Type 0 where
  pub availability : List ChunksAvailability
  pub replication : List ChunksReplication
  pub deletion : List ChunksReplication

unfoldable pub availability_of : List Text → Parsed ChunksAvailability
unfolding uint_field
availability_of f = do
  goal ← field f 1
  safe ← uint_field f 2
  endangered ← uint_field f 3
  lost ← uint_field f 4
  ok (record { goal = goal; safe = safe; endangered = endangered; lost = lost })

-- `for i := 2; i < len(f); i++`: the rounds left stand behind `i`.
unfoldable pub uint_fields : List Text → ℕ → ℕ → List ℕ → Parsed (List ℕ)
unfolding uint_field
uint_fields f i zero counts = ok counts
uint_fields f i (suc n) counts = uint_field f i >>= λ v. uint_fields f (suc i) n (counts ++ v ∷ [])

unfoldable pub replication_of : List Text → Parsed ChunksReplication
unfolding uint_fields
replication_of f = do
  counts ← uint_fields f 2 (length f - 2) []
  goal ← field f 1
  ok (record { goal = goal; counts = counts })

-- `case "AVA"`
unfoldable pub availability_row : ChunksHealthReport → List Text → Text → Parsed ChunksHealthReport
unfolding at_least availability_of
availability_row rep f line = do
  at_least 5 f line
  a ← availability_of f
  ok (record rep { availability = rep.availability ++ a ∷ [] })

-- `case "REP", "DEL"`
unfoldable pub counted_row : ChunksHealthReport → List Text → Text → Parsed ChunksHealthReport
unfolding replication_of
counted_row rep f tag = do
  cr ← replication_of f
  ok (
      if text_eq tag (codes "REP")
      then record rep { replication = rep.replication ++ cr ∷ [] }
      else record rep { deletion = rep.deletion ++ cr ∷ [] })

-- The `switch` on the tag of a row.
unfoldable pub health_row : ChunksHealthReport → List Text → Text → Text → Parsed ChunksHealthReport
unfolding availability_row counted_row
health_row rep f line tag =
    if text_eq tag (codes "AVA")
    then availability_row rep f line
    else if text_eq tag (codes "REP") || text_eq tag (codes "DEL")
    then counted_row rep f tag
    else err (unknown_tag tag line)

unfoldable pub health_line : ChunksHealthReport → Text → Parsed ChunksHealthReport
unfolding at_least health_row
health_line rep line = do
  at_least 2 (fields line) line
  tag ← field (fields line) 0
  health_row rep (fields line) line tag

unfoldable pub health_lines : ChunksHealthReport → List Text → Parsed ChunksHealthReport
unfolding health_line
health_lines rep [] = ok rep
health_lines rep (line ∷ lines) = health_line rep line >>= λ rep'. health_lines rep' lines

abbrev pub no_report : ChunksHealthReport
no_report = record { availability = []; replication = []; deletion = [] }

unfoldable pub parse_chunks_health : Text → Parsed ChunksHealthReport
unfolding health_lines
parse_chunks_health out = health_lines no_report (non_empty_lines out)

-- f[i] == "yes"
abbrev pub is_yes : Text → Bool
is_yes s = text_eq s (codes "yes")

pub record Disk : Type 0 where
  pub chunkserver_address : Text
  pub path : Text
  pub to_delete : Bool
  pub damaged : Bool
  pub scanning : Bool
  pub error_chunk_id : ℕ
  pub error_timestamp : ℕ
  pub total : ℕ
  pub used : ℕ
  pub chunks : ℕ

unfoldable pub disk_of : List Text → Parsed Disk
unfolding uint_field
disk_of f = do
  address ← field f 0
  path ← field f 1
  to_delete ← field f 2
  damaged ← field f 3
  scanning ← field f 4
  error_chunk_id ← uint_field f 5
  error_timestamp ← uint_field f 6
  total ← uint_field f 7
  used ← uint_field f 8
  chunks ← uint_field f 9
  ok (record {
    chunkserver_address = address;
    path = path;
    to_delete = is_yes to_delete;
    damaged = is_yes damaged;
    scanning = is_yes scanning;
    error_chunk_id = error_chunk_id;
    error_timestamp = error_timestamp;
    total = total;
    used = used;
    chunks = chunks;
  })

unfoldable pub disk_line : Text → Parsed Disk
unfolding at_least disk_of
disk_line line = do at_least 10 (fields line) line; disk_of (fields line)

unfoldable pub parse_disks : Text → Parsed (List Disk)
unfolding collect disk_line
parse_disks out = collect disk_line [] (non_empty_lines out)

pub record Goal : Type 0 where
  pub id : ℕ
  pub name : Text
  pub definition : Text

-- strings.TrimPrefix and strings.TrimSuffix of a double quote
unfoldable pub trim_prefix_quote : Text → Text
trim_prefix_quote [] = []
trim_prefix_quote (c ∷ s) = if c == 34 then s else c ∷ s

unfoldable pub trim_suffix_quote : Text → Text
trim_suffix_quote [] = []
trim_suffix_quote (c ∷ []) = if c == 34 then [] else c ∷ []
trim_suffix_quote (c ∷ d ∷ s) = c ∷ trim_suffix_quote (d ∷ s)

unfoldable pub goal_of : List Text → Parsed Goal
unfolding uint_field trim_prefix_quote trim_suffix_quote join
goal_of f = do
  id ← uint_field f 0
  name ← field f 1
  ok (record {
    id = id;
    name = name;
    definition = trim_suffix_quote (trim_prefix_quote (join (codes " ") (drop 2 f)));
  })

unfoldable pub goal_line : Text → Parsed Goal
unfolding at_least goal_of
goal_line line = do at_least 3 (fields line) line; goal_of (fields line)

unfoldable pub parse_goals : Text → Parsed (List Goal)
unfolding collect goal_line
parse_goals out = collect goal_line [] (non_empty_lines out)

pub record Mount : Type 0 where
  pub session_id : ℕ
  pub peer_ip : Text
  pub info : Text
  pub version : Text
  pub path : Text
  pub root_uid : ℕ
  pub root_gid : ℕ
  pub map_all_uid : ℕ
  pub map_all_gid : ℕ
  pub read_only : Bool
  pub restricted_ip : Bool
  pub ignore_gid : Bool
  pub all_can_change_quota : Bool
  pub map_all : Bool

unfoldable pub mount_of : List Text → Parsed Mount
unfolding uint_field
mount_of f = do
  session_id ← uint_field f 0
  peer_ip ← field f 1
  info ← field f 2
  version ← field f 3
  path ← field f 4
  root_uid ← uint_field f 5
  root_gid ← uint_field f 6
  map_all_uid ← uint_field f 7
  map_all_gid ← uint_field f 8
  read_only ← field f 9
  restricted_ip ← field f 10
  ignore_gid ← field f 11
  all_can_change_quota ← field f 12
  map_all ← field f 13
  ok (record {
    session_id = session_id;
    peer_ip = peer_ip;
    info = info;
    version = version;
    path = path;
    root_uid = root_uid;
    root_gid = root_gid;
    map_all_uid = map_all_uid;
    map_all_gid = map_all_gid;
    read_only = is_yes read_only;
    restricted_ip = is_yes restricted_ip;
    ignore_gid = is_yes ignore_gid;
    all_can_change_quota = is_yes all_can_change_quota;
    map_all = is_yes map_all;
  })

unfoldable pub mount_line : Text → Parsed Mount
unfolding at_least mount_of
mount_line line = do at_least 14 (fields line) line; mount_of (fields line)

unfoldable pub parse_mounts : Text → Parsed (List Mount)
unfolding collect mount_line
parse_mounts out = collect mount_line [] (non_empty_lines out)
