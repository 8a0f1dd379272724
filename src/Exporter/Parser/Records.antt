-- ===== src/Exporter/Parser/Records.antt =====
-- internal/exporter/parser.go: the records and one parser for each `saunafs-admin` subcommand.
-- A loop over the lines is `collect`, and a loop over pointers to number fields is one bind for
-- each of them, in the loop's order.
use leilfs_operator.Base.{
  ℕ, Bool, List, [], ltb, length, Result, ok, err, ◌>>=◌, ◌>>◌, collect, if◌then◌else◌,
}
use leilfs_operator.Text.{Text, NumError, codes, text_eq, is_empty, fields, parse_uint, trim_space}
use leilfs_operator.Exporter.Parser.{
  Parsed, empty_output, too_few_fields, bad_uint, field, uint_field, non_empty_lines,
  first_non_empty_line,
}

pub record Info : Type 0 where
  pub version : Text
  pub memory_usage : ℕ
  pub total_space : ℕ
  pub available_space : ℕ
  pub trash_space : ℕ
  pub trash_nodes : ℕ
  pub reserved_space : ℕ
  pub reserved_nodes : ℕ
  pub all_nodes : ℕ
  pub dir_nodes : ℕ
  pub file_nodes : ℕ
  pub symlink_nodes : ℕ
  pub chunks : ℕ
  pub chunk_copies : ℕ
  pub regular_copies : ℕ

-- The guard `len(f) < n`.
unfoldable pub at_least : ℕ → List Text → Text → Parsed (Unit {0})
at_least n f line = if ltb (length f) n then err (too_few_fields n (length f) line) else ok tt

unfoldable pub info_of : List Text → Parsed Info
unfolding uint_field
info_of f = do
  version ← field f 0
  memory ← uint_field f 1
  total ← uint_field f 2
  available ← uint_field f 3
  trash ← uint_field f 4
  trash_n ← uint_field f 5
  reserved ← uint_field f 6
  reserved_n ← uint_field f 7
  all ← uint_field f 8
  dirs ← uint_field f 9
  files ← uint_field f 10
  symlinks ← uint_field f 11
  chunks ← uint_field f 12
  copies ← uint_field f 13
  regular ← uint_field f 14
  ok (record {
    version = version;
    memory_usage = memory;
    total_space = total;
    available_space = available;
    trash_space = trash;
    trash_nodes = trash_n;
    reserved_space = reserved;
    reserved_nodes = reserved_n;
    all_nodes = all;
    dir_nodes = dirs;
    file_nodes = files;
    symlink_nodes = symlinks;
    chunks = chunks;
    chunk_copies = copies;
    regular_copies = regular;
  })

-- The line that a single-line parser reads, refused if there is none.
unfoldable pub only_line : Text → Parsed Text
only_line out =
    let line = first_non_empty_line out in if is_empty line then err empty_output else ok line

unfoldable pub parse_info : Text → Parsed Info
unfolding only_line at_least info_of
parse_info out = do line ← only_line out; at_least 15 (fields line) line; info_of (fields line)

pub record Chunkserver : Type 0 where
  pub address : Text
  pub version : Text
  pub chunks : ℕ
  pub used_space : ℕ
  pub total_space : ℕ
  pub to_del_chunks : ℕ
  pub to_del_used_space : ℕ
  pub to_del_total_space : ℕ
  pub errors : ℕ
  pub label : Text
  pub disconnected : Bool

unfoldable pub chunkserver_of : List Text → Parsed Chunkserver
unfolding uint_field
chunkserver_of f = do
  address ← field f 0
  version ← field f 1
  label ← field f 9
  chunks ← uint_field f 2
  used ← uint_field f 3
  total ← uint_field f 4
  del_chunks ← uint_field f 5
  del_used ← uint_field f 6
  del_total ← uint_field f 7
  errors ← uint_field f 8
  ok (record {
    address = address;
    version = version;
    chunks = chunks;
    used_space = used;
    total_space = total;
    to_del_chunks = del_chunks;
    to_del_used_space = del_used;
    to_del_total_space = del_total;
    errors = errors;
    label = label;
    disconnected = text_eq version (codes "-");
  })

unfoldable pub chunkserver_line : Text → Parsed Chunkserver
unfolding at_least chunkserver_of
chunkserver_line line = do at_least 10 (fields line) line; chunkserver_of (fields line)

unfoldable pub parse_chunkservers : Text → Parsed (List Chunkserver)
unfolding collect chunkserver_line
parse_chunkservers out = collect chunkserver_line [] (non_empty_lines out)

pub record Metadataserver : Type 0 where
  pub ip : Text
  pub port : ℕ
  pub hostname : Text
  pub personality : Text
  pub server_status : Text
  pub metadata_version : ℕ
  pub version : Text

unfoldable pub metadataserver_of : List Text → Parsed Metadataserver
unfolding uint_field
metadataserver_of f = do
  port ← uint_field f 1
  metadata_version ← uint_field f 5
  ip ← field f 0
  hostname ← field f 2
  personality ← field f 3
  status ← field f 4
  version ← field f 6
  ok (record {
    ip = ip;
    port = port;
    hostname = hostname;
    personality = personality;
    server_status = status;
    metadata_version = metadata_version;
    version = version;
  })

unfoldable pub metadataserver_line : Text → Parsed Metadataserver
unfolding at_least metadataserver_of
metadataserver_line line = do at_least 7 (fields line) line; metadataserver_of (fields line)

unfoldable pub parse_metadataservers : Text → Parsed (List Metadataserver)
unfolding collect metadataserver_line
parse_metadataservers out = collect metadataserver_line [] (non_empty_lines out)

pub record MetadataserverStatus : Type 0 where
  pub personality : Text
  pub server_status : Text
  pub metadata_version : ℕ

unfoldable pub metadataserver_status_of : List Text → Parsed MetadataserverStatus
unfolding uint_field
metadataserver_status_of f = do
  metadata_version ← uint_field f 2
  personality ← field f 0
  status ← field f 1
  ok (record {
    personality = personality;
    server_status = status;
    metadata_version = metadata_version;
  })

unfoldable pub parse_metadataserver_status : Text → Parsed MetadataserverStatus
unfolding only_line at_least metadataserver_status_of
parse_metadataserver_status out = do
  line ← only_line out
  at_least 3 (fields line) line
  metadataserver_status_of (fields line)

abbrev pub wrap_ready : Text → Result NumError ℕ → Parsed ℕ
wrap_ready line (ok v) = ok v
wrap_ready line (err e) = err (bad_uint 0 line e)

-- The whole line is the number.
unfoldable pub parse_ready_chunkservers_count : Text → Parsed ℕ
unfolding only_line
parse_ready_chunkservers_count out = do
  line ← only_line out
  wrap_ready line (parse_uint (trim_space line))
