-- ===== src/Exporter/Collector.antt =====
-- internal/exporter/collector.go: the metric descriptors, the nine subcommands of a scrape, and
-- what one metric is. The `saunafs-admin` runner, its errors and the clock are parameters.
pub mod Samples
pub mod Arity
pub mod Scrape
pub mod Reports
pub mod Healthy
use leilfs_operator.Base.{
  ℕ, zero, suc, Bool, true, false, List, [], ◌∷◌, ◌++◌, map, Option, none, some, ◌≡◌, refl, length,
  ◌==◌, if◌then◌else◌, Result, ok, err, collect,
}
use leilfs_operator.Text.{Text, codes, text_eq, is_empty}

-- CollectorOptions, less the runner, the logger and the timeout's effect on the runner.
pub record CollectorOptions : Type 0 where
  pub master_host : Text
  pub master_port : Text
  -- in seconds
  pub timeout : ℕ

abbrev default_text : Text → Text → Text
default_text d s = if is_empty s then d else s

-- The defaults of NewCollector.
unfoldable pub new_collector : CollectorOptions → CollectorOptions
new_collector o = record {
  master_host = default_text (codes "127.0.0.1") o.master_host;
  master_port = default_text (codes "9421") o.master_port;
  timeout = if o.timeout == 0 then 3 else o.timeout;
}

pub data Desc : Type 0 where
  up scrape_errors scrape_duration : Desc
  info memory space objects chunks_total chunk_copies : Desc
  cs_info cs_chunks cs_used_space cs_total_space cs_errors : Desc
  cs_to_del_chunks cs_to_del_used cs_to_del_total : Desc
  ready_cs : Desc
  ms_info ms_meta_ver ms_status : Desc
  ch_ava_safe ch_ava_endangered ch_ava_lost ch_rep ch_del : Desc
  disk_total disk_used disk_chunks disk_flags : Desc
  goal_info : Desc
  mount_info mounts_total : Desc

abbrev cs_labels : List Text
cs_labels = codes "address" ∷ codes "label" ∷ []

abbrev disk_labels : List Text
disk_labels = codes "chunkserver" ∷ codes "path" ∷ []

-- The variable labels of each prometheus.NewDesc.
unfoldable pub variable_labels : Desc → List Text
variable_labels up = []
variable_labels scrape_errors = codes "subcommand" ∷ []
variable_labels scrape_duration = codes "subcommand" ∷ []
variable_labels info = codes "version" ∷ []
variable_labels memory = []
variable_labels space = codes "kind" ∷ []
variable_labels objects = codes "kind" ∷ []
variable_labels chunks_total = []
variable_labels chunk_copies = []
variable_labels cs_info =
    codes "address" ∷ codes "label" ∷ codes "version" ∷ codes "disconnected" ∷ []
variable_labels cs_chunks = cs_labels
variable_labels cs_used_space = cs_labels
variable_labels cs_total_space = cs_labels
variable_labels cs_errors = cs_labels
variable_labels cs_to_del_chunks = cs_labels
variable_labels cs_to_del_used = cs_labels
variable_labels cs_to_del_total = cs_labels
variable_labels ready_cs = []
variable_labels ms_info =
    codes "ip"
    ∷ codes "port"
    ∷ codes "hostname"
    ∷ codes "personality"
    ∷ codes "status"
    ∷ codes "version"
    ∷ []
variable_labels ms_meta_ver = codes "ip" ∷ codes "personality" ∷ []
variable_labels ms_status = codes "ip" ∷ codes "personality" ∷ []
variable_labels ch_ava_safe = codes "goal" ∷ []
variable_labels ch_ava_endangered = codes "goal" ∷ []
variable_labels ch_ava_lost = codes "goal" ∷ []
variable_labels ch_rep = codes "goal" ∷ codes "copies" ∷ []
variable_labels ch_del = codes "goal" ∷ codes "copies" ∷ []
variable_labels disk_total = disk_labels
variable_labels disk_used = disk_labels
variable_labels disk_chunks = disk_labels
variable_labels disk_flags = codes "chunkserver" ∷ codes "path" ∷ codes "flag" ∷ []
variable_labels goal_info = codes "id" ∷ codes "name" ∷ codes "definition" ∷ []
variable_labels mount_info =
    codes "session_id"
    ∷ codes "peer_ip"
    ∷ codes "info"
    ∷ codes "version"
    ∷ codes "path"
    ∷ codes "read_only"
    ∷ codes "map_all"
    ∷ []
variable_labels mounts_total = []

-- Describe
unfoldable pub describe : List Desc
describe =
    up ∷ scrape_errors ∷ scrape_duration ∷ info ∷ memory ∷ space ∷ objects ∷ chunks_total
    ∷ chunk_copies ∷ cs_info ∷ cs_chunks ∷ cs_used_space ∷ cs_total_space ∷ cs_errors
    ∷ cs_to_del_chunks ∷ cs_to_del_used ∷ cs_to_del_total ∷ ready_cs ∷ ms_info ∷ ms_meta_ver
    ∷ ms_status ∷ ch_ava_safe ∷ ch_ava_endangered ∷ ch_ava_lost ∷ ch_rep ∷ ch_del ∷ disk_total
    ∷ disk_used ∷ disk_chunks ∷ disk_flags ∷ goal_info ∷ mount_info ∷ mounts_total ∷ []

pub data ValueType : Type 0 where
  counter gauge : ValueType

-- A metric's value: float64 of a uint64, or the seconds of a duration (in nanoseconds).
pub data Value : Type 0 where
  of_uint : ℕ → Value
  of_seconds : ℕ → Value

-- The arguments of one prometheus.MustNewConstMetric.
pub record Sample : Type 0 where
  pub desc : Desc
  pub kind : ValueType
  pub value : Value
  pub labels : List Text

-- scrapeResult, with the runner's error as a text.
pub record ScrapeResult : Type 0 where
  pub out : Text
  pub err : Option Text
  pub duration : ℕ

pub record CmdSpec : Type 0 where
  pub name : Text
  pub args : List Text

abbrev spec : CollectorOptions → Text → List Text → CmdSpec
spec c name args = record { name = name; args = args ++ c.master_host ∷ c.master_port ∷ [] }

abbrev porcelain : CollectorOptions → Text → CmdSpec
porcelain c name = spec c name (name ∷ codes "--porcelain" ∷ [])

-- The subcommands of a scrape: all but the last take --porcelain.
unfoldable pub specs : CollectorOptions → List CmdSpec
specs c =
    porcelain c (codes "info")
    ∷ porcelain c (codes "list-chunkservers")
    ∷ porcelain c (codes "list-metadataservers")
    ∷ porcelain c (codes "metadataserver-status")
    ∷ porcelain c (codes "chunks-health")
    ∷ porcelain c (codes "list-disks")
    ∷ porcelain c (codes "list-goals")
    ∷ porcelain c (codes "list-mounts")
    ∷ spec c (codes "ready-chunkservers-count") (codes "ready-chunkservers-count" ∷ [])
    ∷ []

-- The map `results` in the order in which `range` goes through it.
abbrev pub Results : Type 0
Results = List (Text × ScrapeResult)

unfoldable pub result_of : Text → Results → Option ScrapeResult
result_of name [] = none
result_of name ((k, r) ∷ results) = if text_eq k name then some r else result_of name results

-- Every subcommand runs in its own goroutine and stores its result under its name; `order` is the
-- order in which the map is gone through.
unfoldable pub run_all : (List Text → ScrapeResult) → List CmdSpec → Results
run_all run order = map (λ (s : CmdSpec). (s.name, run s.args)) order
