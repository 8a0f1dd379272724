-- ===== src/Exporter/Collector/Samples.antt =====
-- internal/exporter/collector.go: the samples that one scrape emits, one function for each block of
-- Collect. A block emits nothing if its subcommand failed or its output does not parse.
use leilfs_operator.Base.{
  ℕ, suc, Bool, true, false, ◌&&◌, ◌||◌, List, [], ◌∷◌, ◌++◌, map, Option, none, some, length,
  if◌then◌else◌, Result, ok, err,
}
use mathlib.Core.List.{flat_map}
use leilfs_operator.Text.{Text, codes, text_eq, decimal}
use leilfs_operator.Exporter.Parser.{ParseError}
use leilfs_operator.Exporter.Parser.Records.{Info, Chunkserver, Metadataserver}
use leilfs_operator.Exporter.Parser.Storage.{
  ChunksAvailability, ChunksReplication, ChunksHealthReport, Disk, Goal, Mount,
}
use leilfs_operator.Exporter.Collector.{
  Desc, Sample, counter, gauge, of_uint, of_seconds, ScrapeResult, Results,
}

abbrev pub gauge_of : Desc → ℕ → List Text → Sample
gauge_of d n ls = record { desc = d; kind = gauge; value = of_uint n; labels = ls }

abbrev counter_of : Desc → ℕ → List Text → Sample
counter_of d n ls = record { desc = d; kind = counter; value = of_uint n; labels = ls }

-- 1.0 or 0.0
abbrev pub one_if : Bool → ℕ
one_if true = 1
one_if false = 0

abbrev pub yes_or_no : Bool → Text
yes_or_no true = codes "yes"
yes_or_no false = codes "no"

-- r.err != nil
abbrev pub failed : ScrapeResult → Bool
failed r = elim (r.err) [ none ↦ false | some e ↦ true ]

unfoldable pub scrape_samples : Results → List Sample
scrape_samples [] = []
scrape_samples ((name, r) ∷ results) =
    counter_of Desc.scrape_errors (one_if (failed r)) (name ∷ [])
    ∷ record {
      desc = Desc.scrape_duration;
      kind = gauge;
      value = of_seconds r.duration;
      labels = name ∷ [];
    }
    ∷ scrape_samples results

-- The flag `anyErr` behind the loop.
unfoldable pub any_err : Results → Bool
any_err [] = false
any_err ((name, r) ∷ results) = failed r || any_err results

unfoldable pub up_sample : Results → Sample
unfolding any_err
up_sample results = gauge_of Desc.up (if any_err results then 0 else 1) []

-- `if r, ok := results[name]; ok && r.err == nil { if v, err := Parse(r.out); err == nil { … } }`
unfoldable pub on_parsed {ℓ} : {A : Type ℓ} → Result ParseError A → (A → List Sample) → List Sample
on_parsed (ok a) f = f a
on_parsed (err e) f = []

unfoldable pub on_result : Option ScrapeResult → (Text → List Sample) → List Sample
on_result none f = []
on_result (some r) f = if failed r then [] else f r.out

unfoldable pub info_samples : Info → List Sample
info_samples i =
    gauge_of Desc.info 1 (i.version ∷ [])
    ∷ gauge_of Desc.memory i.memory_usage []
    ∷ gauge_of Desc.space i.total_space (codes "total" ∷ [])
    ∷ gauge_of Desc.space i.available_space (codes "available" ∷ [])
    ∷ gauge_of Desc.space i.trash_space (codes "trash" ∷ [])
    ∷ gauge_of Desc.space i.reserved_space (codes "reserved" ∷ [])
    ∷ gauge_of Desc.objects i.all_nodes (codes "all" ∷ [])
    ∷ gauge_of Desc.objects i.dir_nodes (codes "dirs" ∷ [])
    ∷ gauge_of Desc.objects i.file_nodes (codes "files" ∷ [])
    ∷ gauge_of Desc.objects i.symlink_nodes (codes "symlinks" ∷ [])
    ∷ gauge_of Desc.objects i.trash_nodes (codes "trash" ∷ [])
    ∷ gauge_of Desc.objects i.reserved_nodes (codes "reserved" ∷ [])
    ∷ gauge_of Desc.chunks_total i.chunks []
    ∷ gauge_of Desc.chunk_copies i.chunk_copies []
    ∷ []

-- A disconnected chunkserver has its info metric alone (`continue`).
unfoldable pub chunkserver_samples : Chunkserver → List Sample
chunkserver_samples c =
    let at = c.address ∷ c.label ∷ [] in
    gauge_of Desc.cs_info 1 (c.address ∷ c.label ∷ c.version ∷ yes_or_no c.disconnected ∷ [])
    ∷ (if c.disconnected
        then []
        else gauge_of Desc.cs_chunks c.chunks at
          ∷ gauge_of Desc.cs_used_space c.used_space at
          ∷ gauge_of Desc.cs_total_space c.total_space at
          ∷ counter_of Desc.cs_errors c.errors at
          ∷ gauge_of Desc.cs_to_del_chunks c.to_del_chunks at
          ∷ gauge_of Desc.cs_to_del_used c.to_del_used_space at
          ∷ gauge_of Desc.cs_to_del_total c.to_del_total_space at
          ∷ [])

unfoldable pub ready_samples : ℕ → List Sample
ready_samples v = gauge_of Desc.ready_cs v [] ∷ []

unfoldable pub is_healthy : Metadataserver → Bool
is_healthy m =
    (text_eq m.personality (codes "master") && text_eq m.server_status (codes "running"))
    || (text_eq m.personality (codes "shadow") && text_eq m.server_status (codes "connected"))

unfoldable pub metadataserver_samples : Metadataserver → List Sample
unfolding is_healthy
metadataserver_samples m =
    gauge_of Desc.ms_info 1
      (m.ip ∷ decimal m.port ∷ m.hostname ∷ m.personality ∷ m.server_status ∷ m.version ∷ [])
    ∷ gauge_of Desc.ms_meta_ver m.metadata_version (m.ip ∷ m.personality ∷ [])
    ∷ gauge_of Desc.ms_status (one_if (is_healthy m)) (m.ip ∷ m.personality ∷ [])
    ∷ []

unfoldable pub availability_samples : ChunksAvailability → List Sample
availability_samples a =
    gauge_of Desc.ch_ava_safe a.safe (a.goal ∷ [])
    ∷ gauge_of Desc.ch_ava_endangered a.endangered (a.goal ∷ [])
    ∷ gauge_of Desc.ch_ava_lost a.lost (a.goal ∷ [])
    ∷ []

-- One sample for each counter, labelled by its index.
unfoldable pub count_samples : Desc → Text → ℕ → List ℕ → List Sample
count_samples d goal i [] = []
count_samples d goal i (n ∷ counts) =
    gauge_of d n (goal ∷ decimal i ∷ []) ∷ count_samples d goal (suc i) counts

unfoldable pub replication_samples : Desc → ChunksReplication → List Sample
unfolding count_samples
replication_samples d r = count_samples d r.goal 0 r.counts

unfoldable pub health_samples : ChunksHealthReport → List Sample
unfolding availability_samples replication_samples
health_samples r =
    flat_map availability_samples r.availability
    ++ (flat_map (replication_samples Desc.ch_rep) r.replication
        ++ flat_map (replication_samples Desc.ch_del) r.deletion)

pub data DiskFlag : Type 0 where
  to_delete damaged scanning : DiskFlag

-- The order in which the map of a disk's three flags is gone through.
pub data FlagOrder : Type 0 where
  flags_123 flags_132 flags_213 flags_231 flags_312 flags_321 : FlagOrder

unfoldable pub flags_in : FlagOrder → List DiskFlag
flags_in flags_123 = to_delete ∷ damaged ∷ scanning ∷ []
flags_in flags_132 = to_delete ∷ scanning ∷ damaged ∷ []
flags_in flags_213 = damaged ∷ to_delete ∷ scanning ∷ []
flags_in flags_231 = damaged ∷ scanning ∷ to_delete ∷ []
flags_in flags_312 = scanning ∷ to_delete ∷ damaged ∷ []
flags_in flags_321 = scanning ∷ damaged ∷ to_delete ∷ []

unfoldable pub flag_sample : Disk → DiskFlag → Sample
flag_sample d to_delete =
    gauge_of Desc.disk_flags (one_if d.to_delete)
      (d.chunkserver_address ∷ d.path ∷ codes "to_delete" ∷ [])
flag_sample d damaged =
    gauge_of Desc.disk_flags (one_if d.damaged)
      (d.chunkserver_address ∷ d.path ∷ codes "damaged" ∷ [])
flag_sample d scanning =
    gauge_of Desc.disk_flags (one_if d.scanning)
      (d.chunkserver_address ∷ d.path ∷ codes "scanning" ∷ [])

-- `flags` is the order of each disk's map of flags, which Go leaves open.
unfoldable pub disk_samples : (Disk → FlagOrder) → Disk → List Sample
unfolding flags_in flag_sample
disk_samples flags d =
    let at = d.chunkserver_address ∷ d.path ∷ [] in
    gauge_of Desc.disk_total d.total at
    ∷ gauge_of Desc.disk_used d.used at
    ∷ gauge_of Desc.disk_chunks d.chunks at
    ∷ map (flag_sample d) (flags_in (flags d))

unfoldable pub goal_samples : Goal → List Sample
goal_samples g = gauge_of Desc.goal_info 1 (decimal g.id ∷ g.name ∷ g.definition ∷ []) ∷ []

unfoldable pub mount_samples : Mount → List Sample
mount_samples m =
    gauge_of Desc.mount_info 1 (
      decimal m.session_id
      ∷ m.peer_ip
      ∷ m.info
      ∷ m.version
      ∷ m.path
      ∷ yes_or_no m.read_only
      ∷ yes_or_no m.map_all
      ∷ [])
    ∷ []

unfoldable pub mounts_samples : List Mount → List Sample
unfolding mount_samples
mounts_samples ms = gauge_of Desc.mounts_total (length ms) [] ∷ flat_map mount_samples ms
