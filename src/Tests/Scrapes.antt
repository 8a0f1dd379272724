-- ===== src/Tests/Scrapes.antt =====
-- One scrape of a small file system.
use mathlib.Core.List.{Memᴰ}
use leilfs_operator.Base.{
  Bool, true, false, ◌&&◌, ltb, ◌⊎◌, List, [], ◌∷◌, ◌++◌, map, some, none, ◌≡◌, ◌↔◌, refl, arith,
  All, Result, ok, err, if◌then◌else◌, length, ◌==◌, ==_iff,
}
use leilfs_operator.Text.{Text, codes, text_eq, decimal}
use leilfs_operator.Exporter.Parser.RoundTrip.{print_rows}
use leilfs_operator.Exporter.Parser.RoundTrip.Tables.{
  chunkserver_row, metadataserver_row, disk_row, mount_row,
}
use leilfs_operator.Exporter.Parser.RoundTrip.Single.{info_row}
use leilfs_operator.Exporter.Parser.RoundTrip.Health.{health_columns}
use leilfs_operator.Exporter.Parser.RoundTrip.Goals.{goal_row}
use leilfs_operator.Exporter.Parser.Storage.{Disk}
use leilfs_operator.Exporter.Collector.{
  CollectorOptions, ScrapeResult, Sample, CmdSpec, specs, Desc, of_uint, run_all, variable_labels,
}
use leilfs_operator.Exporter.Collector.Samples.{
  FlagOrder, flags_123, gauge_of, scrape_samples, up_sample,
}
use leilfs_operator.Exporter.Collector.Scrape.{all_samples, collect_metrics}
use leilfs_operator.Exporter.Collector.Arity.{
  HasArity, ValidLabels, Accepts, HasInvalid, collect_metrics-total,
}
use leilfs_operator.Exporter.Collector.Reports.{IsOrder, up_iff_no_error}
use leilfs_operator.Exporter.Collector.Healthy.{
  FileSystem, FileSystemFits, Prints, file_system_samples, collect_metrics-Prints,
}
use leilfs_operator.Tests.Values.{info, gone, active, two_rows, disk, two_copies, mount}
use leilfs_operator.Tests.Outputs.{
  info-Fits, gone-Fits, active-Fits, two_rows-Fits, disk-Fits, two_copies-Fits, mount-Fits,
}

abbrev options : CollectorOptions
options = record { master_host = codes "m"; master_port = codes "9421"; timeout = 3 }

abbrev small : FileSystem
small = record {
  crlf = false;
  info = info;
  chunkservers = gone ∷ [];
  metadataservers = active ∷ [];
  health = two_rows;
  disks = disk ∷ [];
  goals = two_copies ∷ [];
  mounts = mount ∷ [];
  ready = 0;
}

small-Fits : FileSystemFits small
small-Fits = record {
  info = info-Fits;
  chunkservers = (gone-Fits, tt);
  metadataservers = (active-Fits, tt);
  health = two_rows-Fits;
  disks = (disk-Fits, tt);
  goals = (two_copies-Fits, tt);
  mounts = (mount-Fits, tt);
  ready = omega arith;
}

-- What the runner prints for a subcommand.
unfoldable printed : Text → Text
printed name =
    if text_eq name (codes "info")
    then print_rows false (info_row info ∷ [])
    else if text_eq name (codes "list-chunkservers")
    then print_rows false (map chunkserver_row (gone ∷ []))
    else if text_eq name (codes "list-metadataservers")
    then print_rows false (map metadataserver_row (active ∷ []))
    else if text_eq name (codes "chunks-health")
    then print_rows false (map health_columns two_rows)
    else if text_eq name (codes "list-disks")
    then print_rows false (map disk_row (disk ∷ []))
    else if text_eq name (codes "list-goals")
    then print_rows false (map goal_row (two_copies ∷ []))
    else if text_eq name (codes "list-mounts")
    then print_rows false (map mount_row (mount ∷ []))
    else print_rows false ((decimal 0 ∷ []) ∷ [])

unfoldable runner : List Text → ScrapeResult
runner [] = record { out = []; err = some (codes "usage"); duration = 0 }
runner (name ∷ args) = record { out = printed name; err = none; duration = 7 }

small-Prints : Prints runner options small
unfolding runner printed text_eq specs
small-Prints = record {
  info = (refl, refl);
  chunkservers = (refl, refl);
  metadataservers = (refl, refl);
  health = (refl, refl);
  disks = (refl, refl);
  goals = (refl, refl);
  mounts = (refl, refl);
  ready = (refl, refl);
  all_ran = (refl, (refl, (refl, (refl, (refl, (refl, (refl, (refl, (refl, tt)))))))));
}

specs-IsOrder : IsOrder options (specs options)
specs-IsOrder = record { only = λ s m. m; every = λ s m. m }

-- Every code point is one, and not the mark of a byte that is none.
unfoldable is_utf8 : Text → Bool
is_utf8 [] = true
is_utf8 (c ∷ s) = ltb c 0x110000 && is_utf8 s

unfoldable all_utf8 : List Text → Bool
all_utf8 [] = true
all_utf8 (v ∷ vs) = is_utf8 v && all_utf8 vs

-- The order of the literal.
abbrev flags : Disk → FlagOrder
flags d = flags_123

-- A MustNewConstMetric that checks the label values and their number, and panics with the descriptor.
unfoldable checked_metric : Sample → Result Desc Sample
unfolding is_utf8 all_utf8
checked_metric s =
    if length s.labels == length (variable_labels s.desc)
    then if all_utf8 s.labels then ok s else err s.desc
    else err s.desc

All-all_utf8 : (vs : List Text) → All (λ v. is_utf8 v ≡ true) vs → all_utf8 vs ≡ true
unfolding all_utf8
All-all_utf8 [] h = refl
All-all_utf8 (v ∷ vs) (h, hs) = rw (h, All-all_utf8 vs hs)

checked_metric-Accepts : Accepts is_utf8 checked_metric (λ s. s)
unfolding checked_metric
checked_metric-Accepts s h v =
    rw ((==_iff (length s.labels) (length (variable_labels s.desc))).1 h, All-all_utf8 s.labels v)

-- One that checks the number of label values only, where every label value is valid.
unfoldable arity_checked : Sample → Result Desc Sample
arity_checked s = if length s.labels == length (variable_labels s.desc) then ok s else err s.desc

arity_checked-Accepts : Accepts (λ v. true) arity_checked (λ s. s)
unfolding arity_checked
arity_checked-Accepts s h v = rw ((==_iff (length s.labels) (length (variable_labels s.desc))).1 h)

all_valid : (ss : List Sample) → All (ValidLabels (λ v. true)) ss
all_valid [] = tt
all_valid (s ∷ ss) = (each s.labels, all_valid ss)
  where
    each : (vs : List Text) → All (λ v. true ≡ true) vs
    each [] = tt
    each (v ∷ vs) = (refl, each vs)

collect_metrics-total_example :
    All HasArity (all_samples flags (run_all runner (specs options)))
    × ((collect_metrics checked_metric runner (specs options) flags
          ≡ ok (map (λ s. s) (all_samples flags (run_all runner (specs options)))))
        ⊎ HasInvalid is_utf8 (all_samples flags (run_all runner (specs options))))
collect_metrics-total_example =
    collect_metrics-total is_utf8 checked_metric (λ s. s) runner (specs options) flags
      checked_metric-Accepts

up_iff_no_error_example :
    ((up_sample (run_all runner (specs options))).value ≡ of_uint 1)
    ↔ ((s : CmdSpec) → Memᴰ s (specs options) → (runner s.args).err ≡ none)
up_iff_no_error_example = up_iff_no_error runner options (specs options) specs-IsOrder

collect_metrics-Prints_example :
    collect_metrics arity_checked runner (specs options) flags
    ≡ ok (
        map
          (λ s. s)
          (scrape_samples (run_all runner (specs options))
            ++ gauge_of Desc.up 1 [] ∷ file_system_samples flags small))
collect_metrics-Prints_example =
    collect_metrics-Prints runner options (specs options) specs-IsOrder small small-Fits
      small-Prints flags (λ v. true) arity_checked (λ s. s) arity_checked-Accepts (all_valid _)
