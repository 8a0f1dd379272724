-- ===== src/Exporter/Collector/Healthy.antt =====
-- internal/exporter/collector.go and parser.go together: from a file system whose subcommands print
-- the documented layouts to the metrics of one scrape.
use mathlib.Core.List.{flat_map, Memᴰ}
use mathlib.Core.Path.{subst}
use leilfs_operator.Base.{
  sym, ℕ, ◌≤◌, Bool, List, [], ◌∷◌, ◌++◌, map, none, ◌≡◌, refl, ap, ◌∙◌, All, All-Memᴰ, Memᴰ_at, ok,
  Result,
}
use leilfs_operator.Text.{Text, codes, max_u64, decimal}
use leilfs_operator.Exporter.Parser.{ParseError}
use leilfs_operator.Exporter.Parser.Records.{
  Info, parse_info, Chunkserver, parse_chunkservers, Metadataserver, parse_metadataservers,
  parse_ready_chunkservers_count,
}
use leilfs_operator.Exporter.Parser.Storage.{
  ChunksHealthReport, parse_chunks_health, Disk, parse_disks, Goal, parse_goals, Mount,
  parse_mounts,
}
use leilfs_operator.Exporter.Parser.RoundTrip.{print_rows}
use leilfs_operator.Exporter.Parser.RoundTrip.Tables.{
  chunkserver_row, ChunkserverFits, parse_chunkservers-print_rows, metadataserver_row,
  MetadataserverFits, parse_metadataservers-print_rows, disk_row, DiskFits, parse_disks-print_rows,
  mount_row, MountFits, parse_mounts-print_rows,
}
use leilfs_operator.Exporter.Parser.RoundTrip.Single.{
  info_row, InfoFits, parse_info-print_rows, parse_ready_chunkservers_count-print_rows,
}
use leilfs_operator.Exporter.Parser.RoundTrip.Health.{
  HealthRow, health_columns, HealthFits, avas, reps, dels, parse_chunks_health-print_rows,
}
use leilfs_operator.Exporter.Parser.RoundTrip.Goals.{goal_row, GoalFits, parse_goals-print_rows}
use leilfs_operator.Exporter.Collector.{
  Desc, Sample, CollectorOptions, CmdSpec, spec, porcelain, specs, ScrapeResult, result_of, run_all,
}
use leilfs_operator.Exporter.Collector.Samples.{
  gauge_of, scrape_samples, up_sample, on_parsed, on_result, info_samples, chunkserver_samples,
  FlagOrder, ready_samples, metadataserver_samples, health_samples, disk_samples, goal_samples,
  mounts_samples,
}
use leilfs_operator.Exporter.Collector.Scrape.{
  info_block, chunkservers_block, ready_block, metadataservers_block, health_block, disks_block,
  goals_block, mounts_block, all_samples, collect_metrics,
}
use leilfs_operator.Exporter.Collector.Arity.{ValidLabels, Accepts, collect_metrics-valid}
use leilfs_operator.Exporter.Collector.Reports.{
  IsOrder, result_of-spec, Printed, on_result-Printed, any_err-none,
}

-- What there is to report.
pub record FileSystem : Type 0 where
  pub crlf : Bool
  pub info : Info
  pub chunkservers : List Chunkserver
  pub metadataservers : List Metadataserver
  pub health : List HealthRow
  pub disks : List Disk
  pub goals : List Goal
  pub mounts : List Mount
  pub ready : ℕ

pub record FileSystemFits (f : FileSystem) : Type 0 where
  pub info : InfoFits f.info
  pub chunkservers : All ChunkserverFits f.chunkservers
  pub metadataservers : All MetadataserverFits f.metadataservers
  pub health : All HealthFits f.health
  pub disks : All DiskFits f.disks
  pub goals : All GoalFits f.goals
  pub mounts : All MountFits f.mounts
  pub ready : f.ready ≤ max_u64

-- The runner prints the file system.
pub record Prints (run : List Text → ScrapeResult) (c : CollectorOptions) (f : FileSystem)
    : Type 0 where
  pub info :
      Printed (run (porcelain c (codes "info")).args) (print_rows f.crlf (info_row f.info ∷ []))
  pub chunkservers :
      Printed
        (run (porcelain c (codes "list-chunkservers")).args)
        (print_rows f.crlf (map chunkserver_row f.chunkservers))
  pub metadataservers :
      Printed
        (run (porcelain c (codes "list-metadataservers")).args)
        (print_rows f.crlf (map metadataserver_row f.metadataservers))
  pub health :
      Printed
        (run (porcelain c (codes "chunks-health")).args)
        (print_rows f.crlf (map health_columns f.health))
  pub disks :
      Printed
        (run (porcelain c (codes "list-disks")).args)
        (print_rows f.crlf (map disk_row f.disks))
  pub goals :
      Printed
        (run (porcelain c (codes "list-goals")).args)
        (print_rows f.crlf (map goal_row f.goals))
  pub mounts :
      Printed
        (run (porcelain c (codes "list-mounts")).args)
        (print_rows f.crlf (map mount_row f.mounts))
  pub ready :
      Printed
        (run
          (spec c (codes "ready-chunkservers-count") (codes "ready-chunkservers-count" ∷ [])).args)
        (print_rows f.crlf ((decimal f.ready ∷ []) ∷ []))
  pub all_ran : All (λ (s : CmdSpec). (run s.args).err ≡ none) (specs c)

abbrev pub health_report : FileSystem → ChunksHealthReport
health_report f = record {
  availability = avas f.health;
  replication = reps f.health;
  deletion = dels f.health;
}

-- The metrics of the file system behind the scrape-level ones.
pub file_system_samples : (Disk → FlagOrder) → FileSystem → List Sample
file_system_samples flags f =
    info_samples f.info
    ++ (flat_map chunkserver_samples f.chunkservers
        ++ (ready_samples f.ready
            ++ (flat_map metadataserver_samples f.metadataservers
                ++ (health_samples (health_report f)
                    ++ (flat_map (disk_samples flags) f.disks
                        ++ (flat_map goal_samples f.goals ++ mounts_samples f.mounts))))))

module _ (run : List Text → ScrapeResult) (c : CollectorOptions) (order : List CmdSpec)
    (o : IsOrder c order) where
  -- One block, from the subcommand's print to the parsed value.
  block :
      {A : Type 0} (s : CmdSpec) (text : Text) (parse : Text → Result ParseError A)
      (emit : A → List Sample) (a : A)
      → Memᴰ s (specs c)
      → Printed (run s.args) text
      → parse text ≡ ok a
      → on_result (result_of s.name (run_all run order)) (λ out. on_parsed (parse out) emit)
        ≡ emit a
  block s text parse emit a m printed parsed =
      ap (λ r. on_result r (λ out. on_parsed (parse out) emit)) (result_of-spec run c order s o m)
      ∙ (on_result-Printed (run s.args) text (λ out. on_parsed (parse out) emit) printed
          ∙ ap (λ r. on_parsed r emit) parsed
          ∙ (unfold on_parsed in refl))

  module _ (f : FileSystem) (fits : FileSystemFits f) (prints : Prints run c f) where
    info_block-Prints : info_block (run_all run order) ≡ info_samples f.info
    unfolding info_block specs
    info_block-Prints =
        block (porcelain c (codes "info")) _ parse_info info_samples _ (Memᴰ_at (specs c) 0 refl)
          prints.info (parse_info-print_rows f.crlf f.info fits.info)

    chunkservers_block-Prints :
        chunkservers_block (run_all run order) ≡ flat_map chunkserver_samples f.chunkservers
    unfolding chunkservers_block specs
    chunkservers_block-Prints =
        block (porcelain c (codes "list-chunkservers")) _ parse_chunkservers
          (flat_map chunkserver_samples) _ (Memᴰ_at (specs c) 1 refl) prints.chunkservers
          (parse_chunkservers-print_rows f.crlf f.chunkservers fits.chunkservers)

    metadataservers_block-Prints :
        metadataservers_block (run_all run order)
        ≡ flat_map metadataserver_samples f.metadataservers
    unfolding metadataservers_block specs
    metadataservers_block-Prints =
        block (porcelain c (codes "list-metadataservers")) _ parse_metadataservers
          (flat_map metadataserver_samples) _ (Memᴰ_at (specs c) 2 refl) prints.metadataservers
          (parse_metadataservers-print_rows f.crlf f.metadataservers fits.metadataservers)

    disks_block-Prints :
        (flags : Disk → FlagOrder)
        → disks_block flags (run_all run order) ≡ flat_map (disk_samples flags) f.disks
    unfolding disks_block specs
    disks_block-Prints flags =
        block (porcelain c (codes "list-disks")) _ parse_disks (flat_map (disk_samples flags)) _
          (Memᴰ_at (specs c) 5 refl) prints.disks (parse_disks-print_rows f.crlf f.disks fits.disks)

    goals_block-Prints : goals_block (run_all run order) ≡ flat_map goal_samples f.goals
    unfolding goals_block specs
    goals_block-Prints =
        block (porcelain c (codes "list-goals")) _ parse_goals (flat_map goal_samples) _
          (Memᴰ_at (specs c) 6 refl) prints.goals (parse_goals-print_rows f.crlf f.goals fits.goals)

    mounts_block-Prints : mounts_block (run_all run order) ≡ mounts_samples f.mounts
    unfolding mounts_block specs
    mounts_block-Prints =
        block (porcelain c (codes "list-mounts")) _ parse_mounts mounts_samples _
          (Memᴰ_at (specs c) 7 refl) prints.mounts
          (parse_mounts-print_rows f.crlf f.mounts fits.mounts)

    ready_block-Prints : ready_block (run_all run order) ≡ ready_samples f.ready
    unfolding ready_block specs
    ready_block-Prints =
        block (spec c (codes "ready-chunkservers-count") (codes "ready-chunkservers-count" ∷ [])) _
          parse_ready_chunkservers_count ready_samples _ (Memᴰ_at (specs c) 8 refl) prints.ready
          (parse_ready_chunkservers_count-print_rows f.crlf f.ready fits.ready)

    health_block-Prints : health_block (run_all run order) ≡ health_samples (health_report f)
    unfolding health_block specs
    health_block-Prints =
        block (porcelain c (codes "chunks-health")) _ parse_chunks_health health_samples _
          (Memᴰ_at (specs c) 4 refl) prints.health
          (parse_chunks_health-print_rows f.crlf f.health fits.health)

    up_sample-Prints : up_sample (run_all run order) ≡ gauge_of Desc.up 1 []
    unfolding up_sample
    up_sample-Prints = rw (
        any_err-none run order λ s m.
          All-Memᴰ (λ (t : CmdSpec). (run t.args).err ≡ none) (specs c) prints.all_ran (o.only s m))

    all_samples-Prints :
        (flags : Disk → FlagOrder)
        → all_samples flags (run_all run order)
          ≡ scrape_samples (run_all run order)
            ++ gauge_of Desc.up 1 [] ∷ file_system_samples flags f
    unfolding all_samples file_system_samples
    all_samples-Prints flags = rw (
      up_sample-Prints,
      info_block-Prints,
      chunkservers_block-Prints,
      ready_block-Prints,
      metadataservers_block-Prints,
      health_block-Prints,
      disks_block-Prints flags,
      goals_block-Prints,
      mounts_block-Prints,
    )

    -- If the runner prints a file system in the documented layouts, with no error, one scrape sends
    -- the two scrape-level metrics of each subcommand, `leilfs_fs_up` 1, and then exactly the metrics
    -- of that file system, in whatever order the map of results is gone through. The conditions are
    -- that the file system's texts are words and its counts fit in 64 bits, that the label values of
    -- these metrics are valid, and that MustNewConstMetric accepts a sample with one valid value for
    -- each variable label.
    pub collect_metrics-Prints :
        {E M : Type 0} (flags : Disk → FlagOrder) (valid : Text → Bool)
        (must_new : Sample → Result E M) (metric : Sample → M)
        → Accepts valid must_new metric
        → All (ValidLabels valid) (
            scrape_samples (run_all run order)
            ++ gauge_of Desc.up 1 [] ∷ file_system_samples flags f)
        → collect_metrics must_new run order flags
          ≡ ok (
              map metric (
                scrape_samples (run_all run order)
                ++ gauge_of Desc.up 1 [] ∷ file_system_samples flags f))
    collect_metrics-Prints flags valid must_new metric accepts good =
        let path = all_samples-Prints flags in
        collect_metrics-valid valid must_new metric run order flags accepts
          (subst (All (ValidLabels valid)) (sym path) good)
        ∙ ap (λ ss. ok (map metric ss)) path
