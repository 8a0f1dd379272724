-- ===== src/Exporter/Collector/Scrape.antt =====
-- internal/exporter/collector.go: Collect.
use leilfs_operator.Base.{List, [], ◌∷◌, ◌++◌, Result, collect}
use mathlib.Core.List.{flat_map}
use leilfs_operator.Text.{Text, codes}
use leilfs_operator.Exporter.Parser.Records.{
  parse_info, parse_chunkservers, parse_metadataservers, parse_ready_chunkservers_count,
}
use leilfs_operator.Exporter.Parser.Storage.{
  Disk, parse_chunks_health, parse_disks, parse_goals, parse_mounts,
}
use leilfs_operator.Exporter.Collector.{CmdSpec, Sample, ScrapeResult, Results, result_of, run_all}
use leilfs_operator.Exporter.Collector.Samples.{
  FlagOrder, scrape_samples, up_sample, on_parsed, on_result, info_samples, chunkserver_samples,
  ready_samples, metadataserver_samples, health_samples, disk_samples, goal_samples, mounts_samples,
}

-- What the blocks behind the scrape-level metrics emit, in their order.
unfoldable pub info_block : Results → List Sample
info_block rs =
    on_result (result_of (codes "info") rs) λ out. on_parsed (parse_info out) info_samples

unfoldable pub chunkservers_block : Results → List Sample
chunkservers_block rs =
    on_result (result_of (codes "list-chunkservers") rs)
      λ out. on_parsed (parse_chunkservers out) (flat_map chunkserver_samples)

unfoldable pub ready_block : Results → List Sample
ready_block rs =
    on_result (result_of (codes "ready-chunkservers-count") rs)
      λ out. on_parsed (parse_ready_chunkservers_count out) ready_samples

unfoldable pub metadataservers_block : Results → List Sample
metadataservers_block rs =
    on_result (result_of (codes "list-metadataservers") rs)
      λ out. on_parsed (parse_metadataservers out) (flat_map metadataserver_samples)

unfoldable pub health_block : Results → List Sample
health_block rs =
    on_result (result_of (codes "chunks-health") rs)
      λ out. on_parsed (parse_chunks_health out) health_samples

unfoldable pub disks_block : (Disk → FlagOrder) → Results → List Sample
disks_block flags rs =
    on_result (result_of (codes "list-disks") rs)
      λ out. on_parsed (parse_disks out) (flat_map (disk_samples flags))

unfoldable pub goals_block : Results → List Sample
goals_block rs =
    on_result (result_of (codes "list-goals") rs)
      λ out. on_parsed (parse_goals out) (flat_map goal_samples)

unfoldable pub mounts_block : Results → List Sample
mounts_block rs =
    on_result (result_of (codes "list-mounts") rs)
      λ out. on_parsed (parse_mounts out) mounts_samples

unfoldable pub all_samples : (Disk → FlagOrder) → Results → List Sample
all_samples flags rs =
    scrape_samples rs
    ++ (up_sample rs
        ∷ (info_block rs
            ++ (chunkservers_block rs
                ++ (ready_block rs
                    ++ (metadataservers_block rs
                        ++ (health_block rs
                            ++ (disks_block flags rs ++ (goals_block rs ++ mounts_block rs))))))))

-- The metrics sent to the channel, or the panic that stops the scrape. `must_new` is
-- prometheus.MustNewConstMetric, and `order` is the order in which the map of results is gone
-- through; `flags` is that of each disk's map of flags.
unfoldable pub collect_metrics :
    {E M : Type 0}
    → (Sample → Result E M)
    → (List Text → ScrapeResult)
    → List CmdSpec
    → (Disk → FlagOrder)
    → Result E (List M)
unfolding collect all_samples
collect_metrics must_new run order flags =
    collect must_new [] (all_samples flags (run_all run order))
