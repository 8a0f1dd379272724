-- ===== src/Exporter.antt =====
-- internal/exporter: the parsers of `saunafs-admin` output and the collector that emits metrics.
pub mod Parser
pub mod Collector
