-- ===== src/Tests/Outputs.antt =====
-- The parsers on what one small file system prints.
use leilfs_operator.Base.{true, false, [], ◌∷◌, map, ◌≡◌, ◌≢◌, refl, arith, All, ok, err}
use leilfs_operator.Text.{
  codes, is_space, text_eq, trim_right, trim_space, trim_left, split_lines, fields, decimal, join,
}
use leilfs_operator.Exporter.Parser.{no_field, too_few_fields, first_non_empty_line}
use leilfs_operator.Exporter.Parser.Records.{
  parse_info, parse_chunkservers, parse_metadataservers, parse_metadataserver_status,
  parse_ready_chunkservers_count,
}
use leilfs_operator.Exporter.Parser.Storage.{
  parse_chunks_health, parse_disks, parse_goals, parse_mounts,
}
use leilfs_operator.Exporter.Parser.Safety.Parsers.{parsers_never_panic}
use leilfs_operator.Exporter.Parser.RoundTrip.{print_tabs, print_rows}
use leilfs_operator.Exporter.Parser.RoundTrip.Tables.{
  ChunkserverFits, chunkserver_row, chunkserver_counts, parse_chunkservers-print_rows,
  MetadataserverFits, metadataserver_row, parse_metadataservers-print_rows, DiskFits, disk_row,
  parse_disks-print_rows, MountFits, mount_row, mount_counts, parse_mounts-print_rows,
}
use leilfs_operator.Exporter.Parser.RoundTrip.Single.{
  InfoFits, info_row, info_counts, parse_info-print_rows, metadataserver_status_row,
  parse_metadataserver_status-print_tabs, parse_ready_chunkservers_count-print_rows,
}
use leilfs_operator.Exporter.Parser.RoundTrip.Health.{
  HealthFits, health_columns, avas, reps, dels, parse_chunks_health-print_rows,
}
use leilfs_operator.Exporter.Parser.RoundTrip.Goals.{GoalFits, goal_row, parse_goals-print_rows}
use leilfs_operator.Tests.Values.{
  word, is_word, fit, all_fit, info, gone, active, shadow_status, two_rows, disk, two_copies, mount,
}

pub info-Fits : InfoFits info
unfolding is_word is_space all_fit
info-Fits = record { version_word = word _ refl; counts = fit (info_counts info) refl }

pub gone-Fits : ChunkserverFits gone
unfolding is_word is_space all_fit text_eq
gone-Fits = record {
  texts = (word _ refl, (word _ refl, (word _ refl, tt)));
  counts = fit (chunkserver_counts gone) refl;
  disconnected = refl;
}

pub active-Fits : MetadataserverFits active
unfolding is_word is_space all_fit
active-Fits = record {
  texts = (word _ refl, (word _ refl, (word _ refl, (word _ refl, (word _ refl, tt)))));
  counts = fit (9421 ∷ 77 ∷ []) refl;
}

pub two_rows-Fits : All HealthFits two_rows
unfolding is_word is_space all_fit
two_rows-Fits =
    ((word _ refl, fit (4 ∷ 1 ∷ 0 ∷ []) refl), ((word _ refl, fit (4 ∷ 1 ∷ 0 ∷ []) refl), tt))

pub disk-Fits : DiskFits disk
unfolding is_word is_space all_fit
disk-Fits = record {
  texts = (word _ refl, (word _ refl, tt));
  counts = fit (6 ∷ 1700000000 ∷ 500 ∷ 20 ∷ 4 ∷ []) refl;
}

pub two_copies-Fits : GoalFits two_copies
unfolding is_word is_space all_fit fields join
two_copies-Fits = record {
  id_fits = omega arith;
  name_word = word _ refl;
  definition_words = ((λ e. absurd (cc)), (word _ refl, (word _ refl, tt)));
  definition_joined = refl;
}

pub mount-Fits : MountFits mount
unfolding is_word is_space all_fit
mount-Fits = record {
  texts = (word _ refl, (word _ refl, (word _ refl, (word _ refl, tt))));
  counts = fit (mount_counts mount) refl;
}

parse_info-print_rows_example : parse_info (print_rows true (info_row info ∷ [])) ≡ ok info
parse_info-print_rows_example = parse_info-print_rows true info info-Fits

parse_chunkservers-print_rows_example :
    parse_chunkservers (print_rows false (map chunkserver_row (gone ∷ gone ∷ [])))
    ≡ ok (gone ∷ gone ∷ [])
parse_chunkservers-print_rows_example =
    parse_chunkservers-print_rows false (gone ∷ gone ∷ []) (gone-Fits, (gone-Fits, tt))

parse_metadataservers-print_rows_example :
    parse_metadataservers (print_rows false (map metadataserver_row (active ∷ [])))
    ≡ ok (active ∷ [])
parse_metadataservers-print_rows_example =
    parse_metadataservers-print_rows false (active ∷ []) (active-Fits, tt)

parse_metadataserver_status-print_tabs_example :
    parse_metadataserver_status (print_tabs false (metadataserver_status_row shadow_status))
    ≡ ok shadow_status
unfolding is_word is_space
parse_metadataserver_status-print_tabs_example =
    parse_metadataserver_status-print_tabs false shadow_status (word _ refl) (word _ refl)
      (omega arith)

parse_ready_chunkservers_count-print_rows_example :
    parse_ready_chunkservers_count (print_rows true ((decimal 3 ∷ []) ∷ [])) ≡ ok 3
parse_ready_chunkservers_count-print_rows_example =
    parse_ready_chunkservers_count-print_rows true 3 (omega arith)

parse_chunks_health-print_rows_example :
    parse_chunks_health (print_rows false (map health_columns two_rows))
    ≡ ok (record {
      availability = avas two_rows;
      replication = reps two_rows;
      deletion = dels two_rows;
    })
parse_chunks_health-print_rows_example = parse_chunks_health-print_rows false two_rows two_rows-Fits

parse_disks-print_rows_example :
    parse_disks (print_rows false (map disk_row (disk ∷ []))) ≡ ok (disk ∷ [])
parse_disks-print_rows_example = parse_disks-print_rows false (disk ∷ []) (disk-Fits, tt)

parse_goals-print_rows_example :
    parse_goals (print_rows true (map goal_row (two_copies ∷ []))) ≡ ok (two_copies ∷ [])
parse_goals-print_rows_example = parse_goals-print_rows true (two_copies ∷ []) (two_copies-Fits, tt)

parse_mounts-print_rows_example :
    parse_mounts (print_rows false (map mount_row (mount ∷ []))) ≡ ok (mount ∷ [])
parse_mounts-print_rows_example = parse_mounts-print_rows false (mount ∷ []) (mount-Fits, tt)

parsers_never_panic_example :
    (parse_info (codes "5.4.0 1") ≢ err (no_field 2))
    × (parse_chunkservers (codes "5.4.0 1") ≢ err (no_field 2))
    × (parse_metadataservers (codes "5.4.0 1") ≢ err (no_field 2))
    × (parse_metadataserver_status (codes "5.4.0 1") ≢ err (no_field 2))
    × (parse_chunks_health (codes "5.4.0 1") ≢ err (no_field 2))
    × (parse_disks (codes "5.4.0 1") ≢ err (no_field 2))
    × (parse_goals (codes "5.4.0 1") ≢ err (no_field 2))
    × (parse_mounts (codes "5.4.0 1") ≢ err (no_field 2))
    × (parse_ready_chunkservers_count (codes "5.4.0 1") ≢ err (no_field 2))
parsers_never_panic_example = parsers_never_panic (codes "5.4.0 1") 2

short_line : parse_info (codes "5.4.0 1") ≡ err (too_few_fields 15 2 (codes "5.4.0 1"))
unfolding parse_info first_non_empty_line is_space trim_right trim_space trim_left split_lines
    fields
short_line = refl
