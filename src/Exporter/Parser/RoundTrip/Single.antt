-- ===== src/Exporter/Parser/RoundTrip/Single.antt =====
-- The subcommands that print one line.
use mathlib.Core.List.{cons-ne-nil}
use leilfs_operator.Base.{ℕ, Bool, List, [], ◌∷◌, map, ◌≡◌, refl, All, ok, ◌≤◌, append-nil, false}
use leilfs_operator.Text.{
  Text, max_u64, decimal, join, trim_space, trim_right, trim_left, is_space, cons_unless, join_rest,
}
use leilfs_operator.Text.Decimal.{parse_uint-decimal, decimal-IsWord}
use leilfs_operator.Text.Fields.{IsWord, blank, fields-join, fields-join_space}
use leilfs_operator.Exporter.Parser.Records.{
  Info, info_of, only_line, parse_info, MetadataserverStatus, parse_metadataserver_status,
  parse_ready_chunkservers_count,
}
use leilfs_operator.Exporter.Parser.RoundTrip.{
  IsRow, print_rows, first_non_empty_line-print_rows, row-ne-nil, tab, print_tabs,
  first_non_empty_line-print_tabs,
}
use leilfs_operator.Exporter.Parser.RoundTrip.Tables.{IsU64, decimals-IsWord, reads}

only_line-print_rows :
    (crlf : Bool) (ws : List Text)
    → IsRow ws
    → only_line (print_rows crlf (ws ∷ [])) ≡ ok (join blank ws)
unfolding only_line
only_line-print_rows crlf ws h =
    rw (first_non_empty_line-print_rows crlf ws h) (rw (row-ne-nil blank ws h))

only_line-print_tabs :
    (crlf : Bool) (ws : List Text) → IsRow ws → only_line (print_tabs crlf ws) ≡ ok (join tab ws)
unfolding only_line
only_line-print_tabs crlf ws h =
    rw (first_non_empty_line-print_tabs crlf ws h) (rw (row-ne-nil tab ws h))

abbrev pub info_counts : Info → List ℕ
info_counts i =
    i.memory_usage ∷ i.total_space ∷ i.available_space ∷ i.trash_space ∷ i.trash_nodes
    ∷ i.reserved_space ∷ i.reserved_nodes ∷ i.all_nodes ∷ i.dir_nodes ∷ i.file_nodes
    ∷ i.symlink_nodes ∷ i.chunks ∷ i.chunk_copies ∷ i.regular_copies ∷ []

-- version memoryUsage totalSpace availableSpace trashSpace trashNodes reservedSpace reservedNodes
-- allNodes dirNodes fileNodes symlinkNodes chunks chunkCopies regularCopies
abbrev pub info_row : Info → List Text
info_row i = i.version ∷ map decimal (info_counts i)

pub record InfoFits (i : Info) : Type 0 where
  pub version_word : IsWord i.version
  pub counts : All IsU64 (info_counts i)

info_of-row : (i : Info) → InfoFits i → info_of (info_row i) ≡ ok i
unfolding info_of
info_of-row i h =
    let (p0, (p1, (p2, (p3, (p4, (p5, (p6, (p7, (p8, (p9, (p10, (p11, (p12, (p13, _)))))))))))))) =
      reads (info_counts i) h.counts in
    simp (p0, p1, p2, p3, p4, p5, p6, p7, p8, p9, p10, p11, p12, p13)

-- The `info` line printed in the documented layout is read back as it is, if the version is a word
-- and the counts fit in 64 bits.
pub parse_info-print_rows :
    (crlf : Bool) (i : Info) → InfoFits i → parse_info (print_rows crlf (info_row i ∷ [])) ≡ ok i
unfolding parse_info
parse_info-print_rows crlf i h =
    let words : All IsWord (info_row i) = (h.version_word, decimals-IsWord (info_counts i)) in
    rw (only_line-print_rows crlf (info_row i) (cons-ne-nil _ _, words))
      (rw (fields-join (info_row i) words) (info_of-row i h))

-- personality\tserverStatus\tmetadataVersion
abbrev pub metadataserver_status_row : MetadataserverStatus → List Text
metadataserver_status_row s = s.personality ∷ s.server_status ∷ decimal s.metadata_version ∷ []

-- The status of one metadata server printed in the documented layout, three columns with a tab between
-- two of them, is read back as it is, if its two texts are words and its metadata version fits in 64
-- bits.
pub parse_metadataserver_status-print_tabs :
    (crlf : Bool) (s : MetadataserverStatus)
    → IsWord s.personality
    → IsWord s.server_status
    → s.metadata_version ≤ max_u64
    → parse_metadataserver_status (print_tabs crlf (metadataserver_status_row s)) ≡ ok s
unfolding parse_metadataserver_status
parse_metadataserver_status-print_tabs crlf s hp hs hv =
    let words : All IsWord (metadataserver_status_row s) =
      (hp, (hs, (decimal-IsWord s.metadata_version, tt))) in
    rw (only_line-print_tabs crlf (metadataserver_status_row s) (cons-ne-nil _ _, words)) (
      rw (fields-join_space 9 (metadataserver_status_row s) (unfold is_space in refl) words)
        (rw (parse_uint-decimal s.metadata_version hv)))

trim_right-ink : (w : Text) → All (λ c. is_space c ≡ false) w → trim_right is_space w ≡ w
unfolding trim_right
trim_right-ink [] h = refl
trim_right-ink (c ∷ w) (hc, hw) = rw (trim_right-ink w hw) (cons_unless-ink c w hc)
  where
    cons_unless-ink : (c : ℕ) (w : Text) → is_space c ≡ false → cons_unless is_space c w ≡ c ∷ w
    cons_unless-ink c [] h = rw h
    cons_unless-ink c (d ∷ w) h = refl

trim_space-ink : (w : Text) → All (λ c. is_space c ≡ false) w → trim_space w ≡ w
unfolding trim_space trim_left
trim_space-ink [] h = unfold trim_right in refl
trim_space-ink (c ∷ w) h = rw h.0 (trim_right-ink (c ∷ w) h)

-- The bare count of ready chunkservers, printed in decimal, is read back if it fits in 64 bits.
pub parse_ready_chunkservers_count-print_rows :
    (crlf : Bool) (n : ℕ)
    → n ≤ max_u64
    → parse_ready_chunkservers_count (print_rows crlf ((decimal n ∷ []) ∷ [])) ≡ ok n
unfolding parse_ready_chunkservers_count
parse_ready_chunkservers_count-print_rows crlf n h =
    rw (only_line-print_rows crlf (decimal n ∷ []) (cons-ne-nil _ _, (decimal-IsWord n, tt))) (
      rw (
        one_word (decimal n),
        trim_space-ink (decimal n) (decimal-IsWord n).1,
        parse_uint-decimal n h,
      ))
  where
    one_word : (w : Text) → join blank (w ∷ []) ≡ w
    one_word w = unfold join join_rest in append-nil w
