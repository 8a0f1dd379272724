-- ===== src/Exporter/Parser/RoundTrip/Health.antt =====
-- `chunks-health`: rows of three kinds in any order.
use mathlib.Core.List.{cons-ne-nil}
use leilfs_operator.Base.{
  ℕ, suc, Bool, List, [], ◌∷◌, ◌++◌, map, append-nil, append_assoc, some, ◌≡◌, refl, ap, All, ok,
  length, get_elem?, ltb, false, ◌∙◌, sym, ◌-◌, arith, length-append, length-map,
}
use leilfs_operator.Text.{Text, codes, is_space, text_eq, decimal, join}
use leilfs_operator.Text.Decimal.{parse_uint-decimal}
use leilfs_operator.Text.Fields.{IsWord, blank, fields-join}
use leilfs_operator.Exporter.Parser.Storage.{
  ChunksAvailability, ChunksReplication, ChunksHealthReport, uint_fields, no_report, health_line,
  health_lines, replication_of, parse_chunks_health,
}
use leilfs_operator.Exporter.Parser.RoundTrip.{IsRow, print_rows, non_empty_lines-print_rows}
use leilfs_operator.Exporter.Parser.RoundTrip.Tables.{IsU64, decimals-IsWord, reads}

pub data HealthRow : Type 0 where
  ava : ChunksAvailability → HealthRow
  rep : ChunksReplication → HealthRow
  del : ChunksReplication → HealthRow

abbrev pub ava_counts : ChunksAvailability → List ℕ
ava_counts a = a.safe ∷ a.endangered ∷ a.lost ∷ []

-- AVA goalName safe endangered lost, and REP|DEL goalName with one counter for each column.
abbrev pub health_columns : HealthRow → List Text
health_columns (ava a) = codes "AVA" ∷ a.goal ∷ map decimal (ava_counts a)
health_columns (rep r) = codes "REP" ∷ r.goal ∷ map decimal r.counts
health_columns (del r) = codes "DEL" ∷ r.goal ∷ map decimal r.counts

abbrev pub HealthFits : HealthRow → Type 0
HealthFits (ava a) = IsWord a.goal × All IsU64 (ava_counts a)
HealthFits (rep r) = IsWord r.goal × All IsU64 r.counts
HealthFits (del r) = IsWord r.goal × All IsU64 r.counts

-- The rows of one kind, in their order.
pub avas : List HealthRow → List ChunksAvailability
avas [] = []
avas (ava a ∷ rows) = a ∷ avas rows
avas (rep c ∷ rows) = avas rows
avas (del c ∷ rows) = avas rows

pub reps : List HealthRow → List ChunksReplication
reps [] = []
reps (ava a ∷ rows) = reps rows
reps (rep c ∷ rows) = c ∷ reps rows
reps (del c ∷ rows) = reps rows

pub dels : List HealthRow → List ChunksReplication
dels [] = []
dels (ava a ∷ rows) = dels rows
dels (rep c ∷ rows) = dels rows
dels (del c ∷ rows) = c ∷ dels rows

abbrev add_rows : ChunksHealthReport → List HealthRow → ChunksHealthReport
add_rows r rows = record {
  availability = r.availability ++ avas rows;
  replication = r.replication ++ reps rows;
  deletion = r.deletion ++ dels rows;
}

get_elem?-length :
    (pre : List Text) (s : Text) (post : List Text)
    → get_elem? (pre ++ s ∷ post) (length pre) ≡ some s
get_elem?-length [] s post = refl
get_elem?-length (w ∷ pre) s post = get_elem?-length pre s post

-- `f` holds the numbers behind `pre`.
uint_fields-decimals :
    (f pre : List Text) (i : ℕ) (ns done : List ℕ)
    → f ≡ pre ++ map decimal ns
    → i ≡ length pre
    → All IsU64 ns
    → uint_fields f i (length ns) done ≡ ok (done ++ ns)
unfolding uint_fields
uint_fields-decimals f pre i [] done ef e h = rw append-nil
uint_fields-decimals f pre i (n ∷ ns) done ef e (hn, hs) =
    let found : get_elem? f i ≡ some (decimal n) =
      rw (ef, e) (get_elem?-length pre (decimal n) (map decimal ns)) in
    rw found (
      rw (parse_uint-decimal n hn) (
        uint_fields-decimals f (pre ++ decimal n ∷ []) (suc i) ns (done ++ n ∷ [])
          (ef ∙ sym (append_assoc pre (decimal n ∷ []) (map decimal ns)))
          (omega (arith, length-append {0} pre (decimal n ∷ []))) hs
        ∙ ap ok (append_assoc done (n ∷ []) ns)))

health_columns-IsRow : (x : HealthRow) → HealthFits x → IsRow (health_columns x)
unfolding is_space
health_columns-IsRow (ava a) h =
    (cons-ne-nil _ _, (tag_word, (h.0, decimals-IsWord (ava_counts a))))
  where
    tag_word : IsWord (codes "AVA")
    tag_word = (cons-ne-nil _ _, (refl, (refl, (refl, tt))))
health_columns-IsRow (rep r) h = (cons-ne-nil _ _, (tag_word, (h.0, decimals-IsWord r.counts)))
  where
    tag_word : IsWord (codes "REP")
    tag_word = (cons-ne-nil _ _, (refl, (refl, (refl, tt))))
health_columns-IsRow (del r) h = (cons-ne-nil _ _, (tag_word, (h.0, decimals-IsWord r.counts)))
  where
    tag_word : IsWord (codes "DEL")
    tag_word = (cons-ne-nil _ _, (refl, (refl, (refl, tt))))

replication_of-columns :
    (tag : Text) (c : ChunksReplication)
    → All IsU64 c.counts
    → replication_of (tag ∷ c.goal ∷ map decimal c.counts) ≡ ok c
unfolding replication_of
replication_of-columns tag c h =
    let f : List Text = tag ∷ c.goal ∷ map decimal c.counts in
    let rounds : length f - 2 ≡ length c.counts =
      omega (arith, length-map {0, 0} decimal c.counts) in
    rw rounds (rw (uint_fields-decimals f (tag ∷ c.goal ∷ []) 2 c.counts [] refl refl h))

enough : (ws : List Text) → ltb (suc (suc (length ws))) 2 ≡ false
enough ws = ground arith

health_line-columns :
    (r : ChunksHealthReport) (x : HealthRow)
    → HealthFits x
    → health_line r (join blank (health_columns x)) ≡ ok (add_rows r (x ∷ []))
unfolding health_line avas reps dels text_eq
health_line-columns r (ava a) h =
    let (p0, (p1, (p2, _))) = reads (ava_counts a) h.1 in
    rw (fields-join (health_columns (ava a)) (health_columns-IsRow (ava a) h).1)
      (simp (p0, p1, p2, append-nil))
health_line-columns r (rep c) h =
    rw (fields-join (health_columns (rep c)) (health_columns-IsRow (rep c) h).1) (
      rw (enough (map decimal c.counts))
        (rw (replication_of-columns (codes "REP") c h.1) (simp append-nil)))
health_line-columns r (del c) h =
    rw (fields-join (health_columns (del c)) (health_columns-IsRow (del c) h).1) (
      rw (enough (map decimal c.counts))
        (rw (replication_of-columns (codes "DEL") c h.1) (simp append-nil)))

add_rows_cons :
    (r : ChunksHealthReport) (x : HealthRow) (rows : List HealthRow)
    → add_rows (add_rows r (x ∷ [])) rows ≡ add_rows r (x ∷ rows)
unfolding avas reps dels
add_rows_cons r (ava a) rows = simp (append_assoc, append-nil)
add_rows_cons r (rep c) rows = simp (append_assoc, append-nil)
add_rows_cons r (del c) rows = simp (append_assoc, append-nil)

health_lines-columns :
    (r : ChunksHealthReport) (rows : List HealthRow)
    → All HealthFits rows
    → health_lines r (map (join blank) (map health_columns rows)) ≡ ok (add_rows r rows)
unfolding health_lines
health_lines-columns r [] h = unfold avas reps dels in simp append-nil
health_lines-columns r (x ∷ rows) (hx, hs) =
    rw (health_line-columns r x hx)
      (health_lines-columns (add_rows r (x ∷ [])) rows hs ∙ ap ok (add_rows_cons r x rows))

All-columns : (rows : List HealthRow) → All HealthFits rows → All IsRow (map health_columns rows)
All-columns [] h = tt
All-columns (x ∷ rows) (hx, hs) = (health_columns-IsRow x hx, All-columns rows hs)

-- Availability, replication and deletion rows in any order, with any number of counters, are read
-- into the three lists of the report, each in the rows' order, if the goals' names are words and
-- the counts fit in 64 bits.
pub parse_chunks_health-print_rows :
    (crlf : Bool) (rows : List HealthRow)
    → All HealthFits rows
    → parse_chunks_health (print_rows crlf (map health_columns rows))
      ≡ ok (record { availability = avas rows; replication = reps rows; deletion = dels rows })
unfolding parse_chunks_health
parse_chunks_health-print_rows crlf rows h =
    rw (non_empty_lines-print_rows crlf (map health_columns rows) (All-columns rows h))
      (health_lines-columns no_report rows h)
