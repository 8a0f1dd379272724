-- ===== src/Kubectl/Goals.antt =====
-- cmd/kubectl-leilfs/cmd/goals.go: the rows and the lines that `goals` prints, and
-- cmd/kubectl-leilfs/cmd/topology.go: the summary of a chunk server's mounts. The rest of the walks
-- through an unstructured object is from status.go.
use leilfs_operator.Base.{
  ℕ, ◌+◌, ◌-◌, ◌==◌, Bool, false, List, [], ◌∷◌, ◌++◌, Option, none, some, ltb, replicate,
  if◌then◌else◌,
}
use leilfs_operator.Base.Int.{ℤ, pos, negsuc, is_zero_ℤ}
use leilfs_operator.Text.{Text, codes, is_empty, join}
use leilfs_operator.Text.Fields.{blank}
use leilfs_operator.Controller.Goals.{show_ℤ}
use leilfs_operator.Kubectl.{
  Value, null, text, bool, int, float, object, array, Fields, Values, no_values, value, field_of,
  walk, as_text, as_values, extract_int64,
}

abbrev as_bool : Option Value → Bool
as_bool none = false
as_bool (some null) = false
as_bool (some (text s)) = false
as_bool (some (bool b)) = b
as_bool (some (int n)) = false
as_bool (some (float n)) = false
as_bool (some (object m)) = false
as_bool (some (array vs)) = false

unfoldable pub extract_bool : Fields → List Text → Bool
unfolding walk
extract_bool obj keys = as_bool (walk keys (object obj))

unfoldable pub extract_slice : Fields → List Text → Values
unfolding walk
extract_slice obj keys = as_values (walk keys (object obj))

unfoldable pub extract_slice_raw : Fields → Text → Values
unfolding field_of
extract_slice_raw obj key = as_values (some (field_of key obj))

unfoldable pub string_val : Value → Text
string_val v = elim (as_text (some v)) [ none ↦ [] | some s ↦ s ]

abbrev pub enabled_str : Bool → Text
enabled_str v = if v then codes "enabled" else codes "disabled"

abbrev as_fields : Value → Option Fields
as_fields null = none
as_fields (text s) = none
as_fields (bool b) = none
as_fields (int n) = none
as_fields (float n) = none
as_fields (object m) = some m
as_fields (array vs) = none

abbrev pub plural_suffix : ℤ → Text → Text → Text
plural_suffix (pos n) singular plural = if n == 1 then singular else plural
plural_suffix (negsuc n) singular plural = plural

-- The copies that are shown: an absent or zero replication counts as one.
unfoldable pub shown_copies : Fields → ℤ
unfolding extract_int64
shown_copies goal =
    let rep = extract_int64 goal (codes "replication" ∷ []) in if is_zero_ℤ rep then pos 1 else rep

abbrev sum_ℤ : ℤ → ℤ → ℤ
sum_ℤ (pos a) (pos b) = pos (a + b)
sum_ℤ (pos a) (negsuc b) = if ltb b a then pos (a - (b + 1)) else negsuc (b - a)
sum_ℤ (negsuc a) (pos b) = if ltb a b then pos (b - (a + 1)) else negsuc (a - b)
sum_ℤ (negsuc a) (negsuc b) = negsuc (a + b + 1)

pub record GoalRow : Type 0 where
  pub id : ℤ
  pub name : Text
  pub kind : Text
  pub config : Text
  pub default_text : Text

abbrev ec_config : ℤ → ℤ → Text
ec_config dp pp =
    codes "ec("
    ++ (show_ℤ dp
        ++ (codes ","
            ++ (show_ℤ pp
                ++ (codes ")  ["
                    ++ (show_ℤ dp
                        ++ (codes " data + "
                            ++ (show_ℤ pp
                                ++ (codes " parity, min "
                                    ++ (show_ℤ (sum_ℤ dp pp) ++ codes " chunk servers]")))))))))

abbrev copies_config : ℤ → Text
copies_config rep = show_ℤ rep ++ (codes " cop" ++ plural_suffix rep (codes "y") (codes "ies"))

-- One row of the table.
unfoldable pub goal_row : Fields → GoalRow
unfolding extract_int64 extract_bool string_val shown_copies field_of
goal_row goal =
    let ec = as_fields (field_of (codes "ec") goal) in
    record {
      id = extract_int64 goal (codes "id" ∷ []);
      name = string_val (field_of (codes "name") goal);
      kind = elim ec [ none ↦ codes "replication" | some e ↦ codes "erasure-coding" ];
      config = elim ec [
        | none ↦ copies_config (shown_copies goal)
        | some e ↦
            ec_config (extract_int64 e (codes "dataParts" ∷ []))
              (extract_int64 e (codes "parityParts" ∷ []))
      ];
      default_text =
          if extract_bool goal (codes "default" ∷ []) then codes "yes (cluster default)" else [];
    }

abbrev underscores : ℤ → Text
underscores (pos n) = join blank (replicate n (codes "_"))
underscores (negsuc n) = []

-- What is shown as the goal's line of sfsgoals.cfg.
unfoldable pub goal_line : Fields → Text
unfolding extract_int64 string_val shown_copies field_of
goal_line goal =
    show_ℤ (extract_int64 goal (codes "id" ∷ []))
    ++ (32
        ∷ (string_val (field_of (codes "name") goal)
            ++ (codes " : " ++ elim (as_fields (field_of (codes "ec") goal)) [
              | none ↦ underscores (shown_copies goal)
              | some e ↦
                  codes "ec("
                  ++ (show_ℤ (extract_int64 e (codes "dataParts" ∷ []))
                      ++ (codes ", "
                          ++ (show_ℤ (extract_int64 e (codes "parityParts" ∷ [])) ++ codes ")")))
            ])))

-- The source of a mount as the topology shows it.
unfoldable pub mount_source : Fields → Text
unfolding string_val field_of
mount_source mp =
    let host = string_val (field_of (codes "hostPath") mp) in
    let claim = string_val (field_of (codes "claimName") mp) in
    let class = string_val (field_of (codes "storageClassName") mp) in
    if is_empty host
    then (if is_empty claim
        then (if is_empty class then codes "?" else codes "dynamic:" ++ class)
        else codes "pvc:" ++ claim)
    else codes "host:" ++ host

abbrev mount_text : Fields → Text
mount_text mp = string_val (field_of (codes "path") mp) ++ (0x2192 ∷ mount_source mp)

-- The summary behind those that came before; entries that are no objects are passed over.
unfoldable pub mounts_from : ℕ → Text → Values → Text
unfolding mount_source string_val field_of
mounts_from i summary no_values = summary
mounts_from i summary (value v vs) = elim (as_fields v) [
  | none ↦ mounts_from (i + 1) summary vs
  | some mp ↦
      mounts_from (i + 1)
        (if i == 0 then mount_text mp else summary ++ (codes ", " ++ mount_text mp)) vs
]

unfoldable pub mount_summary : Fields → Text
unfolding mounts_from extract_slice_raw
mount_summary server =
    let summary = mounts_from 0 [] (extract_slice_raw server (codes "mountPaths")) in
    if is_empty summary then codes "<none>" else summary
