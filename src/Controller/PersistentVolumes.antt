-- ===== src/Controller/PersistentVolumes.antt =====
-- internal/controller/leilfscluster_controller.go: what is read of a PersistentVolume (its labels, its
-- node, its phase), sanitizeName and saunafsLabel, and pvToClusterRequests.
pub mod Names
use leilfs_operator.Base.{
  ℕ, ◌+◌, Bool, true, false, not, ◌&&◌, ◌||◌, List, [], ◌∷◌, ◌++◌, map, take, Option, none, some,
  Result, ok, err, ltb, leb, ◌==◌, if◌then◌else◌,
}
use leilfs_operator.Text.{Text, codes, is_empty, text_eq}
use leilfs_operator.Text.Maps.{TextMap, lookup}
use leilfs_operator.Api.{ChunkAutoDiscoverSpec, LeilFsCluster}
use leilfs_operator.Controller.Objects.{NodeSelectorRequirement, PersistentVolume}
use leilfs_operator.Controller.Kube.{ApiError}

-- strings.ToLower as far as the filters behind it tell: it also takes U+0130 and U+212A to letters
-- of ASCII, and no other code point from outside.
unfoldable pub to_lower : ℕ → ℕ
to_lower c =
    if leb 65 c && leb c 90
    then c + 32
    else if c == 0x130
    then 105
    else if c == 0x212a
    then 107
    else c

unfoldable pub is_lower_or_digit : ℕ → Bool
is_lower_or_digit c = (leb 97 c && leb c 122) || (leb 48 c && leb c 57)

-- strings.ReplaceAll of one character by another
abbrev pub replaced : ℕ → ℕ → ℕ → ℕ
replaced a b c = if c == a then b else c

-- The bytes of a code point from outside ASCII are all dropped.
unfoldable pub keep_only : (ℕ → Bool) → Text → Text
keep_only p [] = []
keep_only p (c ∷ s) = let rest = keep_only p s in if p c then c ∷ rest else rest

abbrev pub is_label_char : ℕ → Bool
is_label_char c = is_lower_or_digit c || c == 95

abbrev pub is_name_char : ℕ → Bool
is_name_char c = is_lower_or_digit c || c == 45

unfoldable pub sanitize_name : Text → Text
unfolding to_lower is_lower_or_digit keep_only
sanitize_name s = keep_only is_name_char (map (λ c. replaced 95 45 (replaced 32 45 (to_lower c))) s)

unfoldable pub saunafs_label : Text → Text
unfolding to_lower is_lower_or_digit keep_only
saunafs_label s =
    keep_only is_label_char (map (λ c. replaced 32 95 (replaced 45 95 (to_lower c))) s)

abbrev pub label_fits : Text → Option Text → Bool
label_fits v none = false
label_fits v (some w) = is_empty v || text_eq w v

unfoldable pub has_labels : TextMap Text → TextMap Text → Bool
has_labels labels [] = true
has_labels labels ((k, v) ∷ selector) =
    let rest = has_labels labels selector in label_fits v (lookup k labels) && rest

abbrev pub is_present : Option Text → Bool
is_present none = false
is_present (some v) = true

-- An empty value asks for the key alone, an empty selector for the label of the local disks.
unfoldable pub pv_matches_selector : PersistentVolume → TextMap Text → Bool
unfolding has_labels
pv_matches_selector pv selector =
    if is_empty selector
    then is_present (lookup (codes "localdisk-operator.io/disk") pv.labels)
    else has_labels pv.labels selector

-- The first value of a requirement that names nodes.
abbrev pub names_node : NodeSelectorRequirement → Option Text
names_node e = elim e.values [
  | [] ↦ none
  | v ∷ vs ↦
      if text_eq e.key (codes "kubernetes.io/hostname") && text_eq e.operator (codes "In")
      then some v
      else none
]

unfoldable pub first_node : List NodeSelectorRequirement → Option Text
first_node [] = none
first_node (e ∷ es) =
    let rest = first_node es in elim (names_node e) [ some v ↦ some v | none ↦ rest ]

unfoldable pub first_node_of_terms : List (List NodeSelectorRequirement) → Text
unfolding first_node
first_node_of_terms [] = []
first_node_of_terms (t ∷ ts) =
    let rest = first_node_of_terms ts in elim (first_node t) [ some v ↦ v | none ↦ rest ]

-- "" where no node is named
unfoldable pub node_name_from_pv : PersistentVolume → Text
unfolding first_node_of_terms
node_name_from_pv pv = elim pv.required_terms [ none ↦ [] | some terms ↦ first_node_of_terms terms ]

-- m[k] of a map of strings
abbrev pub value_of : Text → TextMap Text → Text
value_of k m = elim (lookup k m) [ some v ↦ v | none ↦ [] ]

abbrev pub is_missing : PersistentVolume → Bool
is_missing pv =
    text_eq (value_of (codes "localdisk-operator.io/disk-state") pv.labels) (codes "Missing")

-- What the three early `continue`s of the loop let through.
unfoldable pub is_candidate : PersistentVolume → Bool
unfolding node_name_from_pv
is_candidate pv =
    not (is_empty (node_name_from_pv pv))
    && (text_eq pv.phase (codes "Available") || text_eq pv.phase (codes "Bound"))
    && not (is_missing pv)

abbrev pub discovers : LeilFsCluster → Bool
discovers c = elim c.spec.chunk.auto_discover [ none ↦ false | some ad ↦ ad.enabled ]

-- The namespaces and names of the clusters that discover volumes.
unfoldable pub requests_of : List LeilFsCluster → List (Text × Text)
requests_of [] = []
requests_of (c ∷ clusters) =
    let rest = requests_of clusters in if discovers c then (c.namespace, c.name) ∷ rest else rest

-- pvToClusterRequests, with the list of all clusters.
unfoldable pub pv_to_cluster_requests :
    PersistentVolume → Result ApiError (List LeilFsCluster) → List (Text × Text)
unfolding requests_of
pv_to_cluster_requests pv clusters =
    if is_present (lookup (codes "localdisk-operator.io/disk") pv.labels)
    then elim clusters [ err e ↦ [] | ok cs ↦ requests_of cs ]
    else []
