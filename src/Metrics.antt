-- ===== src/Metrics.antt =====
-- internal/metrics/metrics.go: the operator's time series. A family's series are told apart by the
-- namespace, the cluster, and a third label (version, phase or source) that some families have.
pub mod Phases
use leilfs_operator.Base.{
  ℕ, ◌+◌, Bool, true, false, ◌&&◌, List, [], ◌∷◌, Option, none, some, ◌==◌, if◌then◌else◌,
}
use leilfs_operator.Base.Int.{ℤ, pos, negsuc}
use leilfs_operator.Text.{Text, codes, text_eq}

pub data Family : Type 0 where
  cluster_info cluster_phase master_replicas_desired master_replicas_ready shadow_replicas_ready :
      Family
  chunk_servers_desired chunk_servers_ready metaloggers_ready auto_discover_pvs_matched : Family
  reconcile_errors_total : Family

abbrev family_index : Family → ℕ
family_index cluster_info = 0
family_index cluster_phase = 1
family_index master_replicas_desired = 2
family_index master_replicas_ready = 3
family_index shadow_replicas_ready = 4
family_index chunk_servers_desired = 5
family_index chunk_servers_ready = 6
family_index metaloggers_ready = 7
family_index auto_discover_pvs_matched = 8
family_index reconcile_errors_total = 9

pub record Series : Type 0 where
  pub family : Family
  pub namespace : Text
  pub cluster : Text
  -- "" where the family has no third label
  pub label : Text

unfoldable pub series_eq : Series → Series → Bool
series_eq a b =
    (family_index a.family == family_index b.family)
    && text_eq a.namespace b.namespace
    && text_eq a.cluster b.cluster
    && text_eq a.label b.label

abbrev pub Metrics : Type 0
Metrics = List (Series × ℤ)

unfoldable pub value_of : Series → Metrics → Option ℤ
value_of k [] = none
value_of k ((j, v) ∷ m) = let rest = value_of k m in if series_eq j k then some v else rest

-- WithLabelValues(…).Set(v)
unfoldable pub set : Series → ℤ → Metrics → Metrics
set k v [] = (k, v) ∷ []
set k v ((j, w) ∷ m) = let rest = set k v m in if series_eq j k then (k, v) ∷ m else (j, w) ∷ rest

abbrev pub next : Option ℤ → ℤ
next none = pos 1
next (some (pos n)) = pos (n + 1)
next (some (negsuc n)) = negsuc n

-- WithLabelValues(…).Inc() of a counter, which is never negative
unfoldable pub increment : Series → Metrics → Metrics
unfolding value_of set
increment k m = set k (next (value_of k m)) m

abbrev pub phases : List Text
phases = codes "Pending" ∷ codes "Reconciling" ∷ codes "Ready" ∷ codes "Failed" ∷ []

abbrev pub phase_series : Text → Text → Text → Series
phase_series ns cluster phase = record {
  family = cluster_phase;
  namespace = ns;
  cluster = cluster;
  label = phase;
}

-- The loop of SetPhase over the phases from one on.
unfoldable pub set_phases : List Text → Text → Text → Text → Metrics → Metrics
unfolding set
set_phases [] ns cluster phase m = m
set_phases (p ∷ ps) ns cluster phase m =
    set_phases ps ns cluster phase
      (set (phase_series ns cluster p) (if text_eq p phase then pos 1 else pos 0) m)

unfoldable pub set_phase : Text → Text → Text → Metrics → Metrics
unfolding set_phases
set_phase = set_phases phases

abbrev pub of_cluster : Text → Text → Series → Bool
of_cluster ns cluster k = text_eq k.namespace ns && text_eq k.cluster cluster

abbrev pub matches : Family → Text → Text → Series → Bool
matches f ns cluster k = (family_index k.family == family_index f) && of_cluster ns cluster k

-- DeletePartialMatch with a namespace and a cluster, of one family.
unfoldable pub delete_partial_match : Family → Text → Text → Metrics → Metrics
delete_partial_match f ns cluster [] = []
delete_partial_match f ns cluster ((k, v) ∷ m) =
    let rest = delete_partial_match f ns cluster m in
    if matches f ns cluster k then rest else (k, v) ∷ rest

unfoldable pub delete_families : List Family → Text → Text → Metrics → Metrics
unfolding delete_partial_match
delete_families [] ns cluster m = m
delete_families (f ∷ fs) ns cluster m =
    delete_families fs ns cluster (delete_partial_match f ns cluster m)

abbrev pub deleted_families : List Family
deleted_families =
    cluster_info ∷ cluster_phase ∷ master_replicas_desired ∷ master_replicas_ready
    ∷ shadow_replicas_ready ∷ chunk_servers_desired ∷ chunk_servers_ready ∷ metaloggers_ready
    ∷ auto_discover_pvs_matched ∷ reconcile_errors_total ∷ []

unfoldable pub delete_cluster : Text → Text → Metrics → Metrics
unfolding delete_families
delete_cluster = delete_families deleted_families
