-- ===== src/Controller/Publish.antt =====
-- internal/controller/leilfscluster_controller.go: publishMetrics.
pub mod Observed
use leilfs_operator.Base.{
  ℕ, ◌+◌, ◌-◌, ◌==◌, Bool, true, false, List, [], ◌∷◌, Option, none, some, ok, err, length,
  if◌then◌else◌,
}
use leilfs_operator.Base.Int.{ℤ, pos, negsuc}
use leilfs_operator.Text.{Text, codes, is_empty, text_eq}
use leilfs_operator.Api.{Condition, LeilFsClusterStatus, LeilFsCluster}
use leilfs_operator.Metrics.{
  Metrics, Series, Family, cluster_info, master_replicas_desired, master_replicas_ready,
  shadow_replicas_ready, chunk_servers_desired, chunk_servers_ready, metaloggers_ready,
  auto_discover_pvs_matched, reconcile_errors_total, set, increment, set_phase,
}
use leilfs_operator.Controller.Kube.{Server}
use leilfs_operator.Controller.AutoDiscover.{matched_volumes}

abbrev pub series : LeilFsCluster → Family → Text → Series
series c f label = record { family = f; namespace = c.namespace; cluster = c.name; label = label }

-- A run of calls of Set.
unfoldable pub set_all : List (Series × ℤ) → Metrics → Metrics
unfolding set
set_all [] m = m
set_all ((k, v) ∷ gs) m = set_all gs (set k v m)

-- The phase by the Ready condition and the error of the steps.
unfoldable pub phase_of : Option Condition → Bool → Text
phase_of none failed = codes "Pending"
phase_of (some k) failed =
    if text_eq k.status (codes "True")
    then codes "Ready"
    else (if text_eq k.status (codes "False")
        then (if failed then codes "Failed" else codes "Reconciling")
        else codes "Pending")

abbrev plus_one : ℤ → ℤ
plus_one (pos n) = pos (n + 1)
plus_one (negsuc n) = if n == 0 then pos 0 else negsuc (n - 1)

unfoldable pub desired_masters : LeilFsCluster → ℤ
desired_masters c = elim c.spec.shadow [
  | none ↦ pos 1
  | some shadow ↦ elim shadow.replicas [ none ↦ pos 1 | some n ↦ plus_one n ]
]

unfoldable pub ready_masters : LeilFsClusterStatus → ℕ
ready_masters status =
    if is_empty status.active_master then status.ready_shadows else status.ready_shadows + 1

abbrev count_failure : LeilFsCluster → Bool → Metrics → Metrics
count_failure c failed m = if failed then increment (series c reconcile_errors_total []) m else m

module _ {S : Type 0} (api : Server S) where
  -- The volumes that the selector matches, 0 when they cannot be listed.
  unfoldable pub auto_desired : LeilFsCluster → S → ℕ
  unfolding matched_volumes
  auto_desired c s = elim c.spec.chunk.auto_discover [
    | none ↦ 0
    | some ad ↦
        if ad.enabled
        then elim (api.list_persistent_volumes s) [
          | err e ↦ 0
          | ok pvs ↦ length (matched_volumes ad pvs)
        ]
        else 0
  ]

  -- The gauges that are set after the phase, in their order.
  unfoldable pub gauges : LeilFsCluster → S → List (Series × ℤ)
  unfolding desired_masters ready_masters auto_desired
  gauges c s =
      (series c master_replicas_desired [], desired_masters c)
      ∷ (series c master_replicas_ready [], pos (ready_masters c.status))
      ∷ (series c shadow_replicas_ready [], pos c.status.ready_shadows)
      ∷ (series c metaloggers_ready [], c.status.ready_metaloggers)
      ∷ (series c chunk_servers_desired (codes "manual"), pos (length c.spec.chunk.servers))
      ∷ (series c chunk_servers_desired (codes "autodiscover"), pos (auto_desired c s))
      ∷ (series c auto_discover_pvs_matched [], pos (auto_desired c s))
      ∷ (series c chunk_servers_ready [], pos c.status.ready_chunk_servers)
      ∷ []

  unfoldable pub publish_metrics :
      (Text → List Condition → Option Condition) → LeilFsCluster → Bool → S → Metrics → Metrics
  unfolding phase_of gauges set_all set increment set_phase
  publish_metrics find_condition c failed s m =
      let phase = phase_of (find_condition (codes "Ready") c.status.conditions) failed in
      count_failure c failed (
        set_all (gauges c s) (
          set_phase c.namespace c.name phase
            (set (series c cluster_info c.spec.master.image) (pos 1) m)))
