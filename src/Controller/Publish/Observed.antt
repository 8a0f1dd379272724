-- ===== src/Controller/Publish/Observed.antt =====
-- internal/controller/leilfscluster_controller.go: the phase that publishMetrics leaves.
use leilfs_operator.Base.{Bool, true, false, List, [], ◌∷◌, Option, ◌≡◌, refl, ◌∙◌, All}
use leilfs_operator.Base.Int.{ℤ, pos}
use leilfs_operator.Text.{Text, codes}
use leilfs_operator.Api.{Condition, LeilFsCluster}
use leilfs_operator.Metrics.{
  Metrics, Series, cluster_info, series_eq, value_of, set, increment, phase_series, set_phase,
}
use leilfs_operator.Metrics.Phases.{value_of-set}
use leilfs_operator.Controller.Kube.{Server}
use leilfs_operator.Controller.Publish.{
  phase_of, gauges, set_all, publish_metrics, count_failure, series,
}

-- A series of another family is not touched.
skip :
    (k j : Series) (v : ℤ) (m : Metrics)
    → series_eq k j ≡ false
    → value_of j (set k v m) ≡ value_of j m
skip k j v m h = value_of-set k j v m ∙ (rw h refl)

count_failure-value_of :
    (c : LeilFsCluster) (failed : Bool) (q : Text) (m : Metrics)
    → value_of (phase_series c.namespace c.name q) (count_failure c failed m)
      ≡ value_of (phase_series c.namespace c.name q) m
unfolding increment series_eq
count_failure-value_of c false q m = refl
count_failure-value_of c true q m = skip _ (phase_series c.namespace c.name q) _ m refl

set_all-keeps :
    (j : Series) (gs : List (Series × ℤ)) (m : Metrics)
    → All (λ g. series_eq g.0 j ≡ false) gs
    → value_of j (set_all gs m) ≡ value_of j m
unfolding set_all
set_all-keeps j [] m h = refl
set_all-keeps j ((k, v) ∷ gs) m (h, hs) = set_all-keeps j gs (set k v m) hs ∙ skip k j v m h

-- The gauges of the phases stand as SetPhase leaves them.
pub publish_metrics-phase :
    {S : Type 0} (api : Server S) (find_condition : Text → List Condition → Option Condition)
    (c : LeilFsCluster) (failed : Bool) (s : S) (m : Metrics) (q : Text)
    → value_of (phase_series c.namespace c.name q) (publish_metrics api find_condition c failed s m)
      ≡ value_of (phase_series c.namespace c.name q) (
          set_phase c.namespace c.name
            (phase_of (find_condition (codes "Ready") c.status.conditions) failed)
            (set (series c cluster_info c.spec.master.image) (pos 1) m))
unfolding publish_metrics gauges series_eq
publish_metrics-phase api find_condition c failed s m q =
    let j = phase_series c.namespace c.name q in
    let phase = phase_of (find_condition (codes "Ready") c.status.conditions) failed in
    let before =
      set_phase c.namespace c.name phase
        (set (series c cluster_info c.spec.master.image) (pos 1) m) in
    count_failure-value_of c failed q (set_all (gauges api c s) before)
    ∙ set_all-keeps j (gauges api c s) before
        (refl, (refl, (refl, (refl, (refl, (refl, (refl, (refl, tt))))))))
