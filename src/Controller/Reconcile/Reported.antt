-- ===== src/Controller/Reconcile/Reported.antt =====
-- internal/controller/leilfscluster_controller.go: what Reconcile reports, in the status, the metrics
-- and its result.
use leilfs_operator.Base.{
  ℕ, Bool, true, false, List, Option, none, some, Result, ok, err, ◌≡◌, ◌≢◌, refl, ap, ◌∙◌, All,
  if◌then◌else◌,
}
use leilfs_operator.Base.Int.{pos}
use leilfs_operator.Text.{Text, codes, text_eq}
use leilfs_operator.Api.{Condition, LeilFsCluster}
use leilfs_operator.Metrics.{cluster_info, set, Metrics, value_of, phases, phase_series, set_phase}
use leilfs_operator.Metrics.Phases.{among, set_phase-value_of}
use leilfs_operator.Controller.Support.{Problem, validate_cluster_spec}
use leilfs_operator.Controller.Kube.{
  ApiError, Failure, api_failure, unsupported_spec, wrapped, Server,
}
use leilfs_operator.Controller.Failures.{is_unsupported_spec_error, is_panic, error_text}
use leilfs_operator.Controller.Publish.{series, phase_of, publish_metrics}
use leilfs_operator.Controller.Publish.Observed.{publish_metrics-phase}
use leilfs_operator.Controller.Ha.{ApiServer}
use leilfs_operator.Controller.Reconcile.{
  Helpers, finalizer, count_total_chunk_servers, ready_condition, is_failed, observed_status,
  report, patched, run_steps, steps, validate_spec, reconcile_live, reconcile_found, reconcile,
}

abbrev pub phase_for : Bool → Text
phase_for failed = if failed then codes "Failed" else codes "Ready"

-- Of the gauges of the cluster's phases, the given phase's is 1 and the others are 0.
pub record OnlyPhase (ns cluster phase : Text) (m : Metrics) : Type 0 where
  pub set_one : value_of (phase_series ns cluster phase) m ≡ some (pos 1)
  pub zero : All (λ q. q ≢ phase → value_of (phase_series ns cluster q) m ≡ some (pos 0)) phases

module _ {S : Type 0} (api : Server S) (ha : ApiServer S) (now : ℕ) (helpers : Helpers S) where
  open helpers use {
    get_cluster, update_cluster, patch_status, api_text, set_status_condition,
    find_status_condition, contains_finalizer, remove_finalizer,
  }

  publish-OnlyPhase :
      (c : LeilFsCluster) (failed : Bool) (s : S) (m : Metrics) (k : Condition)
      → find_status_condition (codes "Ready") c.status.conditions ≡ some k
      → k.status ≡ (if failed then codes "False" else codes "True")
      → OnlyPhase c.namespace c.name
          (phase_for failed)
          (publish_metrics api find_status_condition c failed s m)
  publish-OnlyPhase c failed s m k found status =
      let info = set (series c cluster_info c.spec.master.image) (pos 1) m in
      let (one, (a, (b, (d, (e, _))))) =
        set_phase-value_of c.namespace c.name (phase_for failed) info (reported failed) in
      let gauge = λ (q : Text).
        publish_metrics-phase api find_status_condition c failed s m q
        ∙ ap
            (λ p.
              value_of (phase_series c.namespace c.name q) (set_phase c.namespace c.name p info))
            named in
      record {
        set_one = gauge (phase_for failed) ∙ one;
        zero = (
          (λ h. gauge (codes "Pending") ∙ a h),
          (
            (λ h. gauge (codes "Reconciling") ∙ b h),
            ((λ h. gauge (codes "Ready") ∙ d h), ((λ h. gauge (codes "Failed") ∙ e h), tt)),
          ),
        );
      }
    where
      reported : (failed : Bool) → among (phase_for failed) phases ≡ true
      reported true = unfold text_eq in refl
      reported false = unfold text_eq in refl

      phase_of-status :
          (failed : Bool) (k : Condition)
          → k.status ≡ (if failed then codes "False" else codes "True")
          → phase_of (some k) failed ≡ phase_for failed
      phase_of-status true k e = unfold phase_of in rw e (unfold text_eq in refl)
      phase_of-status false k e = unfold phase_of in rw e (unfold text_eq in refl)

      named :
          phase_of (find_status_condition (codes "Ready") c.status.conditions) failed
          ≡ phase_for failed
      named = ap (λ o. phase_of o failed) found ∙ phase_of-status failed k status

  patched-failed :
      (seen : LeilFsCluster) (e : Failure) (m : Metrics) (w : S × Option ApiError)
      → ((patched api ha now helpers seen (err e) m w).1.1 ≡ w.0)
        × (f : Failure) × ((patched api ha now helpers seen (err e) m w).0 ≡ err f)
  patched-failed seen e m (t, none) = (refl, e, refl)
  patched-failed seen e m (t, some x) = (refl, api_failure x, refl)

  -- For a live cluster whose spec is not supported, Reconcile returns an error and writes the status
  -- alone, no object of the cluster: the Ready condition is set to False with the reason
  -- UnsupportedSpec and every problem in its message. The conditions are that the cluster is read, is
  -- not being deleted and holds the finalizer.
  pub reconcile-refused :
      (ns name : Text) (c : LeilFsCluster) (m : Metrics) (s : S) (problems : List Problem)
      → get_cluster ns name s ≡ ok c
      → c.deleting ≡ false
      → contains_finalizer finalizer c.finalizers ≡ true
      → validate_cluster_spec c ≡ some problems
      → let e = wrapped (codes "reconcile validate spec") (unsupported_spec problems) in
        let seen : LeilFsCluster = record c {
          status = record c.status {
            total_chunk_servers = count_total_chunk_servers api ha now helpers c s;
            conditions =
                set_status_condition
                  (ready_condition c
                    (codes "False")
                    (codes "UnsupportedSpec")
                    (error_text api_text e))
                  c.status.conditions;
          };
        } in
        ((reconcile api ha now helpers ns name m s).1.1 ≡ (patch_status seen s).0)
        × (f : Failure) × ((reconcile api ha now helpers ns name m s).0 ≡ err f)
  unfolding reconcile reconcile_found reconcile_live steps run_steps validate_spec report
      observed_status is_unsupported_spec_error is_panic
  reconcile-refused ns name c m s problems read live held refused =
      let e = wrapped (codes "reconcile validate spec") (unsupported_spec problems) in
      let seen : LeilFsCluster = record c {
        status = record c.status {
          total_chunk_servers = count_total_chunk_servers api ha now helpers c s;
          conditions =
              set_status_condition
                (ready_condition c (codes "False") (codes "UnsupportedSpec")
                  (error_text api_text e))
                c.status.conditions;
        };
      } in
      let path : reconcile api ha now helpers ns name m s
          ≡ patched api ha now helpers seen (err e) m (patch_status seen s) =
        rw read (rw live (rw held (rw refused refl))) in
      rw path (patched-failed seen e m (patch_status seen s))

  -- What apimeta documents of the two helpers: the condition that was set is found.
  module _
      (find-set : (k : Condition) (ks : List Condition)
        → find_status_condition k.kind (set_status_condition k ks) ≡ some k) where
    -- If the patch of the status is accepted, then after the steps exactly one of the reported phases
    -- of the cluster is at 1: Ready when the steps went through and Failed when one of them failed. The
    -- condition is that FindStatusCondition finds what SetStatusCondition set.
    pub report-OnlyPhase :
        (c : LeilFsCluster) (r : Result Failure (Unit {0})) (m : Metrics) (s : S)
        → (patch_status (record c { status = observed_status api ha now helpers r c s }) s).1 ≡ none
        → OnlyPhase c.namespace c.name
            (phase_for (is_failed r))
            (report api ha now helpers c r m s).1.0
    unfolding report
    report-OnlyPhase c r m s accepted = go (patch_status (seen r) s) accepted
      where
        seen : Result Failure (Unit {0}) → LeilFsCluster
        seen r = record c { status = observed_status api ha now helpers r c s }

        found :
            (r : Result Failure (Unit {0}))
            → (k : Condition) × (find_status_condition
                  (codes "Ready")
                  (observed_status api ha now helpers r c s).conditions
                ≡ some k)
              × (k.status ≡ (if is_failed r then codes "False" else codes "True"))
        found (ok _) = unfold observed_status in (_, find-set _ c.status.conditions, refl)
        found (err e) = unfold observed_status in (_, find-set _ c.status.conditions, refl)

        go :
            (w : S × Option ApiError)
            → w.1 ≡ none
            → OnlyPhase c.namespace c.name
                (phase_for (is_failed r))
                (patched api ha now helpers (seen r) r m w).1.0
        go (t, none) h =
            let (k, is_found, status) = found r in
            publish-OnlyPhase (seen r) (is_failed r) t m k is_found status
        go (t, some e) h = absurd (cc)
