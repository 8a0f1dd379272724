-- ===== src/Controller/Reconcile.antt =====
-- internal/controller/leilfscluster_controller.go: Reconcile, the counts and publishMetrics. The API
-- server, the conditions' and the finalizers' helpers, and the reconcilers that are not modelled are
-- parameters.
pub mod Reported
use leilfs_operator.Base.{
  ℕ, ◌+◌, ◌-◌, ◌*◌, ◌==◌, ◌^◌, Bool, true, false, not, ◌&&◌, List, [], ◌∷◌, ◌++◌, Option, none,
  some, Result, ok, err, length, keep, if◌then◌else◌,
}
use leilfs_operator.Base.Int.{ℤ, pos, negsuc, ltb_ℤ}
use leilfs_operator.Text.{Text, codes, is_empty, text_eq, decimal, join}
use leilfs_operator.Text.Maps.{TextMap}
use leilfs_operator.Api.{Condition, LeilFsClusterStatus, LeilFsCluster}
use leilfs_operator.Metrics.{
  Metrics, Series, Family, cluster_info, master_replicas_desired, master_replicas_ready,
  shadow_replicas_ready, chunk_servers_desired, chunk_servers_ready, metaloggers_ready,
  auto_discover_pvs_matched, reconcile_errors_total, set, increment, set_phase, delete_cluster,
}
use leilfs_operator.Controller.Objects.{StatefulSet, PersistentVolume}
use leilfs_operator.Controller.Support.{
  Problem, csi_enabled, shadow_image, shadow_node_selector, shadow_tolerations, shadow_resources,
  dynamic_provisioning, validate_cluster_spec,
}
use leilfs_operator.Controller.Kube.{
  ApiError, not_found, already_exists, other, Failure, api_failure, unsupported_spec, wrapped,
  panicked, Key, Server, Action, stateful_set, pure, raise, in_context, continue_with, ◌>>◌, ◌>>=◌,
}
use leilfs_operator.Controller.Failures.{is_unsupported_spec_error, is_panic, error_text}
use leilfs_operator.Controller.Publish.{publish_metrics}
use leilfs_operator.Controller.Ha.{ApiServer, Outcome, reconcile_master_ha, count_ready_shadows}
use leilfs_operator.Controller.Defaults.{in_namespace}
use leilfs_operator.Controller.Chunks.{reconcile_chunk_servers}
use leilfs_operator.Controller.AutoDiscover.{matched_volumes, reconcile_auto_discover_chunk_servers}
use leilfs_operator.Controller.Master.{
  migrate_master_to_stateful_set, reconcile_goals_config_map, reconcile_master_service,
  reconcile_master_budget, reconcile_expose_service,
}
use leilfs_operator.Controller.Workloads.{
  metalogger_set_key, reconcile_metaloggers, reconcile_interface,
}

abbrev pub finalizer : Text
finalizer = codes "leilfs.leilfs-operator.io/cleanup"

-- The rest of the API server's client, and helpers of other packages.
pub record Helpers (S : Type 0) : Type 0 where
  pub get_cluster : Text → Text → S → Result ApiError LeilFsCluster
  -- r.Update and Status().Patch
  pub update_cluster : LeilFsCluster → S → S × Option ApiError
  pub patch_status : LeilFsCluster → S → S × Option ApiError
  pub api_text : ApiError → Text
  -- apimeta.SetStatusCondition and apimeta.FindStatusCondition
  pub set_status_condition : Condition → List Condition → List Condition
  pub find_status_condition : Text → List Condition → Option Condition
  -- controllerutil.ContainsFinalizer, AddFinalizer and RemoveFinalizer
  pub contains_finalizer : Text → List Text → Bool
  pub add_finalizer : Text → List Text → List Text
  pub remove_finalizer : Text → List Text → List Text
  -- reconcileMasterStatefulSet, reconcileMasterHARBAC and reconcileNFS
  pub reconcile_master_stateful_set : LeilFsCluster → Action S (Unit {0})
  pub reconcile_master_ha_rbac : LeilFsCluster → Action S (Unit {0})
  pub reconcile_nfs : LeilFsCluster → Action S (Unit {0})

-- A sub-reconciler, which may also change the cluster that is held in memory.
abbrev pub Step : Type 0 → Type 0
Step S = Text × Action (LeilFsCluster × S) (Unit {0})

-- The cluster is the one in memory, and stays.
abbrev pub with_cluster :
    {S : Type 0} → (LeilFsCluster → Action S (Unit {0})) → Action (LeilFsCluster × S) (Unit {0})
with_cluster f (c, s) = let r = f c s in (r.0, (c, r.1))

-- The loop: the first error ends it.
unfoldable pub run_steps : {S : Type 0} → List (Step S) → Action (LeilFsCluster × S) (Unit {0})
run_steps [] = pure tt
run_steps ((name, f) ∷ steps) = in_context (codes "reconcile " ++ name) f >> run_steps steps

abbrev validated : {S : Type 0} → Option (List Problem) → Action S (Unit {0})
validated none = pure tt
validated (some problems) = raise (unsupported_spec problems)

unfoldable pub validate_spec : {S : Type 0} → LeilFsCluster → Action S (Unit {0})
unfolding validate_cluster_spec
validate_spec c = validated (validate_cluster_spec c)

abbrev ha_error : Option ApiError → Result Failure (Unit {0})
ha_error none = ok tt
ha_error (some e) = err (api_failure e)

-- What reconcileMasterHA wrote into the status stays with the cluster in memory.
unfoldable pub master_ha : {S : Type 0} → ApiServer S → ℕ → Action (LeilFsCluster × S) (Unit {0})
unfolding reconcile_master_ha
master_ha ha now (c, s) =
    let out = reconcile_master_ha ha now c s in
    let seen : LeilFsCluster = record c { status = out.status } in
    (ha_error out.error, (seen, out.state))

-- ctrl.Result
pub data Requeue : Type 0 where
  no_requeue : Requeue
  -- nanoseconds
  requeue_after : ℕ → Requeue

abbrev pub lease_observe_interval : ℕ
lease_observe_interval = 5 * 10 ^ 9

abbrev pub chunk_sets_labels : LeilFsCluster → TextMap Text
chunk_sets_labels c =
    (codes "app.kubernetes.io/name", codes "leilfs-chunkserver")
    ∷ (codes "app.kubernetes.io/instance", c.name)
    ∷ []

unfoldable pub is_ready_set : StatefulSet → Bool
is_ready_set set = elim set.replicas [ none ↦ false | some n ↦ not (ltb_ℤ set.ready_replicas n) ]

abbrev pub show_counts : ℕ → ℕ → Text
show_counts ready total =
    codes "All components reconciled ("
    ++ (decimal ready ++ (47 ∷ (decimal total ++ codes " chunk servers ready)")))

abbrev pub ready_condition : LeilFsCluster → Text → Text → Text → Condition
ready_condition c status reason message = record {
  kind = codes "Ready";
  status = status;
  reason = reason;
  message = message;
  observed_generation = c.generation;
}

abbrev is_failed : Result Failure (Unit {0}) → Bool
is_failed (ok _) = false
is_failed (err e) = true

abbrev requeue_of : LeilFsCluster → Result Failure (Unit {0}) → Result Failure Requeue
requeue_of c (err e) = err e
requeue_of c (ok _) = elim c.spec.shadow [
  | none ↦ ok no_requeue
  | some shadow ↦ ok (requeue_after lease_observe_interval)
]

abbrev panics : Result Failure (Unit {0}) → Bool
panics (ok _) = false
panics (err e) = is_panic e

module _ {S : Type 0} (api : Server S) (ha : ApiServer S) (now : ℕ) (helpers : Helpers S) where
  open helpers use {
    get_cluster, update_cluster, patch_status, api_text, set_status_condition,
    find_status_condition, contains_finalizer, add_finalizer, remove_finalizer,
    reconcile_master_stateful_set, reconcile_master_ha_rbac, reconcile_nfs,
  }

  unfoldable pub steps : List (Step S)
  unfolding validate_spec master_ha
  steps =
      (codes "validate spec", with_cluster validate_spec)
      ∷ (codes "goals configmap", with_cluster (reconcile_goals_config_map api))
      ∷ (codes "migrate legacy master objects", with_cluster (migrate_master_to_stateful_set api))
      ∷ (codes "master statefulset", with_cluster reconcile_master_stateful_set)
      ∷ (codes "master service", with_cluster (reconcile_master_service api))
      ∷ (codes "master ha rbac", with_cluster reconcile_master_ha_rbac)
      ∷ (codes "master ha", master_ha ha now)
      ∷ (codes "master pdb", with_cluster (reconcile_master_budget api))
      ∷ (codes "chunk servers", with_cluster (reconcile_chunk_servers api))
      ∷ (
        codes "auto-discover chunk servers",
        with_cluster (reconcile_auto_discover_chunk_servers api),
      )
      ∷ (codes "metaloggers", with_cluster (reconcile_metaloggers api))
      ∷ (codes "interface", with_cluster (reconcile_interface api))
      ∷ (codes "expose service", with_cluster (reconcile_expose_service api))
      ∷ (codes "nfs", with_cluster reconcile_nfs)
      ∷ []

  unfoldable pub count_total_chunk_servers : LeilFsCluster → S → ℕ
  count_total_chunk_servers c s =
      elim (api.list_stateful_sets c.namespace (chunk_sets_labels c) s) [
        | err e ↦ 0
        | ok sets ↦ length sets
      ]

  unfoldable pub count_ready_chunk_servers : LeilFsCluster → S → ℕ
  unfolding is_ready_set
  count_ready_chunk_servers c s =
      elim (api.list_stateful_sets c.namespace (chunk_sets_labels c) s) [
        | err e ↦ 0
        | ok sets ↦ length (keep is_ready_set sets)
      ]

  abbrev ready_replicas_of : Result ApiError StatefulSet → ℤ
  ready_replicas_of (ok set) = set.ready_replicas
  ready_replicas_of (err e) = pos 0

  unfoldable pub count_ready_metaloggers : LeilFsCluster → S → ℤ
  count_ready_metaloggers c s = elim c.spec.metalogger [
    | none ↦ pos 0
    | some ml ↦ ready_replicas_of (api.get (metalogger_set_key c) s)
  ]

  -- The status after the steps: `s` is the server that they left.
  unfoldable pub observed_status :
      Result Failure (Unit {0}) → LeilFsCluster → S → LeilFsClusterStatus
  unfolding is_unsupported_spec_error error_text count_total_chunk_servers count_ready_chunk_servers
      count_ready_metaloggers count_ready_shadows
  observed_status (err e) c s =
      let reason =
        if is_unsupported_spec_error e then codes "UnsupportedSpec" else codes "ReconcileError" in
      record c.status {
        total_chunk_servers = count_total_chunk_servers c s;
        conditions =
            set_status_condition (ready_condition c (codes "False") reason (error_text api_text e))
              c.status.conditions;
      }
  observed_status (ok _) c s =
      let total = count_total_chunk_servers c s in
      let ready = count_ready_chunk_servers c s in
      record c.status {
        total_chunk_servers = total;
        ready_chunk_servers = ready;
        ready_metaloggers = count_ready_metaloggers c s;
        ready_shadows = count_ready_shadows ha c s;
        conditions =
            set_status_condition
              (ready_condition c (codes "True") (codes "Ready") (show_counts ready total))
              c.status.conditions;
      }

  -- What Reconcile returns, with the metrics and the server that it leaves.
  abbrev pub Reconciled : Type 0
  Reconciled = Result Failure Requeue × (Metrics × S)

  abbrev patched :
      LeilFsCluster → Result Failure (Unit {0}) → Metrics → S × Option ApiError → Reconciled
  patched c r m (s, some e) = (err (api_failure e), (m, s))
  patched c r m (s, none) =
      (requeue_of c r, (publish_metrics api find_status_condition c (is_failed r) s m, s))

  -- The status is patched and the metrics are published, whether the steps failed or not.
  unfoldable pub report : LeilFsCluster → Result Failure (Unit {0}) → Metrics → S → Reconciled
  unfolding observed_status publish_metrics
  report c r m s =
      let seen : LeilFsCluster = record c { status = observed_status r c s } in
      patched seen r m (patch_status seen s)

  abbrev after_steps : Metrics → Result Failure (Unit {0}) × (LeilFsCluster × S) → Reconciled
  after_steps m (r, (c, s)) =
      if panics r then (elim r [ ok _ ↦ ok no_requeue | err e ↦ err e ], (m, s)) else report c r m s

  unfoldable pub reconcile_live : LeilFsCluster → Metrics → S → Reconciled
  unfolding steps run_steps is_panic report
  reconcile_live c m s = after_steps m (run_steps steps (c, s))

  abbrev updated : Text → S × Option ApiError → Metrics → (S → Reconciled) → Reconciled
  updated context (s, none) m k = k s
  updated context (s, some e) m k = (err (wrapped context (api_failure e)), (m, s))

  -- The finalizer is put on a live cluster, and taken off one that is deleted: finalizeCluster does
  -- nothing else.
  unfoldable pub reconcile_found : LeilFsCluster → Metrics → S → Reconciled
  unfolding reconcile_live
  reconcile_found c m s =
      let held = contains_finalizer finalizer c.finalizers in
      if c.deleting
      then (if held
          then updated (codes "removing finalizer")
              (update_cluster (record c { finalizers = remove_finalizer finalizer c.finalizers }) s)
              m (λ t. (ok no_requeue, (m, t)))
          else (ok no_requeue, (m, s)))
      else (if held
          then reconcile_live c m s
          else (let named : LeilFsCluster = record c {
            finalizers = add_finalizer finalizer c.finalizers;
          } in
              updated (codes "adding finalizer") (update_cluster named s) m
                (reconcile_live named m)))

  abbrev reconcile_read : Text → Text → Result ApiError LeilFsCluster → Metrics → S → Reconciled
  reconcile_read ns name (ok c) m s = reconcile_found c m s
  reconcile_read ns name (err not_found) m s = (ok no_requeue, (delete_cluster ns name m, s))
  reconcile_read ns name (err already_exists) m s = (err (api_failure already_exists), (m, s))
  reconcile_read ns name (err (other e)) m s = (err (api_failure (other e)), (m, s))

  -- Reconcile of a request for a namespace and a name.
  unfoldable pub reconcile : Text → Text → Metrics → S → Reconciled
  unfolding reconcile_found delete_cluster
  reconcile ns name m s = reconcile_read ns name (get_cluster ns name s) m s
