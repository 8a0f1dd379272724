-- ===== src/Tests/Reports.antt =====
-- What is reported of concrete clusters: the status, the metrics, the labels and the logs.
use mathlib.Core.List.{Memᴰ}
use leilfs_operator.Base.{
  All, true, List, [], ◌∷◌, Option, none, some, Result, ok, err, ◌≡◌, ◌↔◌, refl, if◌then◌else◌,
}
use leilfs_operator.Base.Int.{pos}
use leilfs_operator.Text.{Text, codes, text_eq, text_eq_refl}
use leilfs_operator.Api.{Condition, LeilFsCluster}
use leilfs_operator.Metrics.{value_of, set_phase, phase_series, delete_cluster, of_cluster}
use leilfs_operator.Metrics.Phases.{delete_cluster-value_of}
use leilfs_operator.Controller.Support.{
  Problem, csi_enabled, validate_cluster_spec, spec_problems, server_problems,
}
use leilfs_operator.Controller.Kube.{Failure, unsupported_spec, wrapped, not_found, pure}
use leilfs_operator.Controller.Failures.{
  is_unsupported_spec_error, in_contexts, is_unsupported_spec_error_iff, error_text,
}
use leilfs_operator.Controller.Ha.{ApiServer}
use leilfs_operator.Controller.Reconcile.{
  Helpers, finalizer, ready_condition, count_total_chunk_servers, report, reconcile,
}
use leilfs_operator.Controller.Reconcile.Reported.{OnlyPhase, report-OnlyPhase, reconcile-refused}
use leilfs_operator.Controller.PersistentVolumes.{saunafs_label}
use leilfs_operator.Controller.PersistentVolumes.Names.{IsLabelChar, Spells, saunafs_label-IsLabel}
use leilfs_operator.Controller.Chunks.{chunk_pod_template}
use leilfs_operator.Kubectl.{
  ListedPod, is_running, normalize_path, log_selector, resolve_log_target,
}
use leilfs_operator.Kubectl.Paths.{IsNormalOf, slash_first, normalize_path-IsNormal}
use leilfs_operator.Kubectl.Logs.{
  print_labels, container_names, log_selector-chunk_pod_template, resolve_log_target-chosen,
}
use leilfs_operator.Tests.Values.{cluster, server}
use leilfs_operator.Tests.Servers.{Store, store_api, empty}

abbrev no_lease : ApiServer Store
no_lease = record {
  get_lease = λ ns name s. err not_found;
  create_lease = λ ns name l s. (s, none);
  delete_lease = λ ns name s. (s, none);
  set_controller_reference = λ c. none;
  list_pods = λ ns selector s. ok [];
  patch_pod = λ ns p s. (s, none);
  get_service = λ ns name s. ok [];
  update_service = λ ns name selector s. (s, none);
}

unfoldable first_of_kind : Text → List Condition → Option Condition
first_of_kind kind [] = none
first_of_kind kind (k ∷ ks) =
    let rest = first_of_kind kind ks in if text_eq k.kind kind then some k else rest

-- A live cluster that asks for the CSI driver.
abbrev with_csi : LeilFsCluster
with_csi =
    let c = cluster [] (pos 0) in
    record c {
      finalizers = finalizer ∷ [];
      spec = record c.spec { csi = record { enabled = some true; driver_name = []; image = [] } };
    }

abbrev helpers : Helpers Store
helpers = record {
  get_cluster = λ ns name s. ok with_csi;
  update_cluster = λ c s. (s, none);
  patch_status = λ c s. (s, none);
  api_text = λ e. codes "error";
  set_status_condition = λ k ks. k ∷ ks;
  find_status_condition = first_of_kind;
  contains_finalizer = λ f fs. true;
  add_finalizer = λ f fs. f ∷ fs;
  remove_finalizer = λ f fs. [];
  reconcile_master_stateful_set = λ c. pure tt;
  reconcile_master_ha_rbac = λ c. pure tt;
  reconcile_nfs = λ c. pure tt;
}

find-set : (k : Condition) (ks : List Condition) → first_of_kind k.kind (k ∷ ks) ≡ some k
unfolding first_of_kind
find-set k ks = rw (text_eq_refl k.kind) refl

report-OnlyPhase_example :
    OnlyPhase
      (codes "ns")
      (codes "c")
      (codes "Ready")
      (report store_api no_lease 0 helpers with_csi (ok tt) [] empty).1.0
report-OnlyPhase_example =
    report-OnlyPhase store_api no_lease 0 helpers find-set with_csi (ok tt) [] empty refl

is_refused : validate_cluster_spec with_csi ≡ some (csi_enabled ∷ [])
unfolding validate_cluster_spec spec_problems server_problems
is_refused = refl

reconcile-refused_example :
    let problems = csi_enabled ∷ [] in
    let e = wrapped (codes "reconcile validate spec") (unsupported_spec problems) in
    let seen : LeilFsCluster = record with_csi {
      status = record with_csi.status {
        total_chunk_servers = count_total_chunk_servers store_api no_lease 0 helpers with_csi empty;
        conditions =
            ready_condition with_csi
              (codes "False")
              (codes "UnsupportedSpec")
              (error_text helpers.api_text e)
            ∷ [];
      };
    } in
    ((reconcile store_api no_lease 0 helpers (codes "ns") (codes "c") [] empty).1.1
      ≡ (helpers.patch_status seen empty).0)
    × (f : Failure) × ((reconcile store_api no_lease 0 helpers (codes "ns") (codes "c") [] empty).0
        ≡ err f)
reconcile-refused_example =
    reconcile-refused store_api no_lease 0 helpers (codes "ns") (codes "c") with_csi [] empty
      (csi_enabled ∷ []) refl refl refl is_refused

is_unsupported_spec_error_iff_example :
    let e = wrapped (codes "reconcile validate spec") (unsupported_spec (csi_enabled ∷ [])) in
    (is_unsupported_spec_error e ≡ true) ↔ (
      (contexts : List Text) × (problems : List Problem) × (e
        ≡ in_contexts contexts (unsupported_spec problems)))
is_unsupported_spec_error_iff_example =
    is_unsupported_spec_error_iff
      (wrapped (codes "reconcile validate spec") (unsupported_spec (csi_enabled ∷ [])))

delete_cluster-value_of_example :
    let m = set_phase (codes "ns") (codes "c") (codes "Ready") [] in
    let j = phase_series (codes "ns") (codes "c") (codes "Ready") in
    value_of j (delete_cluster (codes "ns") (codes "c") m)
    ≡ (if of_cluster (codes "ns") (codes "c") j then none else value_of j m)
delete_cluster-value_of_example =
    delete_cluster-value_of (codes "ns") (codes "c")
      (phase_series (codes "ns") (codes "c") (codes "Ready"))
      (set_phase (codes "ns") (codes "c") (codes "Ready") [])

saunafs_label-IsLabel_example :
    All IsLabelChar (saunafs_label (codes "Node-1.x"))
    × Spells (codes "Node-1.x") (saunafs_label (codes "Node-1.x"))
    × (saunafs_label (saunafs_label (codes "Node-1.x")) ≡ saunafs_label (codes "Node-1.x"))
saunafs_label-IsLabel_example = saunafs_label-IsLabel (codes "Node-1.x")

normalize_path-IsNormal_example :
    IsNormalOf (slash_first (codes "a/b//")) (normalize_path (codes "a/b//"))
normalize_path-IsNormal_example = normalize_path-IsNormal (codes "a/b//")

log_selector-chunk_pod_template_example :
    let t = chunk_pod_template with_csi (server (codes "a") [] [] []) in
    (container : Text) × (log_selector {E = Unit} (codes "c") (codes "chunk") (codes "a")
      ≡ ok (print_labels t.labels, container))
    × (container_names t.containers ≡ container ∷ [])
log_selector-chunk_pod_template_example =
    log_selector-chunk_pod_template with_csi (server (codes "a") [] [] []) refl

abbrev pod : Text → Text → ListedPod
pod name phase = record { name = name; phase = phase }

abbrev two_pods : Text → Result Text (List ListedPod)
two_pods selector =
    ok (pod (codes "c-0") (codes "Pending") ∷ pod (codes "c-1") (codes "Running") ∷ [])

resolve_log_target-chosen_example :
    (q : ListedPod) × (resolve_log_target two_pods (codes "c") (codes "nfs") []
      ≡ ok (q.name, codes "nfs-ganesha"))
    × Memᴰ q (pod (codes "c-0") (codes "Pending") ∷ pod (codes "c-1") (codes "Running") ∷ [])
    × ((r : ListedPod)
        → Memᴰ r (pod (codes "c-0") (codes "Pending") ∷ pod (codes "c-1") (codes "Running") ∷ [])
        → is_running r ≡ true
        → is_running q ≡ true)
unfolding log_selector text_eq
resolve_log_target-chosen_example =
    resolve_log_target-chosen two_pods (codes "c") (codes "nfs") []
      (codes "app.kubernetes.io/name=leilfs-nfs,app.kubernetes.io/instance=c") (codes "nfs-ganesha")
      (pod (codes "c-0") (codes "Pending")) (pod (codes "c-1") (codes "Running") ∷ []) refl refl
