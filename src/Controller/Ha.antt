-- ===== src/Controller/Ha.antt =====
-- internal/controller/leilfscluster_controller.go, reconcileMasterHA and what it calls: the observer
-- of the HA lease. The API server is a parameter, with its state passed along; times are in
-- nanoseconds.
pub mod Labels
use leilfs_operator.Base.{
  ℕ, ◌-◌, ◌*◌, ◌^◌, Bool, true, false, not, ◌∷◌, ◌++◌, List, [], Option, none, some, Result, ok,
  err, length, keep, exists, ltb, ◌&&◌, if◌then◌else◌,
}
use leilfs_operator.Text.{Text, codes, is_empty, text_eq}
use leilfs_operator.Text.Maps.{TextMap, insert, remove}
use leilfs_operator.Controller.Kube.{ApiError, not_found, already_exists, other}
use leilfs_operator.Api.{LeilFsCluster, LeilFsClusterStatus}

pub record Lease : Type 0 where
  pub holder_identity : Option Text
  pub renew_time : Option ℕ
  pub duration_seconds : ℕ

pub record Pod : Type 0 where
  pub name : Text
  pub labels : TextMap Text
  pub phase : Text
  -- the types and statuses of its conditions
  pub conditions : List (Text × Text)

-- What is used of the API server. A write gives the state behind it, whether it fails or not.
pub record ApiServer (S : Type 0) : Type 0 where
  -- namespace and name
  pub get_lease : Text → Text → S → Result ApiError Lease
  pub create_lease : Text → Text → Lease → S → S × Option ApiError
  pub delete_lease : Text → Text → S → S × Option ApiError
  -- controllerutil.SetControllerReference
  pub set_controller_reference : LeilFsCluster → Option ApiError
  -- namespace, and the labels that a pod must have
  pub list_pods : Text → TextMap Text → S → Result ApiError (List Pod)
  pub patch_pod : Text → Pod → S → S × Option ApiError
  -- the selector of a service
  pub get_service : Text → Text → S → Result ApiError (TextMap Text)
  pub update_service : Text → Text → TextMap Text → S → S × Option ApiError

-- What a reconciliation leaves: the server's state, the status, and the error returned.
pub record Outcome (S : Type 0) : Type 0 where
  pub state : S
  pub status : LeilFsClusterStatus
  pub error : Option ApiError

abbrev pub label_active_master : Text
label_active_master = codes "leilfs.io/active-master"

abbrev pub lease_duration : ℕ
lease_duration = 30 * 10 ^ 9

abbrev pub lease_name : LeilFsCluster → Text
lease_name c = c.name ++ codes "-master-ha"

abbrev pub master_name : LeilFsCluster → Text
master_name c = c.name ++ codes "-master"

abbrev pub master_labels : LeilFsCluster → TextMap Text
master_labels c =
    (codes "app.kubernetes.io/name", codes "leilfs-master")
    ∷ (codes "app.kubernetes.io/instance", c.name)
    ∷ []

unfoldable pub is_pod_running_ready : Pod → Bool
is_pod_running_ready p =
    if text_eq p.phase (codes "Running")
    then exists (λ k. text_eq k.0 (codes "Ready") && text_eq k.1 (codes "True")) p.conditions
    else false

-- The pod as setPodActiveMasterLabel patches it.
unfoldable pub with_active_label : Bool → Pod → Pod
with_active_label active p = record p {
  labels =
      if active
      then insert label_active_master (codes "true") p.labels
      else remove label_active_master p.labels;
}

module _ {S : Type 0} (api : ApiServer S) where
  open api use {
    get_lease, create_lease, delete_lease, set_controller_reference, list_pods, patch_pod,
    get_service, update_service,
  }

  abbrev pub list_master_pods : LeilFsCluster → S → Result ApiError (List Pod)
  list_master_pods c s = list_pods c.namespace (master_labels c) s

  -- listShadowPods
  unfoldable pub shadow_pods : Text → List Pod → List Pod
  shadow_pods active = keep (λ (p : Pod). not (text_eq p.name active))

  unfoldable pub count_ready_shadows : LeilFsCluster → S → ℕ
  unfolding shadow_pods is_pod_running_ready
  count_ready_shadows c s = elim c.spec.shadow [
    | none ↦ 0
    | some _ ↦ elim (list_master_pods c s) [
      | err e ↦ 0
      | ok pods ↦ length (keep is_pod_running_ready (shadow_pods c.status.active_master pods))
    ]
  ]

  abbrev pub fail : LeilFsCluster → S → ApiError → Outcome S
  fail c s e = record { state = s; status = c.status; error = some e }

  -- cluster.Status.ActiveMaster = active; cluster.Status.ReadyShadows = r.countReadyShadows(…)
  unfoldable pub count_with : Text → LeilFsCluster → S → Outcome S
  unfolding count_ready_shadows
  count_with active c s =
      let named : LeilFsCluster = record c {
        status = record c.status { active_master = active };
      } in
      record {
        state = s;
        status = record named.status { ready_shadows = count_ready_shadows named s };
        error = none;
      }

  -- The loop over all pods: a failed patch is only logged.
  unfoldable pub label_pods : Text → Text → List Pod → S → S
  unfolding with_active_label
  label_pods ns holder [] s = s
  label_pods ns holder (p ∷ pods) s =
      label_pods ns holder pods (patch_pod ns (with_active_label (text_eq p.name holder) p) s).0

  unfoldable pub set_master_service_selector : LeilFsCluster → S → S × Option ApiError
  set_master_service_selector c s = elim (get_service c.namespace (master_name c) s) [
    | err e ↦ (s, some e)
    | ok selector ↦
        update_service c.namespace (master_name c)
          ((codes "app.kubernetes.io/instance", c.name) ∷ (label_active_master, codes "true") ∷ [])
          s
  ]

  -- The end of a fresh lease's path, behind the write of the selector.
  abbrev pub synced : LeilFsCluster → Text → S × Option ApiError → Outcome S
  synced c holder (s, some e) = fail c s e
  synced c holder (s, none) = count_with holder c s

  unfoldable pub sync_holder : LeilFsCluster → Text → S → Outcome S
  unfolding label_pods set_master_service_selector count_with
  sync_holder c holder s = elim (list_master_pods c s) [
    | err e ↦ fail c s e
    | ok pods ↦
        synced c holder (set_master_service_selector c (label_pods c.namespace holder pods s))
  ]

  abbrev pub is_expired : ℕ → Lease → Bool
  is_expired now l = elim l.renew_time [ some t ↦ ltb lease_duration (now - t) | none ↦ false ]

  abbrev pub holder_of : Lease → Text
  holder_of l = elim l.holder_identity [ some h ↦ h | none ↦ [] ]

  unfoldable pub observe_lease : ℕ → LeilFsCluster → Lease → S → Outcome S
  unfolding sync_holder count_with
  observe_lease now c l s =
      if is_empty (holder_of l)
      then count_with c.status.active_master c s
      else if is_expired now l
      then count_with [] c s
      else sync_holder c (holder_of l) s

  -- An error of Create other than AlreadyExists is returned.
  abbrev pub created : LeilFsCluster → S × Option ApiError → Outcome S
  created c (s, none) = count_with c.status.active_master c s
  created c (s, some already_exists) = count_with c.status.active_master c s
  created c (s, some not_found) = fail c s not_found
  created c (s, some (other e)) = fail c s (other e)

  unfoldable pub bootstrap_lease : LeilFsCluster → S → Outcome S
  bootstrap_lease c s = elim (set_controller_reference c) [
    | some e ↦ fail c s e
    | none ↦ created c (
        create_lease c.namespace (lease_name c)
          (record { holder_identity = none; renew_time = none; duration_seconds = 30 }) s)
  ]

  unfoldable pub reconcile_master_ha : ℕ → LeilFsCluster → S → Outcome S
  unfolding observe_lease bootstrap_lease
  reconcile_master_ha now c s = elim c.spec.shadow [
    | none ↦ elim (get_lease c.namespace (lease_name c) s) [
      | ok l ↦ record {
        state = (delete_lease c.namespace (lease_name c) s).0;
        status = c.status;
        error = none;
      }
      | err e ↦ record { state = s; status = c.status; error = none }
    ]
    | some _ ↦ elim (get_lease c.namespace (lease_name c) s) [
      | ok l ↦ observe_lease now c l s
      | err not_found ↦ bootstrap_lease c s
      | err already_exists ↦ fail c s already_exists
      | err (other e) ↦ fail c s (other e)
    ]
  ]
