-- ===== src/Controller/Ha/Labels.antt =====
-- reconcileMasterHA with a fresh lease: which pods carry the label that the master's service selects.
pub mod Routing
use mathlib.Core.Path.{subst}
use leilfs_operator.Base.{
  Bool, true, List, [], ◌∷◌, map, Option, none, some, ok, ◌≡◌, ◌↔◌, ◌⊎◌, All, keep, length,
  Bool-cases, if◌then◌else◌,
}
use leilfs_operator.Text.{Text, codes, text_eq, text_eq_iff, text_eq_refl}
use leilfs_operator.Text.Maps.{TextMap, lookup, remove, lookup-insert, lookup-remove}
use leilfs_operator.Api.{LeilFsCluster}
use leilfs_operator.Controller.Ha.{
  Pod, ApiError, ApiServer, Outcome, label_active_master, is_pod_running_ready, with_active_label,
  list_master_pods, shadow_pods,
}
use leilfs_operator.Controller.Ha.Labels.Routing.{pod_names, put, Routed, RoutedUnless, Within}

-- What Kubernetes documents of the calls: a patch that succeeds replaces the pod in the lists of
-- selectors that do not ask for the label patched, one that fails leaves these lists as they were or,
-- where only the answer was lost, has replaced the pod too, and a service is no pod.
pub record PodLaws {S : Type 0} (api : ApiServer S) : Type 0 where
  pub list-patch :
      (ns : Text) (selector : TextMap Text) (active : Bool) (p : Pod) (pods : List Pod) (s : S)
      → lookup label_active_master selector ≡ none
      → api.list_pods ns selector s ≡ ok pods
      → (api.patch_pod ns (with_active_label active p) s).1 ≡ none
      → api.list_pods ns selector (api.patch_pod ns (with_active_label active p) s).0
        ≡ ok (map (put (with_active_label active p)) pods)
  pub list-patch_failed :
      (ns : Text) (selector : TextMap Text) (active : Bool) (p : Pod) (pods : List Pod) (s : S)
      (e : ApiError)
      → lookup label_active_master selector ≡ none
      → api.list_pods ns selector s ≡ ok pods
      → (api.patch_pod ns (with_active_label active p) s).1 ≡ some e
      → (api.list_pods ns selector (api.patch_pod ns (with_active_label active p) s).0 ≡ ok pods)
        ⊎ (api.list_pods ns selector (api.patch_pod ns (with_active_label active p) s).0
            ≡ ok (map (put (with_active_label active p)) pods))
  pub list-update_service :
      (ns : Text) (selector : TextMap Text) (name : Text) (routes : TextMap Text) (s : S)
      → api.list_pods ns selector (api.update_service ns name routes s).0
        ≡ api.list_pods ns selector s

abbrev and_if_some : Option ApiError → Text → List Text → List Text
and_if_some none n ns = ns
and_if_some (some e) n ns = n ∷ ns

module _ {S : Type 0} (api : ApiServer S) where
  -- The names of the pods whose patches fail, when each of the pods in turn is to carry the label
  -- exactly if it is the holder.
  unfoldable pub refused_patches : Text → Text → List Pod → S → List Text
  refused_patches ns holder [] s = []
  refused_patches ns holder (p ∷ ps) s =
      let r = api.patch_pod ns (with_active_label (text_eq p.name holder) p) s in
      and_if_some r.1 p.name (refused_patches ns holder ps r.0)

module _ {S : Type 0} (api : ApiServer S) (laws : PodLaws api) where
  -- The server behind the loop.
  record Labelled (c : LeilFsCluster) (holder : Text) (refused names : List Text) (s : S)
      : Type 0 where
    pods : List Pod
    listed : list_master_pods api c s ≡ ok pods
    same_names : pod_names pods ≡ names
    routed : All (RoutedUnless holder refused) pods

  -- The outcome says what is on the server.
  pub record Synced (c : LeilFsCluster) (holder : Text) (refused names : List Text) (o : Outcome S)
      : Type 0 where
    pub active : o.status.active_master ≡ holder
    pub pods : List Pod
    pub listed : list_master_pods api c o.state ≡ ok pods
    pub same_names : pod_names pods ≡ names
    pub routed : All (RoutedUnless holder refused) pods
    pub shadows :
        o.status.ready_shadows ≡ length (keep is_pod_running_ready (shadow_pods api holder pods))
