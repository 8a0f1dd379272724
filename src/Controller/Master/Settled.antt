-- ===== src/Controller/Master/Settled.antt =====
-- internal/controller/leilfscluster_controller.go: what the reconcilers of the objects around the
-- master leave on the server.
use leilfs_operator.Base.{
  inl, true, false, List, [], ◌∷◌, Option, none, some, Result, ok, err, ◌≡◌, refl, ap, sym, ◌∙◌,
}
use leilfs_operator.Text.{Text}
use leilfs_operator.Api.{GoalSpec, ShadowSpec, LeilFsCluster}
use leilfs_operator.Controller.Objects.{Service}
use leilfs_operator.Controller.Goals.{MakePanic, build_goals_config}
use leilfs_operator.Controller.Kube.{
  Failure, Key, PayloadAt, Server, Action, find, delete_if_found, create_or_update,
}
use leilfs_operator.Controller.Kube.Laws.{
  Laws, Holds, continue_with-eq-ok, delete_if_found-Removed, create_or_update-Holds, Seen, Removed,
  seen, do_delete-Removed, find-stored, find-Keeps,
}
use leilfs_operator.Controller.Defaults.{expose_enabled}
use leilfs_operator.Controller.Chunks.{merge_config_map}
use leilfs_operator.Controller.Master.{
  master_key, goals_key, budget_key, expose_key, goals_data, master_service, master_budget,
  expose_service, merge_service, merge_budget, write_goals_data, reconcile_goals,
  reconcile_goals_config_map, reconcile_master_service, reconcile_master_budget, delete_found,
  find_and_delete,
}

-- A service of the desired type that selects and offers what the desired one does.
pub record Offers (desired o : Service) : Type 0 where
  pub kind : o.kind ≡ desired.kind
  pub selector : o.selector ≡ desired.selector
  pub ports : o.ports ≡ desired.ports

pub Offers-refl : (d : Service) → Offers d d
Offers-refl d = record { kind = refl; selector = refl; ports = refl }

pub merge_service-Offers : (d old : Service) → Offers d (merge_service d old)
merge_service-Offers d old = record { kind = refl; selector = refl; ports = refl }

module _ {S : Type 0} {api : Server S} (laws : Laws api) where
  open laws use {stored}

  delete_found-Removed :
      (k : Key) (found : Option (PayloadAt k)) (s : S)
      → (found ≡ none → stored k s ≡ none)
      → (delete_found api k found s).0 ≡ ok tt
      → Removed (seen laws k (delete_found api k found s).1)
  delete_found-Removed k none s f h = inl (f refl)
  delete_found-Removed k (some old) s f h = do_delete-Removed laws k s h

  -- A get and a delete that end well leave nothing that is not marked for deletion.
  pub find_and_delete-Removed :
      (k : Key) (s : S)
      → (find_and_delete api k s).0 ≡ ok tt
      → Removed (seen laws k (find_and_delete api k s).1)
  unfolding find_and_delete
  find_and_delete-Removed k s h =
      let (found, first, path) = continue_with-eq-ok (find api k s) (delete_found api k) h in
      let s1 = (find api k s).1 in
      let same : stored k s1 ≡ stored k s = ap (λ (o : Seen k). o.0) (find-Keeps laws k k s) in
      rw path (
        delete_found-Removed k found s1 (λ e. same ∙ (find-stored laws k s found first ∙ e))
          (sym (ap (λ (r : Result Failure (Unit {0}) × S). r.0) path) ∙ h))

  -- The service for clients outside the cluster: as the spec asks where it is enabled, and gone or
  -- marked for deletion where it is not.
  abbrev pub ExposeSettled : LeilFsCluster → S → Type 0
  ExposeSettled c s =
      (expose_enabled c ≡ true → Holds laws (expose_key c) (Offers (expose_service c)) s)
      × (expose_enabled c ≡ false → Removed (seen laws (expose_key c) s))

  -- The master's service after its reconciler.
  pub reconcile_master_service-Holds :
      (c : LeilFsCluster) (s : S)
      → (reconcile_master_service api c s).0 ≡ ok tt
      → Holds laws (master_key c) (Offers (master_service c)) (reconcile_master_service api c s).1
  unfolding reconcile_master_service
  reconcile_master_service-Holds c s h =
      create_or_update-Holds laws c (master_key c) (master_service c) _ (Offers (master_service c))
        s (Offers-refl (master_service c)) (merge_service-Offers (master_service c)) h

  -- The budget is there exactly with the shadows.
  abbrev pub BudgetSettled : LeilFsCluster → Option ShadowSpec → S → Type 0
  BudgetSettled c none s = Removed (seen laws (budget_key c) s)
  BudgetSettled c (some shadow) s = stored (budget_key c) s ≡ some (master_budget c)

  -- If reconcileMasterPodDisruptionBudget returns no error, then the budget of the masters is on the
  -- server, with the one master that must stay, when the spec has shadows, and is gone, or marked for
  -- deletion, when it has none. The condition is that the server keeps Laws.
  pub reconcile_master_budget-Settled :
      (c : LeilFsCluster) (s : S)
      → (reconcile_master_budget api c s).0 ≡ ok tt
      → BudgetSettled c c.spec.shadow (reconcile_master_budget api c s).1
  unfolding reconcile_master_budget
  reconcile_master_budget-Settled c s h = go c.spec.shadow h
    where
      go :
          (shadow : Option ShadowSpec)
          → let m : Action S (Unit {0}) = elim shadow [
            | none ↦ delete_if_found api (budget_key c)
            | some shadow ↦
                create_or_update api c
                  (budget_key c)
                  (master_budget c)
                  (merge_budget (master_budget c))
          ] in
            (m s).0 ≡ ok tt → BudgetSettled c shadow (m s).1
      go none h = delete_if_found-Removed laws (budget_key c) s h
      go (some shadow) h =
          let (b, held, same) =
            create_or_update-Holds laws c (budget_key c) (master_budget c)
              (merge_budget (master_budget c)) (λ b. b ≡ master_budget c) s refl (λ old. refl) h in
          held ∙ ap (λ b. some b) same

  -- sfsgoals.cfg as buildGoalsConfig writes it, or its ConfigMap removed where there are no goals.
  abbrev pub GoalsSettled : LeilFsCluster → List GoalSpec → S → Type 0
  GoalsSettled c [] s = Removed (seen laws (goals_key c) s)
  GoalsSettled c (g ∷ gs) s =
      (r : Text × Text) × (build_goals_config (g ∷ gs) ≡ ok r)
      × (stored (goals_key c) s ≡ some (goals_data r))

  -- If reconcileGoalsConfigMap returns no error and does not panic, then the ConfigMap of the goals
  -- holds what buildGoalsConfig writes for the goals of the spec, and it is gone, or marked
  -- for deletion, when the spec has none. The condition is that the server keeps Laws.
  pub reconcile_goals_config_map-Settled :
      (c : LeilFsCluster) (s : S)
      → (reconcile_goals_config_map api c s).0 ≡ ok tt
      → GoalsSettled c c.spec.goals (reconcile_goals_config_map api c s).1
  unfolding reconcile_goals_config_map
  reconcile_goals_config_map-Settled c s h = go c.spec.goals h
    where
      with_text :
          (g : GoalSpec) (gs : List GoalSpec) (b : Result MakePanic (Text × Text))
          → build_goals_config (g ∷ gs) ≡ b
          → (write_goals_data api c b s).0 ≡ ok tt
          → (r : Text × Text) × (build_goals_config (g ∷ gs) ≡ ok r)
            × (stored (goals_key c) (write_goals_data api c b s).1 ≡ some (goals_data r))
      with_text g gs (ok r) e h =
          let (cm, held, same) =
            create_or_update-Holds laws c (goals_key c) (goals_data r)
              (merge_config_map (goals_data r)) (λ cm. cm ≡ goals_data r) s refl (λ old. refl) h in
          (r, e, held ∙ ap (λ cm. some cm) same)
      with_text g gs (err p) e h = absurd (cc)

      go :
          (goals : List GoalSpec)
          → (reconcile_goals api c goals s).0 ≡ ok tt
          → GoalsSettled c goals (reconcile_goals api c goals s).1
      go [] h = delete_if_found-Removed laws (goals_key c) s h
      go (g ∷ gs) h = with_text g gs (build_goals_config (g ∷ gs)) refl h
