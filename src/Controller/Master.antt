-- ===== src/Controller/Master.antt =====
-- internal/controller/leilfscluster_controller.go: the objects around the master, without its
-- StatefulSet: migrateMasterToStatefulSet, reconcileGoalsConfigMap, reconcileMasterService,
-- reconcileMasterPodDisruptionBudget and reconcileExposeService.

pub mod Settled
use leilfs_operator.Base.{
  ℕ, Bool, true, false, List, [], ◌∷◌, ◌++◌, Option, none, some, Result, ok, err, if◌then◌else◌,
}
use leilfs_operator.Base.Int.{ℤ, pos, ltb_ℤ}
use leilfs_operator.Text.{Text, codes, is_empty}
use leilfs_operator.Text.Maps.{TextMap}
use leilfs_operator.Api.{GoalSpec, ExposeSpec, LeilFsCluster}
use leilfs_operator.Controller.Objects.{ServicePort, Service, ConfigMap, PodDisruptionBudget}
use leilfs_operator.Controller.Kube.{
  ApiError, Failure, panicked, Key, PayloadAt, Server, Action, delete, service, config_map,
  stateful_set, deployment, daemon_set, disruption_budget, pure, raise, ignore_not_found, find,
  do_write, delete_if_found, create_or_update, for_each, ◌>>◌, ◌>>=◌,
}
use leilfs_operator.Controller.Goals.{MakePanic, build_goals_config}
use leilfs_operator.Controller.Ha.{label_active_master}
use leilfs_operator.Controller.Defaults.{in_namespace, expose_enabled, or_default}
use leilfs_operator.Controller.Chunks.{merge_config_map}

abbrev pub master_key : LeilFsCluster → Key
master_key c = in_namespace c service (c.name ++ codes "-master")

abbrev pub goals_key : LeilFsCluster → Key
goals_key c = in_namespace c config_map (c.name ++ codes "-master-goals")

abbrev pub budget_key : LeilFsCluster → Key
budget_key c = in_namespace c disruption_budget (c.name ++ codes "-master")

abbrev pub expose_key : LeilFsCluster → Key
expose_key c = in_namespace c service (c.name ++ codes "-client-expose")

-- The objects of older releases, in the order in which they are looked for.
abbrev pub legacy_keys : LeilFsCluster → List Key
legacy_keys c =
    in_namespace c daemon_set (c.name ++ codes "-master")
    ∷ in_namespace c deployment (c.name ++ codes "-master")
    ∷ in_namespace c stateful_set (c.name ++ codes "-shadow")
    ∷ in_namespace c service (c.name ++ codes "-shadow")
    ∷ []

-- sfsgoals.cfg, and the snippet where it is not empty.
abbrev pub goals_data : Text × Text → ConfigMap
goals_data (content, snippet) = record {
  data_of =
      (codes "sfsgoals.cfg", content)
      ∷ (if is_empty snippet then [] else (codes "sfsmaster-default-goal.txt", snippet) ∷ []);
}

-- The labels of all masters of a cluster.
abbrev pub master_labels : LeilFsCluster → TextMap Text
master_labels c =
    (codes "app.kubernetes.io/name", codes "leilfs-master")
    ∷ (codes "app.kubernetes.io/instance", c.name)
    ∷ []

-- With shadows, only the master that is active is selected.
unfoldable pub master_selector : LeilFsCluster → TextMap Text
master_selector c = elim c.spec.shadow [
  | some shadow ↦
      (codes "app.kubernetes.io/instance", c.name) ∷ (label_active_master, codes "true") ∷ []
  | none ↦ master_labels c
]

abbrev pub same_port : Text → ℕ → Text → ℤ → ServicePort
same_port name port protocol node_port = record {
  name = name;
  port = pos port;
  target_port = pos port;
  protocol = protocol;
  node_port = node_port;
}

unfoldable pub master_service : LeilFsCluster → Service
unfolding master_selector
master_service c = record {
  kind = or_default c.spec.master.service_type (codes "ClusterIP");
  cluster_ip = [];
  selector = master_selector c;
  ports =
      same_port (codes "admin") 9419 [] (pos 0)
      ∷ same_port (codes "cs") 9420 [] (pos 0)
      ∷ same_port (codes "client") 9421 [] (pos 0)
      ∷ [];
}

-- What is set on a service that is there.
abbrev pub merge_service : Service → Service → Service
merge_service desired old = record old {
  kind = desired.kind;
  selector = desired.selector;
  ports = desired.ports;
}

unfoldable pub master_budget : LeilFsCluster → PodDisruptionBudget
master_budget c = record { min_available = 1; selector = master_labels c }

abbrev pub positive : ℤ → Bool
positive n = ltb_ℤ (pos 0) n

unfoldable pub expose_service : LeilFsCluster → Service
unfolding master_selector
expose_service c =
    let expose = c.spec.expose in
    record {
      kind = codes "NodePort";
      cluster_ip = [];
      selector = master_selector c;
      ports =
          same_port (codes "client") 9421 (codes "TCP")
            (if positive expose.client_node_port then expose.client_node_port else pos 0)
          ∷ (if positive expose.admin_node_port
              then same_port (codes "admin") 9419 (codes "TCP") expose.admin_node_port ∷ []
              else []);
    }

-- Both fields are set.
abbrev pub merge_budget : PodDisruptionBudget → PodDisruptionBudget → PodDisruptionBudget
merge_budget desired old = record old {
  min_available = desired.min_available;
  selector = desired.selector;
}

-- Whether a read gives an object.
abbrev pub is_ok : {A : Type 0} → Result ApiError A → Bool
is_ok (ok a) = true
is_ok (err e) = false

module _ {S : Type 0} (api : Server S) where
  -- Every error of the read counts as "not there".
  unfoldable pub delete_if_readable : Key → Action S (Unit {0})
  unfolding delete_if_found
  delete_if_readable k s = if is_ok (api.get k s) then delete_if_found api k s else pure tt s

  unfoldable pub migrate_master_to_stateful_set : LeilFsCluster → Action S (Unit {0})
  unfolding delete_if_readable for_each
  migrate_master_to_stateful_set c = for_each delete_if_readable (legacy_keys c)

  abbrev pub write_goals_data : LeilFsCluster → Result MakePanic (Text × Text) → Action S (Unit {0})
  write_goals_data c (ok r) =
      create_or_update api c (goals_key c) (goals_data r) (merge_config_map (goals_data r))
  write_goals_data c (err p) = raise (panicked p)

  abbrev pub reconcile_goals : LeilFsCluster → List GoalSpec → Action S (Unit {0})
  reconcile_goals c [] = delete_if_found api (goals_key c)
  reconcile_goals c (g ∷ gs) = write_goals_data c (build_goals_config (g ∷ gs))

  unfoldable pub reconcile_goals_config_map : LeilFsCluster → Action S (Unit {0})
  unfolding build_goals_config
  reconcile_goals_config_map c = reconcile_goals c c.spec.goals

  unfoldable pub reconcile_master_service : LeilFsCluster → Action S (Unit {0})
  unfolding master_service
  reconcile_master_service c =
      create_or_update api c (master_key c) (master_service c) (merge_service (master_service c))

  unfoldable pub reconcile_master_budget : LeilFsCluster → Action S (Unit {0})
  unfolding master_budget
  reconcile_master_budget c = elim c.spec.shadow [
    | none ↦ delete_if_found api (budget_key c)
    | some shadow ↦
        create_or_update api c (budget_key c) (master_budget c) (merge_budget (master_budget c))
  ]

  -- The delete's own error is returned, a NotFound too.
  abbrev pub delete_found : (k : Key) → Option (PayloadAt k) → Action S (Unit {0})
  delete_found k none = pure tt
  delete_found k (some old) = do_write api k delete

  unfoldable pub find_and_delete : Key → Action S (Unit {0})
  unfolding find do_write
  find_and_delete k = find api k >>= delete_found k

  unfoldable pub reconcile_expose_service : LeilFsCluster → Action S (Unit {0})
  unfolding expose_enabled expose_service find_and_delete
  reconcile_expose_service c =
      if expose_enabled c
      then create_or_update api c (expose_key c) (expose_service c)
          (merge_service (expose_service c))
      else find_and_delete (expose_key c)
