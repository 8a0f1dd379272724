-- ===== src/Controller/Workloads/Settled.antt =====
-- internal/controller/leilfscluster_controller.go: what reconcileInterface and reconcileMetaloggers
-- leave on the server.
use leilfs_operator.Base.{Bool, true, false, Option, none, some, ◌≡◌}
use leilfs_operator.Base.Int.{ℤ}
use leilfs_operator.Api.{MetaloggerSpec, LeilFsCluster}
use leilfs_operator.Controller.Objects.{Deployment, StatefulSet}
use leilfs_operator.Controller.Kube.{Server}
use leilfs_operator.Controller.Kube.Laws.{Laws, Removed, seen, Holds}
use leilfs_operator.Controller.Workloads.Templates.{TemplatesFrom}
use leilfs_operator.Controller.StatefulSets.{RunsAs}
use leilfs_operator.Controller.Chunks.Deployed.{Serves}
use leilfs_operator.Controller.Master.Settled.{Offers}
use leilfs_operator.Controller.Workloads.{
  interface_deployment_key, interface_service_key, interface_deployment, interface_service,
  metalogger_set_key, metalogger_service_key, metalogger_service, metalogger_stateful_set,
}

-- A deployment that runs what the desired one asks for.
pub record Deploys (desired o : Deployment) : Type 0 where
  pub template : o.template ≡ desired.template
  pub replicas : o.replicas ≡ desired.replicas

module _ {S : Type 0} {api : Server S} (laws : Laws api) where
  open laws use {stored}

  -- The web interface after its reconciler, by whether it is enabled.
  abbrev pub InterfaceSettled : LeilFsCluster → Bool → S → Type 0
  InterfaceSettled c true s =
      Holds laws (interface_deployment_key c) (Deploys (interface_deployment c)) s
      × Holds laws (interface_service_key c) (Offers (interface_service c)) s
  InterfaceSettled c false s =
      Removed (seen laws (interface_deployment_key c) s)
      × Removed (seen laws (interface_service_key c) s)

  -- The StatefulSet of the metaloggers, by what was there before.
  unfoldable pub MetaloggerSet :
      LeilFsCluster → MetaloggerSpec → ℤ → Option StatefulSet → StatefulSet → Type 0
  MetaloggerSet c ml replicas before o =
      RunsAs (metalogger_stateful_set api.is_zero_quantity c ml replicas) o
      × TemplatesFrom api.is_zero_quantity ml before o

  -- The metaloggers after their reconciler, by what is wanted of them and what the server held of the
  -- StatefulSet before.
  abbrev pub MetaloggersSettled :
      LeilFsCluster → Option (MetaloggerSpec × ℤ) → Option StatefulSet → S → Type 0
  MetaloggersSettled c none before s =
      Removed (seen laws (metalogger_set_key c) s)
      × Removed (seen laws (metalogger_service_key c) s)
  MetaloggersSettled c (some (ml, replicas)) before s =
      Holds laws (metalogger_service_key c) (Serves (metalogger_service c)) s
      × Holds laws (metalogger_set_key c) (MetaloggerSet c ml replicas before) s
