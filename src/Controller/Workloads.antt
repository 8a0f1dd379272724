-- ===== src/Controller/Workloads.antt =====
-- internal/controller/leilfscluster_controller.go: reconcileInterface and reconcileMetaloggers.
pub mod Settled
pub mod Templates
use leilfs_operator.Base.{
  ℕ, Bool, true, false, ◌&&◌, List, [], ◌∷◌, ◌++◌, Option, none, some, if◌then◌else◌,
}
use leilfs_operator.Base.Int.{ℤ, pos, is_zero_ℤ}
use leilfs_operator.Text.{Text, codes, is_empty}
use leilfs_operator.Text.Maps.{TextMap}
use leilfs_operator.Api.{MasterStorageSpec, MetaloggerSpec, WebUiSpec, LeilFsCluster}
use leilfs_operator.Controller.Objects.{
  ServicePort, Service, Container, PodTemplate, Claim, StatefulSet, Deployment,
}
use leilfs_operator.Controller.Kube.{
  Key, Server, Action, service, stateful_set, deployment, delete_if_found, create_or_update,
  for_each, ◌>>◌, ◌>>=◌, pure,
}
use leilfs_operator.Controller.Goals.{show_ℤ}
use leilfs_operator.Controller.Defaults.{
  default_resources, metalogger_default_resources, web_ui_default_resources, in_namespace,
  master_host, is_set, or_default,
}
use leilfs_operator.Controller.StatefulSets.{merge_stateful_set, merge_deployment}
use leilfs_operator.Controller.Chunks.{merge_headless, cfg_volume, cfg_mount}
use leilfs_operator.Controller.Master.{merge_service}

abbrev pub interface_name : LeilFsCluster → Text
interface_name c = c.name ++ codes "-interface"

abbrev pub interface_deployment_key : LeilFsCluster → Key
interface_deployment_key c = in_namespace c deployment (interface_name c)

abbrev pub interface_service_key : LeilFsCluster → Key
interface_service_key c = in_namespace c service (interface_name c)

abbrev interface_labels : LeilFsCluster → TextMap Text
interface_labels c =
    (codes "app.kubernetes.io/name", codes "leilfs-interface")
    ∷ (codes "app.kubernetes.io/instance", c.name)
    ∷ []

unfoldable pub interface_port : WebUiSpec → ℤ
interface_port iface = if is_zero_ℤ iface.port then pos 9425 else iface.port

abbrev pub or_one : Option ℤ → Option ℤ
or_one none = some (pos 1)
or_one (some n) = some n

unfoldable pub interface_deployment : LeilFsCluster → Deployment
unfolding interface_port default_resources
interface_deployment c =
    let iface = c.spec.web_ui in
    record {
      replicas = or_one iface.replicas;
      selector = interface_labels c;
      template = record {
        labels = interface_labels c;
        node_name = [];
        node_selector = iface.node_selector;
        tolerations = iface.tolerations;
        host_network = false;
        dns_policy = [];
        init_containers = [];
        containers =
            record {
              name = codes "leilfs-cgiserver";
              image =
                  or_default iface.image
                    (codes "ghcr.io/henres/leilfs-container/leilfs-cgiserver:5.10.1");
              image_pull_policy = codes "IfNotPresent";
              command =
                  codes "/usr/bin/python3"
                  ∷ codes "/usr/sbin/saunafs-cgiserver"
                  ∷ codes "-v"
                  ∷ codes "-P"
                  ∷ show_ℤ (interface_port iface)
                  ∷ [];
              ports = record { name = codes "http"; container_port = interface_port iface } ∷ [];
              resources = default_resources iface.resources web_ui_default_resources;
              volume_mounts = [];
            }
            ∷ [];
        volumes = [];
      };
    }

unfoldable pub interface_service : LeilFsCluster → Service
unfolding interface_port
interface_service c = record {
  kind = or_default c.spec.web_ui.service_type (codes "ClusterIP");
  cluster_ip = [];
  selector = interface_labels c;
  ports =
      record {
        name = codes "http";
        port = interface_port c.spec.web_ui;
        target_port = interface_port c.spec.web_ui;
        protocol = [];
        node_port = pos 0;
      }
      ∷ [];
}

abbrev pub metalogger_name : LeilFsCluster → Text
metalogger_name c = c.name ++ codes "-metalogger"

abbrev pub metalogger_set_key : LeilFsCluster → Key
metalogger_set_key c = in_namespace c stateful_set (metalogger_name c)

abbrev pub metalogger_service_key : LeilFsCluster → Key
metalogger_service_key c = in_namespace c service (metalogger_name c)

abbrev metalogger_labels : LeilFsCluster → TextMap Text
metalogger_labels c =
    (codes "app.kubernetes.io/name", codes "leilfs-metalogger")
    ∷ (codes "app.kubernetes.io/instance", c.name)
    ∷ (codes "app.kubernetes.io/component", codes "metalogger")
    ∷ []

unfoldable pub metalogger_service : LeilFsCluster → Service
metalogger_service c = record {
  kind = [];
  cluster_ip = codes "None";
  selector = metalogger_labels c;
  ports =
      record {
        name = codes "metalogger";
        port = pos 9419;
        target_port = pos 0;
        protocol = codes "TCP";
        node_port = pos 0;
      }
      ∷ [];
}

-- `is_zero` is Quantity.IsZero, which also holds of a quantity that is not set.
abbrev pub storage_size : (Text → Bool) → Option MasterStorageSpec → Text
storage_size is_zero none = codes "5Gi"
storage_size is_zero (some st) = if is_zero st.size then codes "5Gi" else st.size

abbrev pub storage_class : Option MasterStorageSpec → Option Text
storage_class none = none
storage_class (some st) =
    if is_empty st.storage_class_name then none else some st.storage_class_name

unfoldable pub metalogger_claim : (Text → Bool) → MetaloggerSpec → Claim
metalogger_claim is_zero ml = record {
  labels = [];
  access_modes = codes "ReadWriteOnce" ∷ [];
  storage_class_name = storage_class ml.metadata_storage;
  volume_name = [];
  storage = storage_size is_zero ml.metadata_storage;
}

unfoldable pub metalogger_init_command : LeilFsCluster → Text
metalogger_init_command c =
    codes
      "mkdir -p /etc/saunafs /var/lib/saunafs && cp /usr/share/doc/saunafs-metalogger/examples/sfsmetalogger.cfg /etc/saunafs/sfsmetalogger.cfg 2>/dev/null || cp /usr/share/doc/saunafs-metalogger/examples/sfsmetal.cfg /etc/saunafs/sfsmetalogger.cfg && sed -i 's/^# *MASTER_HOST *= *sfsmaster/MASTER_HOST = "
    ++ (master_host c ++ codes "/' /etc/saunafs/sfsmetalogger.cfg")

abbrev metalogger_image : MetaloggerSpec → Text
metalogger_image ml =
    or_default ml.image (codes "ghcr.io/henres/leilfs-container/leilfs-metalogger:5.10.1")

unfoldable pub metalogger_stateful_set :
    (Text → Bool) → LeilFsCluster → MetaloggerSpec → ℤ → StatefulSet
unfolding metalogger_init_command metalogger_claim default_resources
metalogger_stateful_set is_zero c ml replicas = record {
  labels = [];
  replicas = some replicas;
  service_name = metalogger_name c;
  selector = metalogger_labels c;
  template = record {
    labels = metalogger_labels c;
    node_name = [];
    node_selector = ml.node_selector;
    tolerations = ml.tolerations;
    host_network = false;
    dns_policy = [];
    init_containers =
        record {
          name = codes "init-config";
          image = metalogger_image ml;
          image_pull_policy = codes "IfNotPresent";
          command = codes "sh" ∷ codes "-c" ∷ metalogger_init_command c ∷ [];
          ports = [];
          resources = record { requests = []; limits = [] };
          volume_mounts = cfg_mount ∷ [];
        }
        ∷ [];
    containers =
        record {
          name = codes "leilfs-metalogger";
          image = metalogger_image ml;
          image_pull_policy = codes "IfNotPresent";
          command = [];
          ports = [];
          resources = default_resources ml.resources metalogger_default_resources;
          volume_mounts =
              cfg_mount
              ∷ record { name = codes "metalogger-data"; mount_path = codes "/var/lib/saunafs" }
              ∷ [];
        }
        ∷ [];
    volumes = cfg_volume ∷ [];
  };
  volume_claim_templates = (codes "metalogger-data", metalogger_claim is_zero ml) ∷ [];
  ready_replicas = pos 0;
}

abbrev wanted_replicas : MetaloggerSpec → ℤ
wanted_replicas ml = elim ml.replicas [ some n ↦ n | none ↦ pos 0 ]

-- The section, and the number of replicas that it asks for, when that is not 0.
unfoldable pub wanted_metaloggers : LeilFsCluster → Option (MetaloggerSpec × ℤ)
wanted_metaloggers c = elim c.spec.metalogger [
  | none ↦ none
  | some ml ↦ if is_zero_ℤ (wanted_replicas ml) then none else some (ml, wanted_replicas ml)
]

module _ {S : Type 0} (api : Server S) where
  unfoldable pub reconcile_interface : LeilFsCluster → Action S (Unit {0})
  unfolding interface_deployment interface_service merge_deployment for_each delete_if_found
  reconcile_interface c =
      if is_set c.spec.web_ui.enabled
      then create_or_update api c (interface_deployment_key c) (interface_deployment c)
          (merge_deployment (interface_deployment c))
        >> create_or_update api c (interface_service_key c) (interface_service c)
            (merge_service (interface_service c))
      else for_each (delete_if_found api)
          (interface_deployment_key c ∷ interface_service_key c ∷ [])

  unfoldable pub reconcile_metaloggers : LeilFsCluster → Action S (Unit {0})
  unfolding wanted_metaloggers metalogger_service metalogger_stateful_set merge_stateful_set
      for_each delete_if_found
  reconcile_metaloggers c = elim (wanted_metaloggers c) [
    | none ↦ for_each (delete_if_found api) (metalogger_set_key c ∷ metalogger_service_key c ∷ [])
    | some (ml, replicas) ↦
        create_or_update api c (metalogger_service_key c) (metalogger_service c)
          (merge_headless (metalogger_service c))
        >> create_or_update api c (metalogger_set_key c)
            (metalogger_stateful_set api.is_zero_quantity c ml replicas)
            (merge_stateful_set (metalogger_stateful_set api.is_zero_quantity c ml replicas))
  ]
