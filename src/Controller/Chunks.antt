-- ===== src/Controller/Chunks.antt =====
-- internal/controller/leilfscluster_controller.go: reconcileChunkServers and the three objects of
-- one chunk server.
pub mod Keys
pub mod Deployed
use leilfs_operator.Base.{
  ℕ, Bool, true, false, List, [], ◌∷◌, ◌++◌, Option, none, some, if◌then◌else◌,
}
use leilfs_operator.Base.Int.{ℤ, pos}
use leilfs_operator.Text.{Text, codes, is_empty}
use leilfs_operator.Text.Maps.{TextMap}
use leilfs_operator.Api.{MountPath, ChunkServerSpec, LeilFsCluster}
use leilfs_operator.Controller.Objects.{
  ServicePort, Service, ConfigMap, VolumeMount, Volume, VolumeSource, empty_dir, Container,
  PodTemplate, StatefulSet,
}
use leilfs_operator.Controller.Kube.{
  Key, service, config_map, stateful_set, Server, Action, in_context, create_or_update, for_each,
  ◌>>◌, ◌>>=◌,
}
use leilfs_operator.Controller.Defaults.{
  default_resources, chunk_default_resources, in_namespace, master_host, expose_enabled,
  chunk_dns_policy, or_default,
}
use leilfs_operator.Controller.StatefulSets.{merge_stateful_set}
use leilfs_operator.Controller.Volumes.{build_chunk_volumes, chunk_container_ports}

-- <cluster>-chunk-<server>
abbrev pub chunk_name : LeilFsCluster → Text → Text
chunk_name c server = c.name ++ (codes "-chunk-" ++ server)

abbrev pub chunk_labels : LeilFsCluster → Text → TextMap Text
chunk_labels c server =
    (codes "app.kubernetes.io/name", codes "leilfs-chunkserver")
    ∷ (codes "app.kubernetes.io/instance", c.name)
    ∷ (codes "leilfs.io/chunk-server", server)
    ∷ []

unfoldable pub chunk_headless_service : LeilFsCluster → ChunkServerSpec → Service
chunk_headless_service c srv = record {
  kind = [];
  cluster_ip = codes "None";
  selector = chunk_labels c srv.name;
  ports =
      record {
        name = codes "data";
        port = pos 9422;
        target_port = pos 0;
        protocol = codes "TCP";
        node_port = pos 0;
      }
      ∷ [];
}

-- The cluster IP cannot be changed, so the selector and the ports are.
abbrev pub merge_headless : Service → Service → Service
merge_headless desired old = record old { selector = desired.selector; ports = desired.ports }

abbrev pub headless_key : LeilFsCluster → Text → Key
headless_key c server = in_namespace c service (chunk_name c server)

abbrev pub hdd_key : LeilFsCluster → Text → Key
hdd_key c server = in_namespace c config_map (chunk_name c server ++ codes "-hdd")

abbrev pub set_key : LeilFsCluster → Text → Key
set_key c server = in_namespace c stateful_set (chunk_name c server)

-- One line for each mount path.
unfoldable pub hdd_lines : List MountPath → Text
hdd_lines [] = []
hdd_lines (mp ∷ mps) = mp.path ++ (10 ∷ hdd_lines mps)

unfoldable pub hdd_config_map : ChunkServerSpec → ConfigMap
unfolding hdd_lines
hdd_config_map srv = record {
  data_of =
      (
        codes "sfshdd.cfg",
        codes "# sfshdd.cfg — generated by leilfs-operator (do not edit manually)"
            ++ (10 ∷ hdd_lines srv.mount_paths),
      )
      ∷ [];
}

abbrev pub merge_config_map : ConfigMap → ConfigMap → ConfigMap
merge_config_map desired old = record old { data_of = desired.data_of }

-- The server's image, the chunk section's, or the default.
unfoldable pub chunk_image : LeilFsCluster → ChunkServerSpec → Text
chunk_image c srv =
    or_default (or_default srv.image c.spec.chunk.image)
      (codes "ghcr.io/henres/leilfs-container/leilfs-chunkserver:5.10.1")

unfoldable pub chunk_init_command : LeilFsCluster → ChunkServerSpec → Text
chunk_init_command c srv =
    codes
      "mkdir -p /etc/saunafs && cp /usr/share/doc/saunafs-chunkserver/examples/sfschunkserver.cfg /etc/saunafs/sfschunkserver.cfg && sed -i 's/^# *MASTER_HOST *= *sfsmaster/MASTER_HOST = "
    ++ (master_host c
        ++ (codes "/' /etc/saunafs/sfschunkserver.cfg"
            ++ (if is_empty srv.label
                then []
                else codes " && echo 'LABEL = "
                  ++ (srv.label ++ codes "' >> /etc/saunafs/sfschunkserver.cfg"))))

abbrev pub cfg_volume : Volume
cfg_volume = record { name = codes "leilfs-cfg"; source = empty_dir }

abbrev pub cfg_mount : VolumeMount
cfg_mount = record { name = codes "leilfs-cfg"; mount_path = codes "/etc/saunafs" }

unfoldable pub chunk_pod_template : LeilFsCluster → ChunkServerSpec → PodTemplate
unfolding chunk_image chunk_init_command build_chunk_volumes chunk_container_ports default_resources
    expose_enabled chunk_dns_policy
chunk_pod_template c srv =
    let (mounts, volumes) = build_chunk_volumes srv in
    record {
      labels = chunk_labels c srv.name;
      node_name = srv.node_name;
      node_selector = [];
      tolerations = srv.tolerations;
      host_network = expose_enabled c;
      dns_policy = chunk_dns_policy c;
      init_containers =
          record {
            name = codes "init-config";
            image = chunk_image c srv;
            image_pull_policy = codes "IfNotPresent";
            command = codes "sh" ∷ codes "-c" ∷ chunk_init_command c srv ∷ [];
            ports = [];
            resources = record { requests = []; limits = [] };
            volume_mounts = cfg_mount ∷ [];
          }
          ∷ [];
      containers =
          record {
            name = codes "leilfs-chunkserver";
            image = chunk_image c srv;
            image_pull_policy = codes "IfNotPresent";
            command = [];
            ports = chunk_container_ports c;
            resources = default_resources srv.resources chunk_default_resources;
            volume_mounts = mounts ++ cfg_mount ∷ [];
          }
          ∷ [];
      volumes = volumes ++ cfg_volume ∷ [];
    }

unfoldable pub chunk_stateful_set : LeilFsCluster → ChunkServerSpec → StatefulSet
unfolding chunk_pod_template
chunk_stateful_set c srv = record {
  labels = chunk_labels c srv.name;
  replicas = some (pos 1);
  service_name = chunk_name c srv.name;
  selector = chunk_labels c srv.name;
  template = chunk_pod_template c srv;
  volume_claim_templates = [];
  ready_replicas = pos 0;
}

module _ {S : Type 0} (api : Server S) where
  unfoldable pub reconcile_chunk_headless_service :
      LeilFsCluster → ChunkServerSpec → Action S (Unit {0})
  unfolding chunk_headless_service
  reconcile_chunk_headless_service c srv =
      create_or_update api c (headless_key c srv.name) (chunk_headless_service c srv)
        (merge_headless (chunk_headless_service c srv))

  unfoldable pub reconcile_chunk_hdd_config_map :
      LeilFsCluster → ChunkServerSpec → Action S (Unit {0})
  unfolding hdd_config_map
  reconcile_chunk_hdd_config_map c srv =
      create_or_update api c (hdd_key c srv.name) (hdd_config_map srv)
        (merge_config_map (hdd_config_map srv))

  unfoldable pub reconcile_chunk_stateful_set :
      LeilFsCluster → ChunkServerSpec → Action S (Unit {0})
  unfolding chunk_stateful_set merge_stateful_set
  reconcile_chunk_stateful_set c srv =
      create_or_update api c (set_key c srv.name) (chunk_stateful_set c srv)
        (merge_stateful_set (chunk_stateful_set c srv))

  -- The body of the loop: the texts are those in front of the errors.
  unfoldable pub reconcile_chunk_server :
      Text → LeilFsCluster → ChunkServerSpec → Action S (Unit {0})
  reconcile_chunk_server context c srv = do
    in_context (context ++ (srv.name ++ codes " headless service"))
        (reconcile_chunk_headless_service c srv)
    in_context (context ++ (srv.name ++ codes " hdd configmap"))
        (reconcile_chunk_hdd_config_map c srv)
    in_context (context ++ srv.name) (reconcile_chunk_stateful_set c srv)

  unfoldable pub reconcile_chunk_servers : LeilFsCluster → Action S (Unit {0})
  unfolding reconcile_chunk_server
  reconcile_chunk_servers c =
      for_each (reconcile_chunk_server (codes "chunk server ") c) c.spec.chunk.servers
