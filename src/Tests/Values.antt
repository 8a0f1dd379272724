-- ===== src/Tests/Values.antt =====
-- Concrete file systems and clusters, and Boolean tests for what the theorems ask of them.
use leilfs_operator.Base.{
  ℕ, Bool, true, false, not, ◌&&◌, List, [], ◌∷◌, none, some, ◌≡◌, arith, All, leb,
}
use leilfs_operator.Base.Int.{ℤ, pos}
use leilfs_operator.Text.{Text, codes, is_space, max_u64}
use leilfs_operator.Text.Fields.{IsWord}
use leilfs_operator.Exporter.Parser.RoundTrip.Tables.{IsU64}
use leilfs_operator.Exporter.Parser.Records.{
  Info, Chunkserver, Metadataserver, MetadataserverStatus,
}
use leilfs_operator.Exporter.Parser.Storage.{Disk, Goal, Mount}
use leilfs_operator.Exporter.Parser.RoundTrip.Health.{HealthRow}
use leilfs_operator.Api.{
  ResourceRequirements, ChunkServerSpec, ShadowSpec, MasterSpec, MetaloggerSpec, WebUiSpec, NfsSpec,
  LeilFsCluster,
}

unfoldable all_ink : Text → Bool
all_ink [] = true
all_ink (c ∷ w) = not (is_space c) && all_ink w

unfoldable pub is_word : Text → Bool
unfolding all_ink
is_word [] = false
is_word (c ∷ w) = all_ink (c ∷ w)

all_ink-All : (w : Text) → all_ink w ≡ true → All (λ c. is_space c ≡ false) w
unfolding all_ink
all_ink-All [] h = tt
all_ink-All (c ∷ w) h = (ground arith, all_ink-All w (ground arith))

pub word : (w : Text) → is_word w ≡ true → IsWord w
unfolding is_word
word [] h = absurd (cc)
word (c ∷ w) h = ((λ e. absurd (cc)), all_ink-All (c ∷ w) h)

unfoldable pub all_fit : List ℕ → Bool
all_fit [] = true
all_fit (n ∷ ns) = leb n max_u64 && all_fit ns

pub fit : (ns : List ℕ) → all_fit ns ≡ true → All IsU64 ns
unfolding all_fit
fit [] h = tt
fit (n ∷ ns) h = (ground arith, fit ns (ground arith))

abbrev pub info : Info
info = record {
  version = codes "5.4.0";
  memory_usage = 313;
  total_space = 1000;
  available_space = 900;
  trash_space = 5;
  trash_nodes = 1;
  reserved_space = 0;
  reserved_nodes = 0;
  all_nodes = 12;
  dir_nodes = 3;
  file_nodes = 8;
  symlink_nodes = 1;
  chunks = 9;
  chunk_copies = 18;
  regular_copies = 18;
}

abbrev pub gone : Chunkserver
gone = record {
  address = codes "10.0.0.7:9422";
  version = codes "-";
  chunks = 0;
  used_space = 0;
  total_space = 0;
  to_del_chunks = 0;
  to_del_used_space = 0;
  to_del_total_space = 0;
  errors = 3;
  label = codes "_";
  disconnected = true;
}

abbrev pub active : Metadataserver
active = record {
  ip = codes "10.0.0.1";
  port = 9421;
  hostname = codes "m-0";
  personality = codes "master";
  server_status = codes "running";
  metadata_version = 77;
  version = codes "5.4.0";
}

abbrev pub shadow_status : MetadataserverStatus
shadow_status = record {
  personality = codes "shadow";
  server_status = codes "connected";
  metadata_version = 76;
}

abbrev pub two_rows : List HealthRow
two_rows =
    HealthRow.rep (record { goal = codes "2"; counts = 4 ∷ 1 ∷ 0 ∷ [] })
    ∷ HealthRow.ava (record { goal = codes "2"; safe = 4; endangered = 1; lost = 0 })
    ∷ []

abbrev pub disk : Disk
disk = record {
  chunkserver_address = codes "10.0.0.7:9422";
  path = codes "/mnt/a/";
  to_delete = false;
  damaged = true;
  scanning = false;
  error_chunk_id = 6;
  error_timestamp = 1700000000;
  total = 500;
  used = 20;
  chunks = 4;
}

abbrev pub two_copies : Goal
two_copies = record { id = 2; name = codes "two"; definition = codes "_ _" }

abbrev pub mount : Mount
mount = record {
  session_id = 5;
  peer_ip = codes "10.0.0.9";
  info = codes "/mnt";
  version = codes "5.4.0";
  path = codes "/";
  root_uid = 0;
  root_gid = 0;
  map_all_uid = 999;
  map_all_gid = 999;
  read_only = false;
  restricted_ip = true;
  ignore_gid = false;
  all_can_change_quota = false;
  map_all = false;
}

abbrev no_resources : ResourceRequirements
no_resources = record { requests = []; limits = [] }

-- A chunk server with one mount path.
abbrev pub server : Text → Text → Text → Text → ChunkServerSpec
server name node host claim = record {
  name = name;
  image = [];
  node_name = node;
  label = [];
  mount_paths =
      record {
        path = codes "/mnt/a";
        host_path = host;
        claim_name = claim;
        storage_class_name = [];
        size = [];
      }
      ∷ [];
  tolerations = [];
  resources = no_resources;
}

-- Two servers with the same directory on different nodes.
abbrev pub two_nodes : List ChunkServerSpec
two_nodes =
    server (codes "a") (codes "n1") (codes "/srv") []
    ∷ server (codes "b") (codes "n2") (codes "/srv") []
    ∷ []

abbrev pub one_shadow : ShadowSpec
one_shadow = record {
  replicas = some (pos 1);
  image = [];
  metadata_storage = none;
  node_selector = [];
  tolerations = [];
  resources = no_resources;
}

abbrev pub metalogger : MetaloggerSpec
metalogger = record {
  replicas = some (pos 2);
  image = [];
  metadata_storage = none;
  node_selector = [];
  tolerations = [];
  resources = no_resources;
}

abbrev master : MasterSpec
master = record {
  image = [];
  node_selector = [];
  tolerations = [];
  resources = no_resources;
  service_type = [];
  ports = [];
  metadata_storage = none;
  startup_grace_period = none;
  exporter = none;
}

abbrev web_ui : WebUiSpec
web_ui = record {
  enabled = none;
  image = [];
  replicas = none;
  port = pos 0;
  service_type = [];
  node_selector = [];
  tolerations = [];
  resources = no_resources;
}

abbrev nfs : ℤ → NfsSpec
nfs port = record {
  enabled = none;
  image = [];
  replicas = none;
  node_port = port;
  service_type = [];
  export_path = [];
  squash = [];
  node_selector = [];
  tolerations = [];
  resources = no_resources;
}

abbrev pub cluster : List ChunkServerSpec → ℤ → LeilFsCluster
cluster servers nfs_port = record {
  name = codes "c";
  namespace = codes "ns";
  generation = 1;
  finalizers = [];
  deleting = false;
  spec = record {
    master = master;
    shadow = none;
    chunk = record { image = []; ports = []; servers = servers; auto_discover = none };
    metalogger = none;
    goals = [];
    csi = record { enabled = none; driver_name = []; image = [] };
    web_ui = web_ui;
    expose = record { enabled = none; client_node_port = pos 30000; admin_node_port = pos 0 };
    nfs = nfs nfs_port;
  };
  status = record {
    conditions = [];
    ready_chunk_servers = 0;
    total_chunk_servers = 0;
    ready_metaloggers = pos 0;
    active_master = [];
    ready_shadows = 0;
  };
}
