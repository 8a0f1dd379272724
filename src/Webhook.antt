-- ===== src/Webhook.antt =====
-- api/v1alpha1/leilfscluster_webhook.go: the validating webhook. An error is a value that carries
-- its field path, the value and what the message names.
pub mod Names
pub mod Mounts
pub mod Storage
pub mod Ports
pub mod Verdict
use leilfs_operator.Base.{
  ℕ, zero, suc, Bool, true, false, ◌||◌, List, [], ◌∷◌, ◌++◌, Option, none, some, ltb,
  if◌then◌else◌,
}
use leilfs_operator.Base.Int.{ℤ, pos, ltb_ℤ, is_zero_ℤ}
use leilfs_operator.Text.{Text, is_empty}
use leilfs_operator.Text.Maps.{TextMap, lookup, insert}
use leilfs_operator.Api.{MountPath, ChunkServerSpec, LeilFsCluster}

pub record MountRef : Type 0 where
  pub server_idx : ℕ
  pub mount_idx : ℕ

-- spec.chunk.servers[i].name and the like.
pub data FieldPath : Type 0 where
  server_name : ℕ → FieldPath
  host_path claim_name : ℕ → ℕ → FieldPath
  client_node_port admin_node_port nfs_node_port : FieldPath

pub data FieldError : Type 0 where
  -- the name, and the index of the server that has it
  duplicate_name : FieldPath → Text → ℕ → FieldError
  -- the path or claim, and the entry of the same server that has it
  duplicate_in_server : FieldPath → Text → MountRef → FieldError
  -- the path or claim, and the entry of another server that has it
  duplicate_across : FieldPath → Text → MountRef → FieldError
  invalid_node_port : FieldPath → ℤ → FieldError

-- The loop of validateChunkServerNames: `seen` is firstSeenAt.
unfoldable pub check_names : TextMap ℕ → ℕ → List ChunkServerSpec → List FieldError
check_names seen i [] = []
check_names seen i (srv ∷ servers) = elim (lookup srv.name seen) [
  | some j ↦ duplicate_name (server_name i) srv.name j ∷ check_names seen (suc i) servers
  | none ↦ check_names (insert srv.name i seen) (suc i) servers
]

unfoldable pub validate_chunk_server_names : List ChunkServerSpec → List FieldError
unfolding check_names
validate_chunk_server_names servers = check_names [] 0 servers

-- The maps of one kind of storage: those of the server at hand, and the first owners of all.
pub record Owners : Type 0 where
  pub in_server : TextMap ℕ
  pub owners : TextMap MountRef

-- What the loop does for HostPath and for ClaimName: `value` is looked up among the server's own,
-- and `key` among the owners.
unfoldable pub check_storage :
    FieldPath → Text → Text → MountRef → Owners → List FieldError × Owners
check_storage at value key ref o =
    if is_empty value then ([], o) else elim (lookup value o.in_server) [
      | some k ↦ (
        duplicate_in_server at value (record { server_idx = ref.server_idx; mount_idx = k }) ∷ [],
        o,
      )
      | none ↦
          let in_server = insert value ref.mount_idx o.in_server in
          elim (lookup key o.owners) [
            | some owner ↦
                (duplicate_across at value owner ∷ [], record o { in_server = in_server })
            | none ↦ ([], record { in_server = in_server; owners = insert key ref o.owners })
          ]
    ]

-- NodeName + "\x00" + HostPath
abbrev pub host_key : Text → Text → Text
host_key node path = node ++ (0 ∷ path)

-- The loop over one server's mountPaths; the owners of host paths and of claims come back beside
-- the errors.
unfoldable pub check_mounts :
    Text → ℕ → ℕ → Owners → Owners → List MountPath → List FieldError × Owners × Owners
unfolding check_storage
check_mounts node i j hosts claims [] = ([], hosts, claims)
check_mounts node i j hosts claims (mp ∷ mps) =
    let ref : MountRef = record { server_idx = i; mount_idx = j } in
    let (host_errs, hosts') =
      check_storage (host_path i j) mp.host_path (host_key node mp.host_path) ref hosts in
    let (claim_errs, claims') =
      check_storage (claim_name i j) mp.claim_name mp.claim_name ref claims in
    let (errs, hosts'', claims'') = check_mounts node i (suc j) hosts' claims' mps in
    (host_errs ++ (claim_errs ++ errs), hosts'', claims'')

-- Each server starts with empty maps of its own.
abbrev pub next_server : Owners → Owners
next_server o = record o { in_server = [] }

unfoldable pub check_servers : ℕ → Owners → Owners → List ChunkServerSpec → List FieldError
unfolding check_mounts
check_servers i hosts claims [] = []
check_servers i hosts claims (srv ∷ servers) =
    let (errs, hosts', claims') =
      check_mounts srv.node_name i 0 (next_server hosts) (next_server claims) srv.mount_paths in
    errs ++ check_servers (suc i) hosts' claims' servers

abbrev pub no_owners : Owners
no_owners = record { in_server = []; owners = [] }

unfoldable pub validate_chunk_server_mount_paths : List ChunkServerSpec → List FieldError
unfolding check_servers
validate_chunk_server_mount_paths servers = check_servers 0 no_owners no_owners servers

abbrev pub node_port_range_min : ℕ
node_port_range_min = 30000

abbrev pub node_port_range_max : ℕ
node_port_range_max = 32767

-- The closure `check` of validateNodePorts.
unfoldable pub check_node_port : ℤ → FieldPath → List FieldError
check_node_port value at =
    if is_zero_ℤ value
    then []
    else if ltb_ℤ value (pos node_port_range_min) || ltb_ℤ (pos node_port_range_max) value
    then invalid_node_port at value ∷ []
    else []

unfoldable pub validate_node_ports : LeilFsCluster → List FieldError
unfolding check_node_port
validate_node_ports c =
    check_node_port c.spec.expose.client_node_port client_node_port
    ++ (check_node_port c.spec.expose.admin_node_port admin_node_port
        ++ check_node_port c.spec.nfs.node_port nfs_node_port)

-- `none` is acceptance, and an error lists every violation.
abbrev pub refuse : List FieldError → Option (List FieldError)
refuse [] = none
refuse (e ∷ es) = some (e ∷ es)

unfoldable pub validate_leilfs_cluster : LeilFsCluster → Option (List FieldError)
validate_leilfs_cluster c = refuse (
    validate_chunk_server_names c.spec.chunk.servers
    ++ (validate_chunk_server_mount_paths c.spec.chunk.servers ++ validate_node_ports c))
