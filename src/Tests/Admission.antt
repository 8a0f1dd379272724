-- ===== src/Tests/Admission.antt =====
-- The webhook on two chunk servers that mount the same directory on different nodes.
use leilfs_operator.Base.{List, [], ◌∷◌, ◌++◌, none, some, ◌≡◌, ◌↔◌, refl, arith, All, true}
use leilfs_operator.Base.Int.{pos}
use leilfs_operator.Text.{codes, is_empty, text_eq}
use leilfs_operator.Text.Distinct.{Distinct}
use leilfs_operator.Text.Maps.{lookup, insert}
use leilfs_operator.Api.{ChunkServerSpec}
use leilfs_operator.Webhook.{
  invalid_node_port, nfs_node_port, validate_leilfs_cluster, validate_chunk_server_names,
  validate_chunk_server_mount_paths, validate_node_ports, duplicate_name, server_name,
}
use leilfs_operator.Webhook.Names.{
  names, Names, validate_chunk_server_names_iff, validate_chunk_server_names_errors,
}
use leilfs_operator.Webhook.Storage.{
  NodesHaveNoNul, host_mounts, claims_of, validate_chunk_server_mount_paths_iff,
}
use leilfs_operator.Webhook.Ports.{IsNodePort, validate_node_ports_iff}
use leilfs_operator.Webhook.Verdict.{Admissible, validate_leilfs_cluster_iff}
use leilfs_operator.Tests.Values.{two_nodes, cluster}

two_nodes-NodesHaveNoNul : NodesHaveNoNul two_nodes
two_nodes-NodesHaveNoNul = (
  ((λ e. ground arith), ((λ e. ground arith), tt)),
  (((λ e. ground arith), ((λ e. ground arith), tt)), tt),
)

validate_leilfs_cluster_iff_example :
    (validate_leilfs_cluster (cluster two_nodes (pos 32767)) ≡ none)
    ↔ Admissible (cluster two_nodes (pos 32767))
validate_leilfs_cluster_iff_example =
    validate_leilfs_cluster_iff (cluster two_nodes (pos 32767)) two_nodes-NodesHaveNoNul

validate_chunk_server_mount_paths_iff_example :
    (is_empty (validate_chunk_server_mount_paths two_nodes) ≡ true)
    ↔ (Distinct (host_mounts two_nodes) × Distinct (claims_of two_nodes))
validate_chunk_server_mount_paths_iff_example =
    validate_chunk_server_mount_paths_iff two_nodes two_nodes-NodesHaveNoNul

validate_chunk_server_names_iff_example :
    (is_empty (validate_chunk_server_names two_nodes) ≡ true) ↔ Distinct (names two_nodes)
validate_chunk_server_names_iff_example = validate_chunk_server_names_iff two_nodes

abbrev twice : List ChunkServerSpec
twice = two_nodes ++ two_nodes

validate_chunk_server_names_errors_example :
    All (Names (names twice)) (validate_chunk_server_names twice)
validate_chunk_server_names_errors_example = validate_chunk_server_names_errors twice

validate_node_ports_iff_example :
    (is_empty (validate_node_ports (cluster [] (pos 29999))) ≡ true)
    ↔ (IsNodePort (pos 30000) × IsNodePort (pos 0) × IsNodePort (pos 29999))
validate_node_ports_iff_example = validate_node_ports_iff (cluster [] (pos 29999))

two_nodes_pass : validate_leilfs_cluster (cluster two_nodes (pos 32767)) ≡ none
unfolding validate_leilfs_cluster validate_chunk_server_names validate_chunk_server_mount_paths
    validate_node_ports lookup insert text_eq
two_nodes_pass = refl

twice_fails :
    validate_chunk_server_names twice
    ≡ duplicate_name (server_name 2) (codes "a") 0
      ∷ duplicate_name (server_name 3) (codes "b") 1
      ∷ []
unfolding validate_chunk_server_names lookup insert text_eq
twice_fails = refl

low_port_fails :
    validate_leilfs_cluster (cluster two_nodes (pos 29999))
    ≡ some (invalid_node_port nfs_node_port (pos 29999) ∷ [])
unfolding validate_leilfs_cluster validate_chunk_server_names validate_chunk_server_mount_paths
    validate_node_ports lookup insert text_eq
low_port_fails = refl
