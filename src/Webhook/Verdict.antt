-- ===== src/Webhook/Verdict.antt =====
-- api/v1alpha1/leilfscluster_webhook.go: validateLeilFSCluster, what it accepts.
use leilfs_operator.Base.{true, List, [], ◌∷◌, ◌++◌, none, ◌≡◌, ◌↔◌, refl, arith}
use leilfs_operator.Text.{is_empty}
use leilfs_operator.Text.Distinct.{Distinct}
use leilfs_operator.Api.{LeilFsCluster}
use leilfs_operator.Webhook.{
  FieldError, refuse, validate_chunk_server_names, validate_chunk_server_mount_paths,
  validate_node_ports, validate_leilfs_cluster,
}
use leilfs_operator.Webhook.Names.{names, validate_chunk_server_names_iff}
use leilfs_operator.Webhook.Mounts.{is_empty-append}
use leilfs_operator.Webhook.Storage.{
  NodesHaveNoNul, host_mounts, claims_of, validate_chunk_server_mount_paths_iff,
}
use leilfs_operator.Webhook.Ports.{IsNodePort, validate_node_ports_iff}

-- What a cluster must satisfy to be admitted.
pub record Admissible (c : LeilFsCluster) : Type 0 where
  pub names_differ : Distinct (names c.spec.chunk.servers)
  pub directories_differ : Distinct (host_mounts c.spec.chunk.servers)
  pub claims_differ : Distinct (claims_of c.spec.chunk.servers)
  pub client_port : IsNodePort c.spec.expose.client_node_port
  pub admin_port : IsNodePort c.spec.expose.admin_node_port
  pub nfs_port : IsNodePort c.spec.nfs.node_port

refuse-none : (es : List FieldError) → (refuse es ≡ none) ↔ (is_empty es ≡ true)
refuse-none [] = (λ _. refl, λ _. refl)
refuse-none (e ∷ es) = (λ h. absurd (cc), λ h. absurd (cc))

-- The webhook admits a cluster exactly when its chunk servers have different
-- names, no directory of a node and no claim is mounted twice, and every node port is 0 or within
-- Kubernetes' range, if no node's name holds a NUL.
pub validate_leilfs_cluster_iff :
    (c : LeilFsCluster)
    → NodesHaveNoNul c.spec.chunk.servers
    → (validate_leilfs_cluster c ≡ none) ↔ Admissible c
unfolding validate_leilfs_cluster
validate_leilfs_cluster_iff c nul_free =
    let servers = c.spec.chunk.servers in
    let ns = validate_chunk_server_names servers in
    let ms = validate_chunk_server_mount_paths servers in
    let ps = validate_node_ports c in
    let accepted = refuse-none (ns ++ (ms ++ ps)) in
    let first = is_empty-append ns (ms ++ ps) in
    let second = is_empty-append ms ps in
    let names_iff = validate_chunk_server_names_iff servers in
    let mounts_iff = validate_chunk_server_mount_paths_iff servers nul_free in
    let ports_iff = validate_node_ports_iff c in
    (
      λ h.
          let all_empty : is_empty (ns ++ (ms ++ ps)) ≡ true = accepted.0 h in
          let mounts = mounts_iff.0 (ground (arith, all_empty, first, second)) in
          let ports = ports_iff.0 (ground (arith, all_empty, first, second)) in
          record {
            names_differ = names_iff.0 (ground (arith, all_empty, first, second));
            directories_differ = mounts.0;
            claims_differ = mounts.1;
            client_port = ports.0;
            admin_port = ports.1;
            nfs_port = ports.2;
          },
      λ a.
          let n : is_empty ns ≡ true = names_iff.1 a.names_differ in
          let m : is_empty ms ≡ true = mounts_iff.1 (a.directories_differ, a.claims_differ) in
          let p : is_empty ps ≡ true = ports_iff.1 (a.client_port, a.admin_port, a.nfs_port) in
          accepted.1 (ground (arith, first, second, n, m, p)),
    )
