-- ===== src/Webhook/Ports.antt =====
-- api/v1alpha1/leilfscluster_webhook.go: validateNodePorts.
use leilfs_operator.Base.{true, ◌++◌, ◌≡◌, ◌↔◌, ◌⊎◌, arith}
use leilfs_operator.Base.Int.{ℤ, pos, negsuc, ◌≤ℤ◌}
use leilfs_operator.Text.{is_empty}
use leilfs_operator.Api.{LeilFsCluster}
use leilfs_operator.Webhook.{
  FieldPath, client_node_port, admin_node_port, nfs_node_port, check_node_port, validate_node_ports,
  node_port_range_min, node_port_range_max,
}
use leilfs_operator.Webhook.Mounts.{is_empty-append}

-- 0 leaves the choice to Kubernetes.
abbrev pub IsNodePort : ℤ → Type 0
IsNodePort v = (v ≡ pos 0) ⊎ ((pos node_port_range_min ≤ℤ v) × (v ≤ℤ pos node_port_range_max))

check_node_port_iff :
    (v : ℤ) (at : FieldPath) → (is_empty (check_node_port v at) ≡ true) ↔ IsNodePort v
unfolding check_node_port
check_node_port_iff (pos n) at = (λ h. ground arith, λ h. ground arith)
check_node_port_iff (negsuc n) at = (λ h. ground arith, λ h. ground arith)

-- The ports pass exactly when each of the three is 0 or lies within Kubernetes' range, its ends
-- included.
pub validate_node_ports_iff :
    (c : LeilFsCluster)
    → (is_empty (validate_node_ports c) ≡ true) ↔ (
        IsNodePort c.spec.expose.client_node_port
        × IsNodePort c.spec.expose.admin_node_port
        × IsNodePort c.spec.nfs.node_port)
unfolding validate_node_ports
validate_node_ports_iff c =
    let client = check_node_port c.spec.expose.client_node_port client_node_port in
    let admin = check_node_port c.spec.expose.admin_node_port admin_node_port in
    let nfs = check_node_port c.spec.nfs.node_port nfs_node_port in
    let both = is_empty-append client (admin ++ nfs) in
    let last = is_empty-append admin nfs in
    let client_iff = check_node_port_iff c.spec.expose.client_node_port client_node_port in
    let admin_iff = check_node_port_iff c.spec.expose.admin_node_port admin_node_port in
    let nfs_iff = check_node_port_iff c.spec.nfs.node_port nfs_node_port in
    (
      λ h. (
        client_iff.0 (ground (arith, both, last, h)),
        admin_iff.0 (ground (arith, both, last, h)),
        nfs_iff.0 (ground (arith, both, last, h)),
      ),
      λ (a, b, d). ground (arith, both, last, client_iff.1 a, admin_iff.1 b, nfs_iff.1 d),
    )
