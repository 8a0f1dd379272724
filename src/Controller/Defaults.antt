-- ===== src/Controller/Defaults.antt =====
-- internal/controller/leilfscluster_controller.go: default resources and the names of a cluster's
-- objects.
use leilfs_operator.Base.{Bool, false, not, ◌||◌, [], ◌∷◌, ◌++◌, Option, none, some, if◌then◌else◌}
use leilfs_operator.Text.{Text, codes, is_empty}
use leilfs_operator.Api.{ResourceRequirements, LeilFsCluster}
use leilfs_operator.Controller.Kube.{Kind, Key}

unfoldable pub default_resources :
    ResourceRequirements → ResourceRequirements → ResourceRequirements
default_resources r defaults =
    if not (is_empty r.requests) || not (is_empty r.limits) then r else defaults

abbrev requirements : Text → Text → Text → Text → ResourceRequirements
requirements cpu memory max_cpu max_memory = record {
  requests = (codes "cpu", cpu) ∷ (codes "memory", memory) ∷ [];
  limits = (codes "cpu", max_cpu) ∷ (codes "memory", max_memory) ∷ [];
}

abbrev pub chunk_default_resources : ResourceRequirements
chunk_default_resources = requirements (codes "100m") (codes "256Mi") (codes "2000m") (codes "1Gi")

abbrev pub metalogger_default_resources : ResourceRequirements
metalogger_default_resources =
    requirements (codes "50m") (codes "128Mi") (codes "200m") (codes "512Mi")

abbrev pub web_ui_default_resources : ResourceRequirements
web_ui_default_resources = requirements (codes "10m") (codes "64Mi") (codes "200m") (codes "128Mi")

-- The key of an object in the cluster's namespace.
abbrev pub in_namespace : LeilFsCluster → Kind → Text → Key
in_namespace c kind name = record { kind = kind; namespace = c.namespace; name = name }

-- The DNS name of the master service.
abbrev pub master_host : LeilFsCluster → Text
master_host c = c.name ++ (codes "-master." ++ (c.namespace ++ codes ".svc.cluster.local"))

unfoldable pub expose_enabled : LeilFsCluster → Bool
expose_enabled c = elim c.spec.expose.enabled [ some b ↦ b | none ↦ false ]

unfoldable pub chunk_dns_policy : LeilFsCluster → Text
unfolding expose_enabled
chunk_dns_policy c =
    if expose_enabled c then codes "ClusterFirstWithHostNet" else codes "ClusterFirst"

-- Whether an optional flag is set: `p != nil && *p`.
abbrev pub is_set : Option Bool → Bool
is_set none = false
is_set (some b) = b

abbrev pub or_default : Text → Text → Text
or_default s default = if is_empty s then default else s
