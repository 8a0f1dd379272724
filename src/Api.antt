-- ===== src/Api.antt =====
-- api/v1alpha1/leilfscluster_types.go: the LeilFSCluster resource. A quantity is the text that it was
-- given as (empty: zero), and a duration is a number of nanoseconds.
use leilfs_operator.Base.{ℕ, Bool, List, Option}
use leilfs_operator.Base.Int.{ℤ}
use leilfs_operator.Text.{Text}
use leilfs_operator.Text.Maps.{TextMap}

-- corev1.ResourceRequirements
pub record ResourceRequirements : Type 0 where
  pub requests : TextMap Text
  pub limits : TextMap Text

-- corev1.Toleration, less its seconds
pub record Toleration : Type 0 where
  pub key : Text
  pub operator : Text
  pub value : Text
  pub effect : Text

pub record NamedPort : Type 0 where
  pub name : Text
  pub container_port : ℤ

pub record MountPath : Type 0 where
  pub path : Text
  pub host_path : Text
  pub claim_name : Text
  pub storage_class_name : Text
  pub size : Text

pub record ChunkServerSpec : Type 0 where
  pub name : Text
  pub image : Text
  pub node_name : Text
  pub label : Text
  pub mount_paths : List MountPath
  pub tolerations : List Toleration
  pub resources : ResourceRequirements

pub record ChunkAutoDiscoverSpec : Type 0 where
  pub enabled : Bool
  pub pv_label_selector : TextMap Text
  pub tolerations : List Toleration
  pub resources : ResourceRequirements

pub record ChunkSpec : Type 0 where
  pub image : Text
  pub ports : List NamedPort
  pub servers : List ChunkServerSpec
  pub auto_discover : Option ChunkAutoDiscoverSpec

pub record EcSpec : Type 0 where
  pub data_parts : ℤ
  pub parity_parts : ℤ

pub record GoalSpec : Type 0 where
  pub id : ℤ
  pub name : Text
  pub replication : Option ℤ
  pub ec : Option EcSpec
  pub node_labels : List Text
  pub default : Bool

pub record MasterStorageSpec : Type 0 where
  pub storage_class_name : Text
  pub size : Text

pub record ExporterSpec : Type 0 where
  pub enabled : Option Bool
  pub image : Text
  pub scrape_timeout : Option ℕ
  pub resources : ResourceRequirements

pub record MasterSpec : Type 0 where
  pub image : Text
  pub node_selector : TextMap Text
  pub tolerations : List Toleration
  pub resources : ResourceRequirements
  pub service_type : Text
  pub ports : List NamedPort
  pub metadata_storage : Option MasterStorageSpec
  pub startup_grace_period : Option ℕ
  pub exporter : Option ExporterSpec

pub record ShadowSpec : Type 0 where
  pub replicas : Option ℤ
  pub image : Text
  pub metadata_storage : Option MasterStorageSpec
  pub node_selector : TextMap Text
  pub tolerations : List Toleration
  pub resources : ResourceRequirements

pub record MetaloggerSpec : Type 0 where
  pub replicas : Option ℤ
  pub image : Text
  pub metadata_storage : Option MasterStorageSpec
  pub node_selector : TextMap Text
  pub tolerations : List Toleration
  pub resources : ResourceRequirements

pub record CsiSpec : Type 0 where
  pub enabled : Option Bool
  pub driver_name : Text
  pub image : Text

pub record WebUiSpec : Type 0 where
  pub enabled : Option Bool
  pub image : Text
  pub replicas : Option ℤ
  pub port : ℤ
  pub service_type : Text
  pub node_selector : TextMap Text
  pub tolerations : List Toleration
  pub resources : ResourceRequirements

pub record ExposeSpec : Type 0 where
  pub enabled : Option Bool
  pub client_node_port : ℤ
  pub admin_node_port : ℤ

pub record NfsSpec : Type 0 where
  pub enabled : Option Bool
  pub image : Text
  pub replicas : Option ℤ
  pub node_port : ℤ
  pub service_type : Text
  pub export_path : Text
  pub squash : Text
  pub node_selector : TextMap Text
  pub tolerations : List Toleration
  pub resources : ResourceRequirements

pub record LeilFsClusterSpec : Type 0 where
  pub master : MasterSpec
  pub shadow : Option ShadowSpec
  pub chunk : ChunkSpec
  pub metalogger : Option MetaloggerSpec
  pub goals : List GoalSpec
  pub csi : CsiSpec
  pub web_ui : WebUiSpec
  pub expose : ExposeSpec
  pub nfs : NfsSpec

-- metav1.Condition, less the time of its last transition.
pub record Condition : Type 0 where
  pub kind : Text
  pub status : Text
  pub reason : Text
  pub message : Text
  pub observed_generation : ℕ

pub record LeilFsClusterStatus : Type 0 where
  pub conditions : List Condition
  pub ready_chunk_servers : ℕ
  pub total_chunk_servers : ℕ
  pub ready_metaloggers : ℤ
  pub active_master : Text
  pub ready_shadows : ℕ

-- `deleting` is whether the deletion timestamp is set.
pub record LeilFsCluster : Type 0 where
  pub name : Text
  pub namespace : Text
  pub generation : ℕ
  pub finalizers : List Text
  pub deleting : Bool
  pub spec : LeilFsClusterSpec
  pub status : LeilFsClusterStatus
