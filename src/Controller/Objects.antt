-- ===== src/Controller/Objects.antt =====
-- The Kubernetes objects that the operator writes, with the fields it sets
-- (internal/controller/leilfscluster_controller.go).
use leilfs_operator.Base.{ℕ, Bool, List, Option}
use leilfs_operator.Base.Int.{ℤ}
use leilfs_operator.Text.{Text}
use leilfs_operator.Text.Maps.{TextMap}
use leilfs_operator.Api.{NamedPort, Toleration, ResourceRequirements}

pub record ServicePort : Type 0 where
  pub name : Text
  pub port : ℤ
  -- 0 where none is set
  pub target_port : ℤ
  pub protocol : Text
  pub node_port : ℤ

pub record Service : Type 0 where
  pub kind : Text
  pub cluster_ip : Text
  pub selector : TextMap Text
  pub ports : List ServicePort

pub record ConfigMap : Type 0 where
  pub data_of : TextMap Text

pub record VolumeMount : Type 0 where
  pub name : Text
  pub mount_path : Text

pub data VolumeSource : Type 0 where
  host_path : Text → VolumeSource
  persistent_volume_claim : Text → VolumeSource
  empty_dir : VolumeSource

pub record Volume : Type 0 where
  pub name : Text
  pub source : VolumeSource

pub record Container : Type 0 where
  pub name : Text
  pub image : Text
  pub image_pull_policy : Text
  pub command : List Text
  pub ports : List NamedPort
  pub resources : ResourceRequirements
  pub volume_mounts : List VolumeMount

pub record PodTemplate : Type 0 where
  pub labels : TextMap Text
  pub node_name : Text
  pub node_selector : TextMap Text
  pub tolerations : List Toleration
  pub host_network : Bool
  pub dns_policy : Text
  pub init_containers : List Container
  pub containers : List Container
  pub volumes : List Volume

-- A claim; its name stands in its key, or beside it in a list of templates.
pub record Claim : Type 0 where
  pub labels : TextMap Text
  pub access_modes : List Text
  -- none where the default class is meant
  pub storage_class_name : Option Text
  pub volume_name : Text
  pub storage : Text

pub record StatefulSet : Type 0 where
  pub labels : TextMap Text
  pub replicas : Option ℤ
  pub service_name : Text
  pub selector : TextMap Text
  pub template : PodTemplate
  pub volume_claim_templates : List (Text × Claim)
  pub ready_replicas : ℤ

pub record Deployment : Type 0 where
  pub replicas : Option ℤ
  pub selector : TextMap Text
  pub template : PodTemplate

pub record PodDisruptionBudget : Type 0 where
  pub min_available : ℕ
  pub selector : TextMap Text

-- What is read of a persistent volume: node affinity by terms, whose match expressions they list.
pub record NodeSelectorRequirement : Type 0 where
  pub key : Text
  pub operator : Text
  pub values : List Text

pub record PersistentVolume : Type 0 where
  pub name : Text
  pub labels : TextMap Text
  pub storage : Text
  pub phase : Text
  -- none where the volume has no affinity, or no required one
  pub required_terms : Option (List (List NodeSelectorRequirement))
