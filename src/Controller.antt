-- ===== src/Controller.antt =====
-- internal/controller/leilfscluster_controller.go: the parts of the reconciler that are modelled.

pub mod AutoDiscover
pub mod Goals
pub mod Chunks
pub mod Defaults
pub mod Reconcile
pub mod StatefulSets
pub mod Ha
pub mod Kube
pub mod Failures
pub mod Publish
pub mod Master
pub mod Workloads
pub mod Objects
pub mod PersistentVolumes
pub mod Support
pub mod Volumes
