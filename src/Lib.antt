-- ===== src/Lib.antt =====
-- The verification library of leilfs-operator, a Kubernetes operator for the LeilFS file system.
--
-- The program's parts. The LeilFSCluster resource (api/v1alpha1/leilfscluster_types.go) says what a
-- file system should be. A validating webhook (api/v1alpha1/leilfscluster_webhook.go) refuses
-- resources that break a rule over several fields. The operator
-- (internal/controller/leilfscluster_controller.go) turns an admitted resource into Kubernetes
-- objects. The exporter (internal/exporter/parser.go and collector.go) runs `saunafs-admin`, parses
-- what it prints and serves it to Prometheus. The kubectl plugin (cmd/kubectl-leilfs) shows it all.
--
-- Base: shared names, Boolean tests, lists measured by native numbers, results with an error, signed
--   integers (Base.Int).
-- Text: Go's strings as lists of code points, a byte that is part of none being a number above them,
--   and what the program uses of strings, strconv and fmt; maps keyed by texts (Text.Maps).
-- Api: the records of the resource, of leilfscluster_types.go.
-- Webhook: check_names, check_mounts and check_node_port are the loops and the closure of
--   validateChunkServerNames, validateChunkServerMountPaths and validateNodePorts, and
--   validate_leilfs_cluster is validateLeilFSCluster. A Go map is a TextMap, and an error is a value
--   that carries what its message is built from.
-- Exporter.Parser: one function for each Parse function of parser.go. A loop over lines is `collect`
--   with one function for a line; an index out of range is the error `no_field`.
-- Exporter.Collector: the descriptors, the subcommands and the blocks of Collect. The runner is a
--   function from a subcommand's arguments to its result, and MustNewConstMetric a function that may
--   panic. The goroutines of Collect store their results under different names in a map guarded by
--   a mutex, so the map depends on no interleaving; the orders in which it and the map of a disk's
--   flags are gone through are parameters, and so is utf8.ValidString, which MustNewConstMetric asks
--   of label values.
-- Controller.Support: validateClusterSpec. Controller.Goals: buildGoalsConfig, where write_goals is
--   its loop and a `make` with a negative length is the error `negative_len`. Controller.Volumes:
--   buildChunkVolumes, the container ports and masterProbePort.
-- Controller.Ha: reconcileMasterHA and the functions on pods that it calls. The API server is a
--   record of operations on a state that is passed along; a write gives the state behind it also
--   when it fails. Controller.Ha.Labels names what Kubernetes documents of the calls (PodLaws);
--   the patches that fail are those of `refused_patches`.
-- Controller.Kube: the API server of the other reconcilers, a record of operations on a state that is
--   passed along; Action is a computation over it that may fail, and create_or_update the body that
--   the reconcilers of single objects share. Kube.Laws names what Kubernetes documents: objects are
--   held under keys, a write changes only its own, and a delete removes the object or marks it for
--   deletion where finalizers hold it. Kube.Tasks: sequences of actions on keys.
-- Controller.Objects: the fields of Kubernetes objects that are set. Controller.Defaults,
--   Controller.StatefulSets: defaults, names, and what an update sets.
-- Controller.Chunks: reconcileChunkServers. Controller.PersistentVolumes: what is read of a volume,
--   and saunafsLabel. Controller.AutoDiscover: the discovery of volumes and the sweep of orphans.
--   Controller.Master: goals, services, budget, migration. Controller.Workloads: the metaloggers and
--   the web interface.
-- Controller.Failures: the errors' texts and isUnsupportedSpecError. Controller.Reconcile: Reconcile,
--   where `steps` is its list and `run_steps` its loop; the metrics are passed along beside the
--   server. Controller.Publish: publishMetrics. A panic leaves Reconcile without a status.
-- Metrics: SetPhase and DeleteCluster of internal/metrics/metrics.go, on a list of time series.
-- Kubectl: normalizePath (cmd/kubectl-leilfs/cmd/filegoal.go), the walks of list.go and
--   resolveLogTarget of logs.go. Kubectl.Goals: goals.go and the mounts of topology.go.
--   Kubectl.Scripts: the scripts of filegoal.go. int64 sums are not cut to 64 bits.
-- Tests: runs at concrete inputs.
--
-- Numbers: Go's uint64 is ℕ with the wrap-around of strconv's loop written out (% 2 ^ 64), and an
-- int32 of the resource is ℤ. fmt's %d writes one digit in each of `suc n` rounds, which is enough
-- for n. All other loops are structural.
--
-- Not modelled: the Kubernetes API server and its client, the processes and HTTP servers of the
-- commands (cmd/main.go, cmd/exporter/main.go), generated code (zz_generated.deepcopy.go), the log,
-- the parts of the kubectl plugin that no module here names, and reconcileMasterStatefulSet,
-- reconcileMasterHARBAC, reconcileNFS and SetupWithManager of the controller: the first three are
-- parameters of Reconcile. A Kubernetes quantity is the text it is written as and its IsZero a
-- parameter, a read sees the writes before it, and names have no character outside ASCII. An object
-- is what clients set of it, without the defaults that the server fills in itself, and with the mark
-- that a delete leaves on it. Counts are not cut to 32 bits. A decimal float64 of a metric is the
-- number it is made of.
pub mod Base
pub mod Text
pub mod Api
pub mod Webhook
pub mod Exporter
pub mod Controller
pub mod Metrics
pub mod Kubectl
pub mod Tests
