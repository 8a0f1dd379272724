-- ===== src/Tests/Elections.antt =====
-- A lease held by one of two pods, on a small API server.
use leilfs_operator.Base.{List, [], ◌∷◌, map, some, none, ok}
use leilfs_operator.Text.{Text, codes}
use leilfs_operator.Text.Maps.{TextMap}
use leilfs_operator.Base.Int.{pos}
use leilfs_operator.Api.{LeilFsCluster}
use leilfs_operator.Controller.Ha.{Lease, Pod, ApiServer}
use leilfs_operator.Controller.Ha.Labels.Routing.{put}
use leilfs_operator.Tests.Values.{cluster, one_shadow}

-- The server holds one lease and the pods of one cluster.
record Server : Type 0 where
  lease : Lease
  pods : List Pod

abbrev small_api : ApiServer Server
small_api = record {
  get_lease = λ ns name s. ok s.lease;
  create_lease = λ ns name l s. (record s { lease = l }, none);
  delete_lease = λ ns name s. (s, none);
  set_controller_reference = λ c. none;
  list_pods = λ ns selector s. ok s.pods;
  patch_pod = λ ns p s. (record s { pods = map (put p) s.pods }, none);
  get_service = λ ns name s. ok [];
  update_service = λ ns name selector s. (s, none);
}

abbrev pod : Text → TextMap Text → Pod
pod name labels = record {
  name = name;
  labels = labels;
  phase = codes "Running";
  conditions = (codes "Ready", codes "True") ∷ [];
}

abbrev ha_cluster : LeilFsCluster
ha_cluster =
    let c = cluster [] (pos 0) in record c { spec = record c.spec { shadow = some one_shadow } }

abbrev held : Lease
held = record { holder_identity = some (codes "c-1"); renew_time = some 100; duration_seconds = 30 }

-- The label is still on the pod that has lost the lease.
abbrev server : Server
server = record {
  lease = held;
  pods =
      pod (codes "c-0") ((codes "leilfs.io/active-master", codes "true") ∷ [])
      ∷ pod (codes "c-1") []
      ∷ [];
}
