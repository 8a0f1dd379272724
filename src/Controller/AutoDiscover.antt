-- ===== src/Controller/AutoDiscover.antt =====
-- internal/controller/leilfscluster_controller.go: the chunk servers of discovered volumes
-- (reconcileAutoDiscoverChunkServers, ensureAutoDiscoverPVC), and the sweep of orphans.
pub mod Discovered
pub mod Claims
pub mod Sweep
use leilfs_operator.Base.{
  ℕ, ◌+◌, Bool, true, false, not, ◌&&◌, ◌||◌, List, [], ◌∷◌, ◌++◌, map, take, Option, none, some,
  Result, ok, err, ltb, leb, ◌==◌, if◌then◌else◌,
}
use leilfs_operator.Text.{Text, codes, is_empty, text_eq}
use leilfs_operator.Text.Maps.{TextMap, lookup}
use leilfs_operator.Api.{ChunkAutoDiscoverSpec, ChunkServerSpec, LeilFsCluster}
use leilfs_operator.Controller.Objects.{Claim, NodeSelectorRequirement, PersistentVolume}
use leilfs_operator.Controller.PersistentVolumes.{
  to_lower, is_lower_or_digit, replaced, keep_only, is_label_char, is_name_char, sanitize_name,
  saunafs_label, label_fits, has_labels, is_present, pv_matches_selector, names_node, first_node,
  first_node_of_terms, node_name_from_pv, value_of, is_missing, is_candidate,
}
use leilfs_operator.Controller.Kube.{
  ApiError, not_found, already_exists, other, Failure, api_failure, Key, PayloadAt, Server, Action,
  create, service, config_map, stateful_set, claim, pure, raise, in_context, do_write,
  delete_if_found, own, find, for_each, ◌>>◌, ◌>>=◌,
}
use leilfs_operator.Controller.Defaults.{in_namespace}
use leilfs_operator.Controller.Chunks.{chunk_name, reconcile_chunk_server}

-- ad-<first eight characters of the volume's name>
unfoldable pub discovered_name : PersistentVolume → Text
discovered_name pv = codes "ad-" ++ take 8 pv.name

unfoldable pub discovered_server :
    LeilFsCluster → ChunkAutoDiscoverSpec → PersistentVolume → ChunkServerSpec
unfolding discovered_name node_name_from_pv saunafs_label
discovered_server c ad pv = record {
  name = discovered_name pv;
  image = [];
  node_name = node_name_from_pv pv;
  label = saunafs_label (node_name_from_pv pv);
  mount_paths =
      record {
        path = codes "/mnt/hdd0";
        host_path = [];
        claim_name = chunk_name c (discovered_name pv);
        storage_class_name = [];
        size = [];
      }
      ∷ [];
  tolerations = ad.tolerations;
  resources = ad.resources;
}

abbrev pub discovered_labels : LeilFsCluster → TextMap Text
discovered_labels c =
    (codes "app.kubernetes.io/name", codes "leilfs-chunkserver")
    ∷ (codes "app.kubernetes.io/instance", c.name)
    ∷ (codes "app.kubernetes.io/managed-by", codes "leilfs-operator")
    ∷ (codes "leilfs.io/auto-discover", codes "true")
    ∷ []

unfoldable pub discovered_claim : LeilFsCluster → PersistentVolume → Claim
discovered_claim c pv = record {
  labels = discovered_labels c;
  access_modes = codes "ReadWriteOnce" ∷ [];
  storage_class_name = some [];
  volume_name = pv.name;
  storage = pv.storage;
}

-- The volumes that match the section's selector.
unfoldable pub matched_volumes :
    ChunkAutoDiscoverSpec → List PersistentVolume → List PersistentVolume
unfolding pv_matches_selector
matched_volumes ad [] = []
matched_volumes ad (pv ∷ pvs) =
    let rest = matched_volumes ad pvs in
    if pv_matches_selector pv ad.pv_label_selector then pv ∷ rest else rest

-- pvByName: a later volume takes the place of an earlier one with its name.
unfoldable pub volume_named : Text → List PersistentVolume → Option PersistentVolume
volume_named n [] = none
volume_named n (pv ∷ pvs) =
    let rest = volume_named n pvs in
    elim rest [ some later ↦ some later | none ↦ if text_eq pv.name n then some pv else none ]

-- A claim whose volume is gone, or has its disk missing.
unfoldable pub is_orphaned : List PersistentVolume → Claim → Bool
unfolding volume_named
is_orphaned pvs c = elim (volume_named c.volume_name pvs) [ none ↦ true | some pv ↦ is_missing pv ]

abbrev pub swept_labels : LeilFsCluster → TextMap Text
swept_labels c =
    (codes "leilfs.io/auto-discover", codes "true")
    ∷ (codes "app.kubernetes.io/instance", c.name)
    ∷ []

-- The objects of one chunk server with the texts of %T.
abbrev pub resource_set : LeilFsCluster → Text → List (Text × Key)
resource_set c name =
    (codes "*v1.StatefulSet", in_namespace c stateful_set name)
    ∷ (codes "*v1.Service", in_namespace c service name)
    ∷ (codes "*v1.ConfigMap", in_namespace c config_map (name ++ codes "-hdd"))
    ∷ (codes "*v1.PersistentVolumeClaim", in_namespace c claim name)
    ∷ []

module _ {S : Type 0} (api : Server S) where
  abbrev pub create_unless_there :
      LeilFsCluster → (k : Key) → PayloadAt k → Option (PayloadAt k) → Action S (Unit {0})
  create_unless_there c k desired (some old) = pure tt
  create_unless_there c k desired none = own api c k >> do_write api k (create desired)

  unfoldable pub ensure_auto_discover_claim :
      LeilFsCluster → PersistentVolume → Text → Action S (Unit {0})
  unfolding discovered_claim find own do_write
  ensure_auto_discover_claim c pv name =
      find api (in_namespace c claim name)
      >>= create_unless_there c (in_namespace c claim name) (discovered_claim c pv)

  -- The body of the loop over the volumes that match.
  unfoldable pub discover :
      LeilFsCluster → ChunkAutoDiscoverSpec → PersistentVolume → Action S (Unit {0})
  unfolding is_candidate ensure_auto_discover_claim discovered_name discovered_server
      reconcile_chunk_server
  discover c ad pv =
      if is_candidate pv
      then in_context (codes "auto-discover PVC for PV " ++ pv.name)
          (ensure_auto_discover_claim c pv (chunk_name c (discovered_name pv)))
        >> reconcile_chunk_server api (codes "auto-discover chunk server ") c
            (discovered_server c ad pv)
      else pure tt

  abbrev pub delete_object : Text → Text × Key → Action S (Unit {0})
  delete_object name (type_name, key) =
      in_context (codes "deleting " ++ (type_name ++ (32 ∷ name))) (delete_if_found api key)

  unfoldable pub delete_auto_discover_resource_set : LeilFsCluster → Text → Action S (Unit {0})
  unfolding delete_if_found for_each
  delete_auto_discover_resource_set c name = for_each (delete_object name) (resource_set c name)

  abbrev pub sweep_claim :
      LeilFsCluster → List PersistentVolume → Text × Claim → Action S (Unit {0})
  sweep_claim c pvs (name, cl) =
      if is_orphaned pvs cl then delete_auto_discover_resource_set c name else pure tt

  -- `r.List`: its error is returned.
  abbrev pub listed : {A : Type 0} → Result ApiError A → Action S A
  listed (ok a) = pure a
  listed (err e) = raise (api_failure e)

  abbrev pub list_swept : LeilFsCluster → Action S (List (Text × Claim))
  list_swept c s = listed (api.list_claims c.namespace (swept_labels c) s) s

  unfoldable pub sweep_orphaned_auto_discover_resources :
      LeilFsCluster → List PersistentVolume → Action S (Unit {0})
  unfolding is_orphaned delete_auto_discover_resource_set for_each
  sweep_orphaned_auto_discover_resources c pvs =
      in_context (codes "listing auto-discover PVCs") (list_swept c)
      >>= for_each (sweep_claim c pvs)

  abbrev pub list_volumes : Action S (List PersistentVolume)
  list_volumes s = listed (api.list_persistent_volumes s) s

  abbrev pub discover_and_sweep :
      LeilFsCluster → ChunkAutoDiscoverSpec → List PersistentVolume → Action S (Unit {0})
  discover_and_sweep c ad pvs =
      for_each (discover c ad) (matched_volumes ad pvs)
      >> sweep_orphaned_auto_discover_resources c pvs

  unfoldable pub reconcile_auto_discover_chunk_servers : LeilFsCluster → Action S (Unit {0})
  unfolding matched_volumes discover sweep_orphaned_auto_discover_resources for_each
  reconcile_auto_discover_chunk_servers c = elim c.spec.chunk.auto_discover [
    | none ↦ pure tt
    | some ad ↦
        if ad.enabled
        then in_context (codes "listing PVs") list_volumes >>= discover_and_sweep c ad
        else pure tt
  ]
