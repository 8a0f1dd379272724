-- ===== src/Tests/Reconciled.antt =====
-- Runs of the reconcilers on a server that holds objects.
use leilfs_operator.Base.{true, List, [], ◌∷◌, none, some, ok, ◌≡◌, refl, All}
use leilfs_operator.Base.Int.{pos}
use leilfs_operator.Text.{Text, codes, is_empty, text_eq, text_ne}
use leilfs_operator.Text.Maps.{lookup, insert}
use leilfs_operator.Api.{ChunkAutoDiscoverSpec, LeilFsCluster}
use leilfs_operator.Webhook.{validate_chunk_server_names, check_names}
use leilfs_operator.Controller.Kube.{create_or_update, find, do_write, own, for_each}
use leilfs_operator.Controller.Chunks.{
  reconcile_chunk_servers, reconcile_chunk_server, reconcile_chunk_headless_service,
  reconcile_chunk_hdd_config_map, reconcile_chunk_stateful_set,
}
use leilfs_operator.Controller.Chunks.Deployed.{Deployed, reconcile_chunk_servers-Deployed}
use leilfs_operator.Controller.Objects.{Claim, PersistentVolume}
use leilfs_operator.Controller.Kube.{Key, Server, delete_if_found}
use leilfs_operator.Controller.Kube.Laws.{Laws}
use leilfs_operator.Controller.Goals.{
  build_goals_config, write_goals, goal_pattern, replication_pattern,
}
use leilfs_operator.Controller.Master.{reconcile_goals_config_map, reconcile_master_budget}
use leilfs_operator.Controller.Master.Settled.{
  GoalsSettled, reconcile_goals_config_map-Settled, BudgetSettled, reconcile_master_budget-Settled,
}
use leilfs_operator.Controller.AutoDiscover.{
  is_orphaned, volume_named, delete_auto_discover_resource_set,
  sweep_orphaned_auto_discover_resources,
}
use leilfs_operator.Text.Distinct.{Distinct}
use leilfs_operator.Controller.AutoDiscover.Discovered.{
  discovered_names, Discovered, discover-Discovered,
}
use leilfs_operator.Controller.AutoDiscover.{
  discover, ensure_auto_discover_claim, discovered_name, discovered_server,
}
use leilfs_operator.Controller.PersistentVolumes.{
  is_candidate, node_name_from_pv, first_node_of_terms, first_node,
}
use leilfs_operator.Controller.AutoDiscover.Sweep.{
  Gone, sweep_orphaned_auto_discover_resources-Keeps, sweep_orphaned_auto_discover_resources-Gone,
}
use leilfs_operator.Controller.Chunks.Keys.{bound, object_key, object_key-ne}
use leilfs_operator.Tests.Values.{cluster, two_nodes, one_shadow, metalogger}
use leilfs_operator.Tests.Servers.{store_api, Store, store_api-Laws, empty, same_key, key_eq}

abbrev all_off : LeilFsCluster
all_off = cluster two_nodes (pos 0)

-- Everything that can be switched on is.
abbrev all_on : LeilFsCluster
all_on = record all_off {
  spec = record all_off.spec {
    shadow = some one_shadow;
    metalogger = some metalogger;
    goals =
        record {
          id = pos 2;
          name = codes "two";
          replication = some (pos 2);
          ec = none;
          node_labels = [];
          default = true;
        }
        ∷ [];
    web_ui = record all_off.spec.web_ui { enabled = some true };
    expose = record {
      enabled = some true;
      client_node_port = pos 30000;
      admin_node_port = pos 30001;
    };
  };
}

two_servers-ok : (reconcile_chunk_servers store_api all_off empty).0 ≡ ok tt
unfolding reconcile_chunk_servers reconcile_chunk_server for_each reconcile_chunk_headless_service
    reconcile_chunk_hdd_config_map reconcile_chunk_stateful_set create_or_update find do_write own
    same_key key_eq text_eq
two_servers-ok = refl

two_servers-admitted : is_empty (validate_chunk_server_names all_off.spec.chunk.servers) ≡ true
unfolding validate_chunk_server_names check_names text_eq lookup insert
two_servers-admitted = refl

reconcile_chunk_servers-Deployed_example :
    All
      (Deployed store_api all_off store_api-Laws
        (reconcile_chunk_servers store_api all_off empty).1)
      two_nodes
reconcile_chunk_servers-Deployed_example =
    reconcile_chunk_servers-Deployed store_api all_off store_api-Laws empty two_servers-admitted
      two_servers-ok

goals-ok : (reconcile_goals_config_map store_api all_on empty).0 ≡ ok tt
unfolding reconcile_goals_config_map build_goals_config write_goals goal_pattern replication_pattern
    create_or_update find do_write own
goals-ok = refl

reconcile_goals_config_map-Settled_example :
    GoalsSettled store_api-Laws all_on all_on.spec.goals
      (reconcile_goals_config_map store_api all_on empty).1
reconcile_goals_config_map-Settled_example =
    reconcile_goals_config_map-Settled store_api-Laws all_on empty goals-ok

budget-ok : (reconcile_master_budget store_api all_on empty).0 ≡ ok tt
unfolding reconcile_master_budget create_or_update find do_write own
budget-ok = refl

reconcile_master_budget-Settled_example :
    BudgetSettled store_api-Laws all_on all_on.spec.shadow
      (reconcile_master_budget store_api all_on empty).1
reconcile_master_budget-Settled_example =
    reconcile_master_budget-Settled store_api-Laws all_on empty budget-ok

-- A server that lists a claim whose volume is gone, and one whose volume is there.
abbrev claim_of : Text → Claim
claim_of volume = record {
  labels = [];
  access_modes = [];
  storage_class_name = none;
  volume_name = volume;
  storage = codes "1Gi";
}

abbrev two_claims : List (Text × Claim)
two_claims =
    (codes "c-chunk-ad-1", claim_of (codes "pv1"))
    ∷ (codes "c-chunk-ad-2", claim_of (codes "pv2"))
    ∷ []

abbrev listing_api : Server Store
listing_api = record store_api { list_claims = λ ns labels s. ok two_claims }

listing_api-Laws : Laws listing_api
listing_api-Laws = record {
  stored = store_api-Laws.stored;
  get-stored = store_api-Laws.get-stored;
  get-missing = store_api-Laws.get-missing;
  marked = store_api-Laws.marked;
  write-stored = store_api-Laws.write-stored;
  delete-removed = store_api-Laws.delete-removed;
  delete-missing = store_api-Laws.delete-missing;
  write-keeps = store_api-Laws.write-keeps;
  write-marks = store_api-Laws.write-marks;
}

abbrev one_volume : List PersistentVolume
one_volume =
    record {
      name = codes "pv2";
      labels = [];
      storage = codes "1Gi";
      phase = codes "Bound";
      required_terms = none;
    }
    ∷ []

sweep-ok : (sweep_orphaned_auto_discover_resources listing_api all_off one_volume empty).0 ≡ ok tt
unfolding sweep_orphaned_auto_discover_resources for_each is_orphaned volume_named
    delete_auto_discover_resource_set delete_if_found text_eq lookup
sweep-ok = refl

sweep_orphaned_auto_discover_resources-Gone_example :
    All
      (λ f.
        is_orphaned one_volume f.1 ≡ true
        → Gone listing_api all_off listing_api-Laws
            (sweep_orphaned_auto_discover_resources listing_api all_off one_volume empty).1
            f.0)
      two_claims
unfolding text_eq
sweep_orphaned_auto_discover_resources-Gone_example =
    sweep_orphaned_auto_discover_resources-Gone listing_api all_off listing_api-Laws one_volume
      two_claims empty refl ((text_ne _ _ refl, tt), (tt, tt)) sweep-ok

abbrev second_claim : Key
second_claim = object_key all_off bound (codes "c-chunk-ad-2")

-- The claim whose volume is there is not touched.
sweep_orphaned_auto_discover_resources-Keeps_example :
    listing_api-Laws.stored second_claim
      (sweep_orphaned_auto_discover_resources listing_api all_off one_volume empty).1
    ≡ listing_api-Laws.stored second_claim empty
unfolding text_eq is_orphaned volume_named lookup
sweep_orphaned_auto_discover_resources-Keeps_example =
    sweep_orphaned_auto_discover_resources-Keeps listing_api all_off listing_api-Laws one_volume
      two_claims empty second_claim refl
      (
        (λ _ p.
            object_key-ne all_off p bound (codes "c-chunk-ad-1") (codes "c-chunk-ad-2")
              (text_ne _ _ refl)),
        ((λ h. absurd (cc)), tt),
      )

abbrev disk_of : Text → Text → PersistentVolume
disk_of name node = record {
  name = name;
  labels = (codes "localdisk-operator.io/disk", codes "sda") ∷ [];
  storage = codes "1Ti";
  phase = codes "Available";
  required_terms = some (
      (record { key = codes "kubernetes.io/hostname"; operator = codes "In"; values = node ∷ [] }
        ∷ [])
      ∷ []);
}

abbrev two_disks : List PersistentVolume
two_disks =
    disk_of (codes "11111111-a") (codes "n1") ∷ disk_of (codes "22222222-b") (codes "n2") ∷ []

abbrev discovery : ChunkAutoDiscoverSpec
discovery = record {
  enabled = true;
  pv_label_selector = [];
  tolerations = [];
  resources = record { requests = []; limits = [] };
}

discover-ok : (for_each (discover store_api all_off discovery) two_disks empty).0 ≡ ok tt
unfolding for_each discover is_candidate node_name_from_pv first_node_of_terms first_node
    ensure_auto_discover_claim discovered_name discovered_server reconcile_chunk_server
    reconcile_chunk_headless_service reconcile_chunk_hdd_config_map reconcile_chunk_stateful_set
    create_or_update find do_write own same_key key_eq text_eq lookup
discover-ok = refl

names_differ : Distinct (discovered_names two_disks)
unfolding discovered_name text_eq
names_differ = ((text_ne _ _ refl, tt), (tt, tt))

discover-Discovered_example :
    All
      (λ pv.
        is_candidate pv ≡ true
        → Discovered store_api all_off discovery store_api-Laws empty
            (for_each (discover store_api all_off discovery) two_disks empty).1
            pv)
      two_disks
discover-Discovered_example =
    discover-Discovered store_api all_off discovery store_api-Laws two_disks empty names_differ
      discover-ok
