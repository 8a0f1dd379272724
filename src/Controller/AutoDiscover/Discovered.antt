-- ===== src/Controller/AutoDiscover/Discovered.antt =====
-- internal/controller/leilfscluster_controller.go: what the loop of
-- reconcileAutoDiscoverChunkServers leaves on the server.
use leilfs_operator.Base.{
  Bool, true, false, List, [], ◌∷◌, ◌++◌, Result, ok, ◌≡◌, ◌≢◌, refl, ap, sym, ◌∙◌, All, All-append,
  if◌then◌else◌,
}
use leilfs_operator.Text.{Text, codes}
use leilfs_operator.Text.Distinct.{Distinct}
use leilfs_operator.Api.{ChunkAutoDiscoverSpec, LeilFsCluster}
use leilfs_operator.Controller.Objects.{PersistentVolume}
use leilfs_operator.Controller.Kube.{Failure, Server, Action, pure, continue_with, for_each, ◌>>◌}
use leilfs_operator.Controller.Kube.Laws.{Laws, Holds}
use leilfs_operator.Controller.Kube.Tasks.{
  Task, run_tasks, Does, DistinctKeys, DistinctKeys-append, Avoids, Reached, Reached-split,
  run_tasks-Reached, continue_with_assoc, continue_with_ext,
}
use leilfs_operator.Controller.Chunks.{reconcile_chunk_server}
use leilfs_operator.Controller.Chunks.Keys.{
  Part, headless, hdd, set, bound, part_kind, part_key, part_key-ne, part_key-part_key,
}
use leilfs_operator.Controller.Chunks.Deployed.{
  chunk_tasks, chunk_tasks-run, chunk_tasks-Does, Deployed,
}
use leilfs_operator.Controller.AutoDiscover.{discovered_name, discovered_server, discover}
use leilfs_operator.Controller.PersistentVolumes.{is_candidate}
use leilfs_operator.Controller.AutoDiscover.Claims.{ClaimFor, claim_task, claim_task-Does}

abbrev pub discovered_names : List PersistentVolume → List Text
discovered_names [] = []
discovered_names (pv ∷ pvs) = discovered_name pv ∷ discovered_names pvs

abbrev server_context : Text
server_context = codes "auto-discover chunk server "

module _ {S : Type 0} (api : Server S) (c : LeilFsCluster) (ad : ChunkAutoDiscoverSpec) where
  abbrev volume_tasks : PersistentVolume → List (Task S)
  volume_tasks pv =
      claim_task api c pv ∷ chunk_tasks api c server_context (discovered_server c ad pv)

  unfoldable discover_tasks : List PersistentVolume → List (Task S)
  discover_tasks [] = []
  discover_tasks (pv ∷ pvs) =
      let rest = discover_tasks pvs in if is_candidate pv then volume_tasks pv ++ rest else rest

  discover_tasks-run :
      (pvs : List PersistentVolume) (s : S)
      → for_each (discover api c ad) pvs s ≡ run_tasks (discover_tasks pvs) s
  unfolding for_each discover_tasks discover
  discover_tasks-run [] s = unfold run_tasks in refl
  discover_tasks-run (pv ∷ pvs) s = go (is_candidate pv) (discover_tasks-run pvs)
    where
      first : Action S (Unit {0})
      first = (claim_task api c pv).run

      second : Action S (Unit {0})
      second = reconcile_chunk_server api server_context c (discovered_server c ad pv)

      go :
          (b : Bool)
          → ((s : S) → for_each (discover api c ad) pvs s ≡ run_tasks (discover_tasks pvs) s)
          → continue_with
              ((if b then first >> second else pure tt) s)
              (λ _. for_each (discover api c ad) pvs)
            ≡ run_tasks (if b then volume_tasks pv ++ discover_tasks pvs else discover_tasks pvs) s
      go true later =
          continue_with_assoc (first s) (λ _. second) (λ _. for_each (discover api c ad) pvs)
          ∙ unfold run_tasks in
            continue_with_ext (first s)
              (λ _ t. continue_with (second t) (λ _. for_each (discover api c ad) pvs))
              (λ _. run_tasks (
                chunk_tasks api c server_context (discovered_server c ad pv) ++ discover_tasks pvs))
              (λ t.
                continue_with_ext (second t) (λ _. for_each (discover api c ad) pvs)
                  (λ _. run_tasks (discover_tasks pvs)) later
                ∙ sym (
                    chunk_tasks-run api c server_context (discovered_server c ad pv)
                      (discover_tasks pvs) t))
      go false later = later s

  -- Another volume's tasks are about other keys.
  discover_tasks-Avoids :
      (p : Part) (n : Text) (pvs : List PersistentVolume)
      → All (λ m. m ≢ n) (discovered_names pvs)
      → Avoids (part_key c p n) (discover_tasks pvs)
  unfolding discover_tasks discovered_server
  discover_tasks-Avoids p n [] h = tt
  discover_tasks-Avoids p n (pv ∷ pvs) (h, hs) =
      go (is_candidate pv) (discover_tasks-Avoids p n pvs hs)
    where
      other_key : (q : Part) → part_key c q (discovered_name pv) ≢ part_key c p n
      other_key q = part_key-ne c q p (discovered_name pv) n h

      go :
          (b : Bool)
          → Avoids (part_key c p n) (discover_tasks pvs)
          → Avoids
              (part_key c p n)
              (if b then volume_tasks pv ++ discover_tasks pvs else discover_tasks pvs)
      go true rest = (other_key bound, (other_key headless, (other_key hdd, (other_key set, rest))))
      go false rest = rest

  discover_tasks-DistinctKeys :
      (pvs : List PersistentVolume)
      → Distinct (discovered_names pvs)
      → DistinctKeys (discover_tasks pvs)
  unfolding discover_tasks discovered_server
  discover_tasks-DistinctKeys [] h = tt
  discover_tasks-DistinctKeys (pv ∷ pvs) (h, hs) =
      go (is_candidate pv) (λ p. discover_tasks-Avoids p (discovered_name pv) pvs h)
        (discover_tasks-DistinctKeys pvs hs)
    where
      apart :
          (p q : Part)
          → part_kind p ≢ part_kind q
          → part_key c p (discovered_name pv) ≢ part_key c q (discovered_name pv)
      apart p q = part_key-part_key c p q (discovered_name pv) (discovered_name pv)

      go :
          (b : Bool)
          → ((p : Part) → Avoids (part_key c p (discovered_name pv)) (discover_tasks pvs))
          → DistinctKeys (discover_tasks pvs)
          → DistinctKeys (if b then volume_tasks pv ++ discover_tasks pvs else discover_tasks pvs)
      go true away rest =
          DistinctKeys-append (volume_tasks pv) (discover_tasks pvs)
            (
              (
                apart headless bound (λ e. cc),
                (apart hdd bound (λ e. cc), (apart set bound (λ e. cc), tt)),
              ),
              (
                (apart hdd headless (λ e. cc), (apart set headless (λ e. cc), tt)),
                ((apart set hdd (λ e. cc), tt), (tt, tt)),
              ),
            )
            rest (away bound, (away headless, (away hdd, (away set, tt))))
      go false away rest = rest

  module _ (laws : Laws api) where
    open laws use {stored}

    -- From one state to another: the claim of a discovered volume is there, bound to the volume if it
    -- was not there before and unchanged if it was, and its chunk server's objects are as its own spec
    -- asks.
    pub record Discovered (before s : S) (pv : PersistentVolume) : Type 0 where
      pub claim :
          Holds laws
            (part_key c bound (discovered_name pv))
            (ClaimFor c pv (stored (part_key c bound (discovered_name pv)) before))
            s
      pub server : Deployed api c laws s (discovered_server c ad pv)

    discover_tasks-Does : (pvs : List PersistentVolume) → All (Does laws) (discover_tasks pvs)
    unfolding discover_tasks
    discover_tasks-Does [] = tt
    discover_tasks-Does (pv ∷ pvs) = go (is_candidate pv) (discover_tasks-Does pvs)
      where
        go :
            (b : Bool)
            → All (Does laws) (discover_tasks pvs)
            → All
                (Does laws)
                (if b then volume_tasks pv ++ discover_tasks pvs else discover_tasks pvs)
        go true rest =
            All-append (Does laws) (volume_tasks pv) (discover_tasks pvs)
              (
                claim_task-Does api c laws pv,
                chunk_tasks-Does api c laws server_context (discovered_server c ad pv),
              )
              rest
        go false rest = rest

    Reached-Discovered :
        (pvs : List PersistentVolume) (s0 s : S)
        → Reached laws (discover_tasks pvs) s0 s
        → All (λ pv. is_candidate pv ≡ true → Discovered s0 s pv) pvs
    unfolding discover_tasks
    Reached-Discovered [] s0 s h = tt
    Reached-Discovered (pv ∷ pvs) s0 s h = go (is_candidate pv) refl h (Reached-Discovered pvs s0 s)
      where
        all_parts : Reached laws (volume_tasks pv) s0 s → Discovered s0 s pv
        all_parts (a, (b, (d, (e, _)))) = record {
          claim = a;
          server = record { service = b; config_map = d; stateful_set = e };
        }

        go :
            (b : Bool)
            → is_candidate pv ≡ b
            → Reached laws
                (if b then volume_tasks pv ++ discover_tasks pvs else discover_tasks pvs)
                s0
                s
            → (Reached laws (discover_tasks pvs) s0 s
                → All (λ pv. is_candidate pv ≡ true → Discovered s0 s pv) pvs)
            → (is_candidate pv ≡ true → Discovered s0 s pv)
              × All (λ pv. is_candidate pv ≡ true → Discovered s0 s pv) pvs
        go true e h rest =
            let (left, right) = Reached-split laws (volume_tasks pv) (discover_tasks pvs) s0 s h in
            ((λ _. all_parts left), rest right)
        go false e h rest = ((λ k. absurd (cc)), rest h)

    -- If the loop over the discovered volumes goes through, then every volume that it takes, one with
    -- a node, a usable phase and a disk that is not missing, has its claim on the server and a chunk
    -- server whose Service, disk list and StatefulSet are as the volume asks. The claim is left as it
    -- was if it was there; if not, it is now, bound to the volume by its name, with the volume's
    -- storage and an empty storage class, and with the labels by which the sweep of orphans lists
    -- claims. The conditions are that the server keeps Laws and that the volumes' names differ within
    -- their first eight characters.
    pub discover-Discovered :
        (pvs : List PersistentVolume) (s : S)
        → Distinct (discovered_names pvs)
        → (for_each (discover api c ad) pvs s).0 ≡ ok tt
        → All
            (λ pv. is_candidate pv ≡ true → Discovered s (for_each (discover api c ad) pvs s).1 pv)
            pvs
    discover-Discovered pvs s differ h =
        let path = discover_tasks-run pvs s in
        rw path (
          Reached-Discovered pvs s _ (
            run_tasks-Reached laws (discover_tasks pvs) s (discover_tasks-Does pvs)
              (discover_tasks-DistinctKeys pvs differ)
              (sym (ap (λ (r : Result Failure (Unit {0}) × S). r.0) path) ∙ h)))
