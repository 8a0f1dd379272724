-- ===== src/Controller/AutoDiscover/Sweep.antt =====
-- internal/controller/leilfscluster_controller.go: what sweepOrphanedAutoDiscoverResources deletes,
-- and what it leaves.
use leilfs_operator.Base.{
  Bool, true, false, List, [], ◌∷◌, ◌++◌, map, Result, ok, ◌≡◌, ◌≢◌, refl, ap, sym, ◌∙◌, All,
  All-append, if◌then◌else◌,
}
use leilfs_operator.Text.{Text, codes}
use leilfs_operator.Text.Distinct.{Distinct}
use leilfs_operator.Api.{LeilFsCluster}
use leilfs_operator.Controller.Objects.{Claim, PersistentVolume}
use leilfs_operator.Controller.Kube.{
  Failure, Key, Server, pure, continue_with, in_context, for_each,
}
use leilfs_operator.Controller.Kube.Laws.{Laws, Seen, Removed, seen}
use leilfs_operator.Controller.Kube.Tasks.{
  Task, run_tasks, Does, DistinctKeys, DistinctKeys-append, Avoids, Reached, Reached-split,
  delete_task, delete_task-Does, task_in, task_in-Does, run_tasks-Keeps, run_tasks-Reached,
  run_tasks-append, run_tasks-map, continue_with_ext,
}
use leilfs_operator.Controller.Chunks.Keys.{
  Part, headless, hdd, set, bound, part_kind, object_key, object_key-ne, object_key-object_key,
}
use leilfs_operator.Controller.AutoDiscover.{
  is_orphaned, resource_set, delete_auto_discover_resource_set, sweep_claim, listed, swept_labels,
  sweep_orphaned_auto_discover_resources,
}

abbrev claim_names : List (Text × Claim) → List Text
claim_names [] = []
claim_names ((name, cl) ∷ claims) = name ∷ claim_names claims

module _ {S : Type 0} (api : Server S) (c : LeilFsCluster) where
  abbrev deletion : Text → Text × Key → Task S
  deletion name (type_name, key) =
      task_in (codes "deleting " ++ (type_name ++ (32 ∷ name))) (delete_task api key)

  abbrev claim_tasks : Text → List (Task S)
  claim_tasks name = map (deletion name) (resource_set c name)

  unfoldable orphan_tasks : List PersistentVolume → List (Text × Claim) → List (Task S)
  orphan_tasks pvs [] = []
  orphan_tasks pvs ((name, cl) ∷ claims) =
      let rest = orphan_tasks pvs claims in
      if is_orphaned pvs cl then claim_tasks name ++ rest else rest

  claim_tasks-run :
      (name : Text) (s : S)
      → delete_auto_discover_resource_set api c name s ≡ run_tasks (claim_tasks name) s
  unfolding delete_auto_discover_resource_set
  claim_tasks-run name s = run_tasks-map (deletion name) (resource_set c name) s

  orphan_tasks-run :
      (pvs : List PersistentVolume) (claims : List (Text × Claim)) (s : S)
      → for_each (sweep_claim api c pvs) claims s ≡ run_tasks (orphan_tasks pvs claims) s
  unfolding for_each orphan_tasks
  orphan_tasks-run pvs [] s = unfold run_tasks in refl
  orphan_tasks-run pvs ((name, cl) ∷ claims) s =
      go (is_orphaned pvs cl) (orphan_tasks-run pvs claims)
    where
      go :
          (b : Bool)
          → ((s : S)
              → for_each (sweep_claim api c pvs) claims s ≡ run_tasks (orphan_tasks pvs claims) s)
          → continue_with
              ((if b then delete_auto_discover_resource_set api c name else pure tt) s)
              (λ _. for_each (sweep_claim api c pvs) claims)
            ≡ run_tasks
                (if b then claim_tasks name ++ orphan_tasks pvs claims else orphan_tasks pvs claims)
                s
      go true later =
          ap (λ r. continue_with r (λ _. for_each (sweep_claim api c pvs) claims))
            (claim_tasks-run name s)
          ∙ (continue_with_ext (run_tasks (claim_tasks name) s)
                (λ _. for_each (sweep_claim api c pvs) claims)
                (λ _. run_tasks (orphan_tasks pvs claims)) later
              ∙ sym (run_tasks-append (claim_tasks name) (orphan_tasks pvs claims) s))
      go false later = later s

  -- What holds of the names of the orphans keeps a key out of the tasks.
  orphan_tasks-Avoids :
      (j : Key) (pvs : List PersistentVolume) (claims : List (Text × Claim))
      → All (λ f. is_orphaned pvs f.1 ≡ true → (p : Part) → object_key c p f.0 ≢ j) claims
      → Avoids j (orphan_tasks pvs claims)
  unfolding orphan_tasks
  orphan_tasks-Avoids j pvs [] h = tt
  orphan_tasks-Avoids j pvs ((name, cl) ∷ claims) (h, hs) =
      go (is_orphaned pvs cl) h (orphan_tasks-Avoids j pvs claims hs)
    where
      go :
          (b : Bool)
          → (b ≡ true → (p : Part) → object_key c p name ≢ j)
          → Avoids j (orphan_tasks pvs claims)
          → Avoids j
              (if b then claim_tasks name ++ orphan_tasks pvs claims else orphan_tasks pvs claims)
      go true h rest = (h refl set, (h refl headless, (h refl hdd, (h refl bound, rest))))
      go false h rest = rest

  others-Avoid :
      (p : Part) (n : Text) (pvs : List PersistentVolume) (claims : List (Text × Claim))
      → All (λ m. m ≢ n) (claim_names claims)
      → Avoids (object_key c p n) (orphan_tasks pvs claims)
  others-Avoid p n pvs claims h = orphan_tasks-Avoids (object_key c p n) pvs claims (apart claims h)
    where
      apart :
          (claims : List (Text × Claim))
          → All (λ m. m ≢ n) (claim_names claims)
          → All
              (λ f. is_orphaned pvs f.1 ≡ true → (q : Part) → object_key c q f.0 ≢ object_key c p n)
              claims
      apart [] h = tt
      apart ((m, cl) ∷ claims) (h, hs) = ((λ _ q. object_key-ne c q p m n h), apart claims hs)

  orphan_tasks-DistinctKeys :
      (pvs : List PersistentVolume) (claims : List (Text × Claim))
      → Distinct (claim_names claims)
      → DistinctKeys (orphan_tasks pvs claims)
  unfolding orphan_tasks
  orphan_tasks-DistinctKeys pvs [] h = tt
  orphan_tasks-DistinctKeys pvs ((name, cl) ∷ claims) (h, hs) =
      go (is_orphaned pvs cl) (orphan_tasks-DistinctKeys pvs claims hs)
    where
      away : (p : Part) → Avoids (object_key c p name) (orphan_tasks pvs claims)
      away p = others-Avoid p name pvs claims h

      apart : (p q : Part) → part_kind p ≢ part_kind q → object_key c p name ≢ object_key c q name
      apart p q = object_key-object_key c p q name name

      go :
          (b : Bool)
          → DistinctKeys (orphan_tasks pvs claims)
          → DistinctKeys
              (if b then claim_tasks name ++ orphan_tasks pvs claims else orphan_tasks pvs claims)
      go true rest =
          DistinctKeys-append (claim_tasks name) (orphan_tasks pvs claims)
            (
              (
                apart headless set (λ e. cc),
                (apart hdd set (λ e. cc), (apart bound set (λ e. cc), tt)),
              ),
              (
                (apart hdd headless (λ e. cc), (apart bound headless (λ e. cc), tt)),
                ((apart bound hdd (λ e. cc), tt), (tt, tt)),
              ),
            )
            rest (away set, (away headless, (away hdd, (away bound, tt))))
      go false rest = rest

  module _ (laws : Laws api) where
    open laws use {stored}

    orphan_tasks-Does :
        (pvs : List PersistentVolume) (claims : List (Text × Claim))
        → All (Does laws) (orphan_tasks pvs claims)
    unfolding orphan_tasks
    orphan_tasks-Does pvs [] = tt
    orphan_tasks-Does pvs ((name, cl) ∷ claims) =
        go (is_orphaned pvs cl) (orphan_tasks-Does pvs claims)
      where
        one : (type_name : Text) (k : Key) → Does laws (deletion name (type_name, k))
        one type_name k =
            task_in-Does laws (codes "deleting " ++ (type_name ++ (32 ∷ name))) (delete_task api k)
              (delete_task-Does laws k)

        four : All (Does laws) (claim_tasks name)
        four = (
          one (codes "*v1.StatefulSet") (object_key c set name),
          (
            one (codes "*v1.Service") (object_key c headless name),
            (
              one (codes "*v1.ConfigMap") (object_key c hdd name),
              (one (codes "*v1.PersistentVolumeClaim") (object_key c bound name), tt),
            ),
          ),
        )

        go :
            (b : Bool)
            → All (Does laws) (orphan_tasks pvs claims)
            → All
                (Does laws)
                (if b then claim_tasks name ++ orphan_tasks pvs claims else orphan_tasks pvs claims)
        go true rest = All-append (Does laws) (claim_tasks name) _ four rest
        go false rest = rest

    -- Each object of a chunk server is gone, or marked for deletion.
    abbrev pub Gone : S → Text → Type 0
    Gone s name = (p : Part) → Removed (seen laws (object_key c p name) s)

    Reached-Gone :
        (pvs : List PersistentVolume) (claims : List (Text × Claim)) (s0 s : S)
        → Reached laws (orphan_tasks pvs claims) s0 s
        → All (λ f. is_orphaned pvs f.1 ≡ true → Gone s f.0) claims
    unfolding orphan_tasks
    Reached-Gone pvs [] s0 s h = tt
    Reached-Gone pvs ((name, cl) ∷ claims) s0 s h =
        go (is_orphaned pvs cl) refl h (Reached-Gone pvs claims s0 s)
      where
        all_parts : Reached laws (claim_tasks name) s0 s → Gone s name
        all_parts (a, (b, (d, (e, _)))) set = a
        all_parts (a, (b, (d, (e, _)))) headless = b
        all_parts (a, (b, (d, (e, _)))) hdd = d
        all_parts (a, (b, (d, (e, _)))) bound = e

        go :
            (b : Bool)
            → is_orphaned pvs cl ≡ b
            → Reached laws
                (if b then claim_tasks name ++ orphan_tasks pvs claims else orphan_tasks pvs claims)
                s0
                s
            → (Reached laws (orphan_tasks pvs claims) s0 s
                → All (λ f. is_orphaned pvs f.1 ≡ true → Gone s f.0) claims)
            → (is_orphaned pvs cl ≡ true → Gone s name)
              × All (λ f. is_orphaned pvs f.1 ≡ true → Gone s f.0) claims
        go true e h rest =
            let (left, right) =
              Reached-split laws (claim_tasks name) (orphan_tasks pvs claims) s0 s h in
            ((λ _. all_parts left), rest right)
        go false e h rest = ((λ k. absurd (cc)), rest h)

    sweep-list :
        (pvs : List PersistentVolume) (claims : List (Text × Claim)) (s : S)
        → api.list_claims c.namespace (swept_labels c) s ≡ ok claims
        → sweep_orphaned_auto_discover_resources api c pvs s ≡ run_tasks (orphan_tasks pvs claims) s
    unfolding sweep_orphaned_auto_discover_resources
    sweep-list pvs claims s e =
        ap
          (λ r.
            continue_with (in_context (codes "listing auto-discover PVCs") (listed api r) s)
              (for_each (sweep_claim api c pvs)))
          e
        ∙ orphan_tasks-run pvs claims s

    -- If sweepOrphanedAutoDiscoverResources returns no error, then of every claim that it listed and
    -- whose volume is gone or has its disk missing, the StatefulSet, the Service, the ConfigMap and
    -- the claim itself are each gone from the server, or marked for deletion there. The conditions
    -- are that the server keeps Laws and lists no two claims of one name.
    pub sweep_orphaned_auto_discover_resources-Gone :
        (pvs : List PersistentVolume) (claims : List (Text × Claim)) (s : S)
        → api.list_claims c.namespace (swept_labels c) s ≡ ok claims
        → Distinct (claim_names claims)
        → (sweep_orphaned_auto_discover_resources api c pvs s).0 ≡ ok tt
        → All
            (λ f.
              is_orphaned pvs f.1 ≡ true
              → Gone (sweep_orphaned_auto_discover_resources api c pvs s).1 f.0)
            claims
    sweep_orphaned_auto_discover_resources-Gone pvs claims s e d h =
        let path = sweep-list pvs claims s e in
        rw path (
          Reached-Gone pvs claims s _ (
            run_tasks-Reached laws (orphan_tasks pvs claims) s (orphan_tasks-Does pvs claims)
              (orphan_tasks-DistinctKeys pvs claims d)
              (sym (ap (λ (r : Result Failure (Unit {0}) × S). r.0) path) ∙ h)))

    -- Whether it fails or not, the sweep leaves every object as it was that belongs to none of the
    -- claims it listed whose volume is gone or has its disk missing. The condition is that the server
    -- keeps Laws.
    pub sweep_orphaned_auto_discover_resources-Keeps :
        (pvs : List PersistentVolume) (claims : List (Text × Claim)) (s : S) (j : Key)
        → api.list_claims c.namespace (swept_labels c) s ≡ ok claims
        → All (λ f. is_orphaned pvs f.1 ≡ true → (p : Part) → object_key c p f.0 ≢ j) claims
        → stored j (sweep_orphaned_auto_discover_resources api c pvs s).1 ≡ stored j s
    sweep_orphaned_auto_discover_resources-Keeps pvs claims s j e h =
        ap (λ (r : Result Failure (Unit {0}) × S). stored j r.1) (sweep-list pvs claims s e)
        ∙ ap (λ (o : Seen j). o.0)
            (run_tasks-Keeps laws j (orphan_tasks pvs claims) (orphan_tasks-Does pvs claims)
              (orphan_tasks-Avoids j pvs claims h) s)
