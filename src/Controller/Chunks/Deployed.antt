-- ===== src/Controller/Chunks/Deployed.antt =====
-- internal/controller/leilfscluster_controller.go: what reconcileChunkServers leaves on the server.
use leilfs_operator.Base.{List, [], ◌∷◌, ◌++◌, Result, ok, ◌≡◌, ◌≢◌, refl, ap, sym, ◌∙◌, All, true}
use leilfs_operator.Text.{Text, codes, is_empty, text_eq, text_ne}
use leilfs_operator.Text.Distinct.{Distinct}
use leilfs_operator.Api.{ChunkServerSpec, LeilFsCluster}
use leilfs_operator.Webhook.{validate_chunk_server_names}
use leilfs_operator.Webhook.Names.{names, validate_chunk_server_names_iff}
use leilfs_operator.Controller.Objects.{Service, ConfigMap}
use leilfs_operator.Controller.StatefulSets.{
  RunsAs, RunsAs-refl, merge_stateful_set, merge_stateful_set-RunsAs, DistinctFields,
}
use leilfs_operator.Controller.Kube.{Failure, Server, continue_with, in_context, for_each}
use leilfs_operator.Controller.Kube.Laws.{Laws, Holds}
use leilfs_operator.Controller.Kube.Tasks.{
  Task, run_tasks, Does, ensure_task, ensure_task-Does, task_in, task_in-Does, DistinctKeys, Avoids,
  Reached, run_tasks-Reached, then_three, continue_with_ext,
}
use leilfs_operator.Controller.Chunks.{
  chunk_labels, chunk_headless_service, merge_headless, headless_key, hdd_key, set_key,
  hdd_config_map, merge_config_map, chunk_stateful_set, reconcile_chunk_headless_service,
  reconcile_chunk_hdd_config_map, reconcile_chunk_stateful_set, reconcile_chunk_server,
  reconcile_chunk_servers,
}
use leilfs_operator.Controller.Chunks.Keys.{
  Part, headless, hdd, set, part_key, part_key-ne, part_key-part_key,
}

-- A service that selects and offers what the desired one does.
pub record Serves (desired o : Service) : Type 0 where
  pub selector : o.selector ≡ desired.selector
  pub ports : o.ports ≡ desired.ports

abbrev pub SameData : ConfigMap → ConfigMap → Type 0
SameData desired o = o.data_of ≡ desired.data_of

pub chunk_labels-DistinctFields : (c : LeilFsCluster) (n : Text) → DistinctFields (chunk_labels c n)
unfolding text_eq
chunk_labels-DistinctFields c n =
    ((text_ne _ _ refl, (text_ne _ _ refl, tt)), ((text_ne _ _ refl, tt), (tt, tt)))

module _ {S : Type 0} (api : Server S) (c : LeilFsCluster) where
  -- The three tasks of one server.
  abbrev pub chunk_tasks : Text → ChunkServerSpec → List (Task S)
  chunk_tasks context srv =
      task_in (context ++ (srv.name ++ codes " headless service")) (
        ensure_task api c (headless_key c srv.name) (chunk_headless_service c srv)
          (merge_headless (chunk_headless_service c srv)) (Serves (chunk_headless_service c srv)))
      ∷ task_in (context ++ (srv.name ++ codes " hdd configmap")) (
          ensure_task api c (hdd_key c srv.name) (hdd_config_map srv)
            (merge_config_map (hdd_config_map srv)) (SameData (hdd_config_map srv)))
      ∷ task_in (context ++ srv.name) (
          ensure_task api c (set_key c srv.name) (chunk_stateful_set c srv)
            (merge_stateful_set (chunk_stateful_set c srv)) (RunsAs (chunk_stateful_set c srv)))
      ∷ []

  unfoldable pub all_tasks : Text → List ChunkServerSpec → List (Task S)
  all_tasks context [] = []
  all_tasks context (srv ∷ servers) = chunk_tasks context srv ++ all_tasks context servers

  -- The loop runs the tasks in their order, and no more.
  pub chunk_tasks-run :
      (context : Text) (srv : ChunkServerSpec) (rest : List (Task S)) (s : S)
      → run_tasks (chunk_tasks context srv ++ rest) s
        ≡ continue_with (reconcile_chunk_server api context c srv s) (λ _. run_tasks rest)
  unfolding reconcile_chunk_server reconcile_chunk_headless_service reconcile_chunk_hdd_config_map
      reconcile_chunk_stateful_set run_tasks
  chunk_tasks-run context srv rest s =
      then_three
        (in_context (context ++ (srv.name ++ codes " headless service"))
          (reconcile_chunk_headless_service api c srv))
        (in_context (context ++ (srv.name ++ codes " hdd configmap"))
          (reconcile_chunk_hdd_config_map api c srv))
        (in_context (context ++ srv.name) (reconcile_chunk_stateful_set api c srv)) (run_tasks rest)
        s

  all_tasks-run :
      (context : Text) (servers : List ChunkServerSpec) (s : S)
      → for_each (reconcile_chunk_server api context c) servers s
        ≡ run_tasks (all_tasks context servers) s
  unfolding for_each all_tasks
  all_tasks-run context [] s = unfold run_tasks in refl
  all_tasks-run context (srv ∷ servers) s =
      continue_with_ext (reconcile_chunk_server api context c srv s)
        (λ _. for_each (reconcile_chunk_server api context c) servers)
        (λ _. run_tasks (all_tasks context servers)) (all_tasks-run context servers)
      ∙ sym (chunk_tasks-run context srv (all_tasks context servers) s)

  -- Another server's tasks are about other keys.
  all_tasks-Avoids :
      (context : Text) (p : Part) (n : Text) (servers : List ChunkServerSpec)
      → All (λ m. m ≢ n) (names servers)
      → Avoids (part_key c p n) (all_tasks context servers)
  unfolding all_tasks
  all_tasks-Avoids context p n [] h = tt
  all_tasks-Avoids context p n (srv ∷ servers) (h, hs) =
      let other = λ (q : Part). part_key-ne c q p srv.name n h in
      (other headless, (other hdd, (other set, all_tasks-Avoids context p n servers hs)))

  all_tasks-DistinctKeys :
      (context : Text) (servers : List ChunkServerSpec)
      → Distinct (names servers)
      → DistinctKeys (all_tasks context servers)
  unfolding all_tasks
  all_tasks-DistinctKeys context [] h = tt
  all_tasks-DistinctKeys context (srv ∷ servers) (h, hs) =
      let away = λ (p : Part). all_tasks-Avoids context p srv.name servers h in
      let apart = λ (p q : Part). part_key-part_key c p q srv.name srv.name in
      (
        (apart hdd headless (λ e. cc), (apart set headless (λ e. cc), away headless)),
        (
          (apart set hdd (λ e. cc), away hdd),
          (away set, all_tasks-DistinctKeys context servers hs),
        ),
      )

  module _ (laws : Laws api) where
    all_tasks-Does :
        (context : Text) (servers : List ChunkServerSpec)
        → All (Does laws) (all_tasks context servers)
    unfolding all_tasks
    all_tasks-Does context [] = tt
    all_tasks-Does context (srv ∷ servers) =
        let d = chunk_stateful_set c srv in
        let differ : DistinctFields d.labels =
          unfold chunk_stateful_set in chunk_labels-DistinctFields c srv.name in
        (
          task_in-Does laws _ _ (
              ensure_task-Does laws c (headless_key c srv.name) (chunk_headless_service c srv) _ _
                (record { selector = refl; ports = refl })
                (λ old. record { selector = refl; ports = refl })),
          (
            task_in-Does laws _ _ (
                ensure_task-Does laws c (hdd_key c srv.name) (hdd_config_map srv) _ _ refl
                  (λ old. refl)),
            (
              task_in-Does laws _ _ (
                  ensure_task-Does laws c (set_key c srv.name) d _ _ (RunsAs-refl d differ)
                    (λ old. merge_stateful_set-RunsAs d old differ)),
              all_tasks-Does context servers,
            ),
          ),
        )

    -- The tasks of one server.
    pub chunk_tasks-Does :
        (context : Text) (srv : ChunkServerSpec) → All (Does laws) (chunk_tasks context srv)
    chunk_tasks-Does context srv = unfold all_tasks in all_tasks-Does context (srv ∷ [])

    -- The objects of one chunk server are as its spec asks.
    pub record Deployed (s : S) (srv : ChunkServerSpec) : Type 0 where
      pub service : Holds laws (headless_key c srv.name) (Serves (chunk_headless_service c srv)) s
      pub config_map : Holds laws (hdd_key c srv.name) (SameData (hdd_config_map srv)) s
      pub stateful_set : Holds laws (set_key c srv.name) (RunsAs (chunk_stateful_set c srv)) s

    Reached-Deployed :
        (context : Text) (servers : List ChunkServerSpec) (s0 s : S)
        → Reached laws (all_tasks context servers) s0 s
        → All (Deployed s) servers
    unfolding all_tasks
    Reached-Deployed context [] s0 s h = tt
    Reached-Deployed context (srv ∷ servers) s0 s (h, (k, (l, hs))) = (
      record { service = h; config_map = k; stateful_set = l },
      Reached-Deployed context servers s0 s hs,
    )

    pub for_each-Deployed :
        (context : Text) (servers : List ChunkServerSpec) (s : S)
        → Distinct (names servers)
        → (for_each (reconcile_chunk_server api context c) servers s).0 ≡ ok tt
        → All (Deployed (for_each (reconcile_chunk_server api context c) servers s).1) servers
    for_each-Deployed context servers s differ h =
        let path = all_tasks-run context servers s in
        rw path (
          Reached-Deployed context servers s _ (
            run_tasks-Reached laws (all_tasks context servers) s (all_tasks-Does context servers)
              (all_tasks-DistinctKeys context servers differ)
              (sym (ap (λ (r : Result Failure (Unit {0}) × S). r.0) path) ∙ h)))

    -- If the webhook finds no fault with the names of the chunk servers, and reconcileChunkServers
    -- returns no error, then every chunk server has its headless service, its disk list and its
    -- StatefulSet on the server as its own spec asks: none was overwritten by another one's. The
    -- condition is that the server keeps Laws.
    pub reconcile_chunk_servers-Deployed :
        (s : S)
        → is_empty (validate_chunk_server_names c.spec.chunk.servers) ≡ true
        → (reconcile_chunk_servers api c s).0 ≡ ok tt
        → All (Deployed (reconcile_chunk_servers api c s).1) c.spec.chunk.servers
    unfolding reconcile_chunk_servers
    reconcile_chunk_servers-Deployed s admitted h =
        for_each-Deployed (codes "chunk server ") c.spec.chunk.servers s
          ((validate_chunk_server_names_iff c.spec.chunk.servers).0 admitted) h
