-- ===== src/Kubectl/Logs.antt =====
-- cmd/kubectl-leilfs/cmd/logs.go: resolveLogTarget, and the pods that the operator runs.
use mathlib.Core.List.{Memᴰ}
use mathlib.Core.List.Memᴰ.{not-nil, cases_cons}
use leilfs_operator.Base.{
  true, false, List, [], ◌∷◌, ◌++◌, Result, ok, ◌≡◌, refl, ap, Bool-cases, ◌⊎◌, inl, inr,
}
use leilfs_operator.Text.{Text, codes, is_empty, text_eq}
use leilfs_operator.Text.Maps.{TextMap}
use leilfs_operator.Api.{ChunkServerSpec, LeilFsCluster}
use leilfs_operator.Controller.Objects.{Container}
use leilfs_operator.Controller.Chunks.{chunk_pod_template}
use leilfs_operator.Controller.Workloads.{interface_deployment}
use leilfs_operator.Kubectl.{
  ListedPod, LogError, is_running, first_running, log_selector, resolve_log_target,
}

-- A map of labels in the syntax of a selector.
unfoldable pub print_labels : TextMap Text → Text
print_labels [] = []
print_labels ((k, v) ∷ []) = k ++ (61 ∷ v)
print_labels ((k, v) ∷ l ∷ labels) = k ++ (61 ∷ (v ++ (44 ∷ print_labels (l ∷ labels))))

abbrev pub container_names : List Container → List Text
container_names [] = []
container_names (k ∷ ks) = k.name ∷ container_names ks

-- For a chunk server with a name, the selector that the plugin asks for is exactly that of the labels
-- which the operator puts on the server's pods, and the container it names is the only one that these
-- pods run.
pub log_selector-chunk_pod_template :
    {E : Type 0} (c : LeilFsCluster) (srv : ChunkServerSpec)
    → is_empty srv.name ≡ false
    → (container : Text) × (log_selector {E = E} c.name (codes "chunk") srv.name
        ≡ ok (print_labels (chunk_pod_template c srv).labels, container))
      × (container_names (chunk_pod_template c srv).containers ≡ container ∷ [])
unfolding log_selector chunk_pod_template print_labels text_eq
log_selector-chunk_pod_template c srv named = (codes "leilfs-chunkserver", rw named refl, refl)

-- The same selector and container for the web interface, under both of its names.
pub log_selector-interface_deployment :
    {E : Type 0} (c : LeilFsCluster) (server : Text)
    → let expected : Text → Result (LogError E) (Text × Text) =
        λ container. ok (print_labels (interface_deployment c).template.labels, container) in
      (container : Text) × (log_selector c.name (codes "interface") server ≡ expected container)
      × (log_selector c.name (codes "webui") server ≡ expected container)
      × (container_names (interface_deployment c).template.containers ≡ container ∷ [])
unfolding log_selector interface_deployment print_labels text_eq
log_selector-interface_deployment c server = (codes "leilfs-cgiserver", refl, refl, refl)

first_running-Mem :
    (p : ListedPod) (pods : List ListedPod)
    → (first_running p pods ≡ p) ⊎ Memᴰ (first_running p pods) pods
unfolding first_running
first_running-Mem p [] = inl refl
first_running-Mem p (q ∷ pods) = elim (Bool-cases (is_running q)) [
  | inl hit ↦ inr (rw hit (Memᴰ.head refl))
  | inr miss ↦
      rw miss (elim (first_running-Mem p pods) [
        | inl same ↦ inl same
        | inr later ↦ inr (Memᴰ.tail later)
      ])
]

-- If some pod of the list runs, so does the chosen one.
first_running-runs :
    (p q : ListedPod) (pods : List ListedPod)
    → Memᴰ q pods
    → is_running q ≡ true
    → is_running (first_running p pods) ≡ true
unfolding first_running
first_running-runs p q [] m h = absurd (not-nil m)
first_running-runs p q (r ∷ pods) m h = elim (Bool-cases (is_running r)) [
  | inl hit ↦ rw hit hit
  | inr miss ↦ rw miss (elim (cases_cons m) [
    | inl same ↦ absurd (cc (h, miss, ap is_running same))
    | inr later ↦ first_running-runs p q pods later h
  ])
]

-- When the API server lists at least one pod for the selector of the component, resolveLogTarget
-- answers with the name of one of the listed pods, which runs if any of them does, and with the
-- component's container.
pub resolve_log_target-chosen :
    {E : Type 0} (list_pods : Text → Result E (List ListedPod))
    (cluster component server selector container : Text) (p : ListedPod) (pods : List ListedPod)
    → log_selector {E = E} cluster component server ≡ ok (selector, container)
    → list_pods selector ≡ ok (p ∷ pods)
    → (q : ListedPod) × (resolve_log_target list_pods cluster component server
        ≡ ok (q.name, container))
      × Memᴰ q (p ∷ pods)
      × ((r : ListedPod) → Memᴰ r (p ∷ pods) → is_running r ≡ true → is_running q ≡ true)
unfolding resolve_log_target
resolve_log_target-chosen list_pods cluster component server selector container p pods found
      listed =
    (
      first_running p (p ∷ pods),
      rw (found, resolve_log_target) (rw (listed, resolve_log_target) refl),
      elim (first_running-Mem p (p ∷ pods)) [ inl same ↦ Memᴰ.head same | inr later ↦ later ],
      λ r m h. first_running-runs p r (p ∷ pods) m h,
    )
