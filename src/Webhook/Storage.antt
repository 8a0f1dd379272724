-- ===== src/Webhook/Storage.antt =====
-- api/v1alpha1/leilfscluster_webhook.go: validateChunkServerMountPaths over all chunk servers.
use mathlib.Core.List.{map-append}
use leilfs_operator.Base.{
  ℕ, suc, Bool, true, false, ◌&&◌, List, [], ◌∷◌, ◌++◌, map, ◌≡◌, ◌≢◌, ◌↔◌, refl, ap, sym, ◌∙◌,
  arith, All, All-append, Bool-cases, inl, inr, if◌then◌else◌,
}
use leilfs_operator.Text.{Text, is_empty}
use leilfs_operator.Text.Maps.{has_key}
use leilfs_operator.Text.Distinct.{Distinct, clean, clean_iff, mark, clean-append}
use leilfs_operator.Api.{MountPath, ChunkServerSpec}
use leilfs_operator.Webhook.{
  Owners, check_mounts, host_key, next_server, check_servers, no_owners,
  validate_chunk_server_mount_paths,
}
use leilfs_operator.Webhook.Mounts.{
  owned, Covered, mount_host_keys, mount_claims, Passed, check_mounts-Passed, is_empty-append,
}

abbrev pub host_keys : List ChunkServerSpec → List Text
host_keys [] = []
host_keys (srv ∷ servers) = mount_host_keys srv.node_name srv.mount_paths ++ host_keys servers

-- The claims that are not empty, of all servers in order.
abbrev pub claims_of : List ChunkServerSpec → List Text
claims_of [] = []
claims_of (srv ∷ servers) = mount_claims srv.mount_paths ++ claims_of servers

next_server-Covered : (key : Text → Text) (o : Owners) → Covered key (next_server o)
next_server-Covered key o v h = absurd (unfold has_key in cc)

pass_on :
    (good : Bool) (before : Text → Bool) (after : Text → Bool) (ks rest : List Text)
    → (good ≡ true → after ≡ mark ks before)
    → (good && clean after rest) ≡ (good && clean (mark ks before) rest)
pass_on true before after ks rest h = ap (λ p. clean p rest) (h refl)
pass_on false before after ks rest h = refl

check_servers-clean :
    (i : ℕ) (hosts claims : Owners) (servers : List ChunkServerSpec)
    → is_empty (check_servers i hosts claims servers)
      ≡ (clean (owned hosts) (host_keys servers) && clean (owned claims) (claims_of servers))
unfolding check_servers
check_servers-clean i hosts claims [] = unfold clean in refl
check_servers-clean i hosts claims (srv ∷ servers) =
    let hs = mount_host_keys srv.node_name srv.mount_paths in
    let cs = mount_claims srv.mount_paths in
    let r =
      check_mounts srv.node_name i 0 (next_server hosts) (next_server claims) srv.mount_paths in
    let p : Passed srv.node_name (next_server hosts) (next_server claims) srv.mount_paths r =
      check_mounts-Passed srv.node_name i 0 (next_server hosts) (next_server claims) srv.mount_paths
        (next_server-Covered _ hosts) (next_server-Covered _ claims) in
    is_empty-append r.0 (check_servers (suc i) r.1 r.2 servers)
    ∙ ground (
      arith,
      check_servers-clean (suc i) r.1 r.2 servers,
      p.verdict,
      clean-append (owned hosts) hs (host_keys servers),
      clean-append (owned claims) cs (claims_of servers),
      pass_on (is_empty r.0) (owned hosts) (owned r.1) hs (host_keys servers) p.hosts_marks,
      pass_on (is_empty r.0) (owned claims) (owned r.2) cs (claims_of servers) p.claims_marks,
    )

-- A name without the byte that the key puts between its parts.
abbrev pub HasNoNul : Text → Type 0
HasNoNul s = All (λ c. c ≢ 0) s

host_key_injective :
    (n m h k : Text)
    → HasNoNul n
    → HasNoNul m
    → host_key n h ≡ host_key m k
    → ◌≡◌ {A = Text × Text} (n, h) (m, k)
host_key_injective [] [] h k hn hm e = ground arith
host_key_injective [] (c ∷ m) h k hn hm e = absurd (ground arith)
host_key_injective (c ∷ n) [] h k hn hm e = absurd (ground arith)
host_key_injective (c ∷ n) (d ∷ m) h k hn hm e =
    ground (arith, host_key_injective n m h k hn.1 hm.1)

-- A node, and a directory of it that is mounted.
abbrev pub node_mounts : Text → List MountPath → List (Text × Text)
node_mounts node [] = []
node_mounts node (mp ∷ mps) =
    (if is_empty mp.host_path then [] else (node, mp.host_path) ∷ []) ++ node_mounts node mps

-- The directories mounted by all servers, in order.
abbrev pub host_mounts : List ChunkServerSpec → List (Text × Text)
host_mounts [] = []
host_mounts (srv ∷ servers) = node_mounts srv.node_name srv.mount_paths ++ host_mounts servers

abbrev key_of : Text × Text → Text
key_of p = host_key p.0 p.1

abbrev pub NodesHaveNoNul : List ChunkServerSpec → Type 0
NodesHaveNoNul servers = All (λ (s : ChunkServerSpec). HasNoNul s.node_name) servers

mount_host_keys-map :
    (node : Text) (mps : List MountPath)
    → mount_host_keys node mps ≡ map key_of (node_mounts node mps)
mount_host_keys-map node [] = refl
mount_host_keys-map node (mp ∷ mps) = elim (Bool-cases (is_empty mp.host_path)) [
  | inl none_there ↦ rw none_there (mount_host_keys-map node mps)
  | inr there ↦ rw there (ap (λ t. host_key node mp.host_path ∷ t) (mount_host_keys-map node mps))
]

host_keys-map :
    (servers : List ChunkServerSpec) → host_keys servers ≡ map key_of (host_mounts servers)
host_keys-map [] = refl
host_keys-map (srv ∷ servers) =
    rw (mount_host_keys-map srv.node_name srv.mount_paths, host_keys-map servers)
      (sym (map-append key_of (node_mounts srv.node_name srv.mount_paths) (host_mounts servers)))

node_mounts-HasNoNul :
    (node : Text) (mps : List MountPath)
    → HasNoNul node
    → All (λ p. HasNoNul p.0) (node_mounts node mps)
node_mounts-HasNoNul node [] h = tt
node_mounts-HasNoNul node (mp ∷ mps) h = elim (Bool-cases (is_empty mp.host_path)) [
  | inl none_there ↦ rw none_there (node_mounts-HasNoNul node mps h)
  | inr there ↦ rw there ((h, node_mounts-HasNoNul node mps h))
]

host_mounts-HasNoNul :
    (servers : List ChunkServerSpec)
    → NodesHaveNoNul servers
    → All (λ p. HasNoNul p.0) (host_mounts servers)
host_mounts-HasNoNul [] h = tt
host_mounts-HasNoNul (srv ∷ servers) (hs, h) =
    All-append _ (node_mounts srv.node_name srv.mount_paths) (host_mounts servers)
      (node_mounts-HasNoNul srv.node_name srv.mount_paths hs) (host_mounts-HasNoNul servers h)

key_of-differs :
    (p : Text × Text) (ps : List (Text × Text))
    → HasNoNul p.0
    → All (λ q. HasNoNul q.0) ps
    → All (λ k. k ≢ key_of p) (map key_of ps) ↔ All (λ q. q ≢ p) ps
key_of-differs p [] hp h = (λ _. tt, λ _. tt)
key_of-differs p (q ∷ ps) hp (hq, h) =
    let rest = key_of-differs p ps hp h in
    (
      λ d. (λ e. d.0 (ap key_of e), rest.0 d.1),
      λ d. (λ e. d.0 (host_key_injective q.0 p.0 q.1 p.1 hq hp e), rest.1 d.1),
    )

Distinct-keys :
    (ps : List (Text × Text)) → All (λ p. HasNoNul p.0) ps → Distinct (map key_of ps) ↔ Distinct ps
Distinct-keys [] h = (λ _. tt, λ _. tt)
Distinct-keys (p ∷ ps) (hp, h) =
    let differs = key_of-differs p ps hp h in
    let rest = Distinct-keys ps h in
    (λ d. (differs.0 d.0, rest.0 d.1), λ d. (differs.1 d.0, rest.1 d.1))

and_iff : (a b : Bool) → ((a && b) ≡ true) ↔ ((a ≡ true) × (b ≡ true))
and_iff true b = (λ h. (refl, h), λ h. h.1)
and_iff false b = (λ h. absurd (cc), λ h. absurd (cc))

-- The mount paths pass exactly when no directory of a node is mounted twice and no claim is used
-- twice, within one chunk server or across them, if no node's name holds a NUL. The same directory
-- on two nodes is no violation, and neither is an empty path or claim.
pub validate_chunk_server_mount_paths_iff :
    (servers : List ChunkServerSpec)
    → NodesHaveNoNul servers
    → (is_empty (validate_chunk_server_mount_paths servers) ≡ true)
      ↔ (Distinct (host_mounts servers) × Distinct (claims_of servers))
unfolding validate_chunk_server_mount_paths
validate_chunk_server_mount_paths_iff servers nul_free =
    let hosts : Distinct (host_keys servers) ↔ Distinct (host_mounts servers) =
      rw (host_keys-map servers)
        (Distinct-keys (host_mounts servers) (host_mounts-HasNoNul servers nul_free)) in
    let same : is_empty (check_servers 0 no_owners no_owners servers)
        ≡ (clean (λ k. false) (host_keys servers) && clean (λ k. false) (claims_of servers)) =
      check_servers-clean 0 no_owners no_owners servers ∙ (unfold has_key in refl) in
    let both =
      and_iff (clean (λ k. false) (host_keys servers)) (clean (λ k. false) (claims_of servers)) in
    (
      λ h.
          let (ch, cl) = both.0 (sym same ∙ h) in
          (hosts.0 ((clean_iff (host_keys servers)).0 ch), (clean_iff (claims_of servers)).0 cl),
      λ d.
          same
          ∙ both.1 (
            (clean_iff (host_keys servers)).1 (hosts.1 d.0),
            (clean_iff (claims_of servers)).1 d.1,
          ),
    )
