-- ===== src/Controller/Support.antt =====
-- internal/controller/leilfscluster_controller.go, validateClusterSpec: the features that the
-- operator refuses because it does not implement them.
use leilfs_operator.Base.{
  ℕ, suc, Bool, true, false, not, ◌&&◌, ◌||◌, List, [], ◌∷◌, ◌++◌, Option, none, some, ◌≡◌, ◌≢◌,
  ◌↔◌, ◌⊎◌, inl, inr, refl, sym, ◌∙◌, arith, All, if◌then◌else◌,
}
use leilfs_operator.Text.{Text, codes, is_empty, text_eq, text_eq_iff}
use leilfs_operator.Api.{MountPath, ChunkServerSpec, ShadowSpec, CsiSpec, LeilFsCluster}
use leilfs_operator.Webhook.Mounts.{is_empty-append}

pub data Problem : Type 0 where
  csi_enabled : Problem
  shadow_image shadow_node_selector shadow_tolerations shadow_resources : Problem
  -- the server and the mount path
  dynamic_provisioning : ℕ → ℕ → Problem

abbrev pub default_master_image : Text
default_master_image = codes "ghcr.io/henres/leilfs-container/leilfs-master:5.10.1"

unfoldable pub master_image : LeilFsCluster → Text
master_image c = if is_empty c.spec.master.image then default_master_image else c.spec.master.image

abbrev pub when : Bool → Problem → List Problem
when b p = if b then p ∷ [] else []

abbrev pub csi_on : CsiSpec → Bool
csi_on csi = elim csi.enabled [ some b ↦ b | none ↦ false ]

unfoldable pub shadow_problems : Text → ShadowSpec → List Problem
shadow_problems image s =
    when (not (is_empty s.image) && not (text_eq s.image image)) shadow_image
    ++ (when (not (is_empty s.node_selector)) shadow_node_selector
        ++ (when (not (is_empty s.tolerations)) shadow_tolerations
            ++ when (not (is_empty s.resources.requests) || not (is_empty s.resources.limits))
                shadow_resources))

abbrev pub shadow_part : Text → Option ShadowSpec → List Problem
shadow_part image none = []
shadow_part image (some s) = shadow_problems image s

unfoldable pub mount_problems : ℕ → ℕ → List MountPath → List Problem
mount_problems i j [] = []
mount_problems i j (mp ∷ mps) =
    when (not (is_empty mp.path) && is_empty mp.host_path && is_empty mp.claim_name)
      (dynamic_provisioning i j)
    ++ mount_problems i (suc j) mps

unfoldable pub server_problems : ℕ → List ChunkServerSpec → List Problem
unfolding mount_problems
server_problems i [] = []
server_problems i (srv ∷ servers) =
    mount_problems i 0 srv.mount_paths ++ server_problems (suc i) servers

unfoldable pub spec_problems : LeilFsCluster → List Problem
unfolding shadow_problems server_problems master_image
spec_problems c =
    when (csi_on c.spec.csi) csi_enabled
    ++ (shadow_part (master_image c) c.spec.shadow ++ server_problems 0 c.spec.chunk.servers)

-- `none` is nil, and an error lists every problem.
abbrev pub unsupported : List Problem → Option (List Problem)
unsupported [] = none
unsupported (p ∷ ps) = some (p ∷ ps)

unfoldable pub validate_cluster_spec : LeilFsCluster → Option (List Problem)
unfolding spec_problems
validate_cluster_spec c = unsupported (spec_problems c)

-- A shadow that can share the pod template of the master.
pub record SharesTemplate (image : Text) (s : ShadowSpec) : Type 0 where
  pub same_image : (s.image ≡ []) ⊎ (s.image ≡ image)
  pub no_selector : s.node_selector ≡ []
  pub no_tolerations : s.tolerations ≡ []
  pub no_requests : s.resources.requests ≡ []
  pub no_limits : s.resources.limits ≡ []

-- A mount path that names its storage, or nothing to mount.
abbrev pub Provisioned : MountPath → Type 0
Provisioned mp = (mp.path ≡ []) ⊎ ((mp.host_path ≢ []) ⊎ (mp.claim_name ≢ []))

abbrev pub ShadowShares : Text → Option ShadowSpec → Type 0
ShadowShares image none = Unit
ShadowShares image (some s) = SharesTemplate image s

pub record Supported (c : LeilFsCluster) : Type 0 where
  pub no_csi : c.spec.csi.enabled ≢ some true
  pub shadow : ShadowShares (master_image c) c.spec.shadow
  pub mounts : All (λ (srv : ChunkServerSpec). All Provisioned srv.mount_paths) c.spec.chunk.servers

empty_iff {ℓ} : {A : Type ℓ} (xs : List A) → (is_empty xs ≡ true) ↔ (xs ≡ [])
empty_iff [] = (λ _. refl, λ _. refl)
empty_iff (x ∷ xs) = (λ h. absurd (cc), λ h. absurd (cc))

when-empty : (b : Bool) (p : Problem) → is_empty (when b p) ≡ not b
when-empty true p = refl
when-empty false p = refl

csi_on_iff : (csi : CsiSpec) → (csi_on csi ≡ false) ↔ (csi.enabled ≢ some true)
csi_on_iff csi = by_value csi.enabled
  where
    by_value :
        (e : Option Bool)
        → ((elim e [ some b ↦ b | none ↦ false ]) ≡ false) ↔ (◌≢◌ {A = Option Bool} e (some true))
    by_value none = (λ _ e. cc, λ _. refl)
    by_value (some true) = (λ h. absurd (cc), λ h. absurd (h refl))
    by_value (some false) = (λ _ e. cc, λ _. refl)

shadow_verdict :
    (image : Text) (s : ShadowSpec)
    → is_empty (shadow_problems image s) ≡ (
        not (not (is_empty s.image) && not (text_eq s.image image))
        && (not (not (is_empty s.node_selector))
            && (not (not (is_empty s.tolerations))
                && not (not (is_empty s.resources.requests) || not (is_empty s.resources.limits)))))
unfolding shadow_problems
shadow_verdict image s = simp (is_empty-append, when-empty)

same_image_iff :
    (own image : Text)
    → (not (not (is_empty own) && not (text_eq own image)) ≡ true) ↔ ((own ≡ []) ⊎ (own ≡ image))
same_image_iff [] image = (λ _. inl refl, λ _. refl)
same_image_iff (c ∷ own) image =
    let same = text_eq_iff (c ∷ own) image in
    (
      λ h. inr (same.0 (ground (arith, h))),
      λ e. elim e [ inl a ↦ absurd (cc) | inr a ↦ ground (arith, same.1 a) ],
    )

shadow_problems_iff :
    (image : Text) (s : ShadowSpec)
    → (is_empty (shadow_problems image s) ≡ true) ↔ SharesTemplate image s
shadow_problems_iff image s =
    let verdict = shadow_verdict image s in
    let selector = empty_iff s.node_selector in
    let tolerations = empty_iff s.tolerations in
    let requests = empty_iff s.resources.requests in
    let limits = empty_iff s.resources.limits in
    let same = same_image_iff s.image image in
    (
      λ h.
          let fine = sym verdict ∙ h in
          record {
            same_image = same.0 (ground (arith, fine));
            no_selector = selector.0 (ground (arith, fine));
            no_tolerations = tolerations.0 (ground (arith, fine));
            no_requests = requests.0 (ground (arith, fine));
            no_limits = limits.0 (ground (arith, fine));
          },
      λ t.
          verdict
          ∙ rw (
            same.1 t.same_image,
            selector.1 t.no_selector,
            tolerations.1 t.no_tolerations,
            requests.1 t.no_requests,
            limits.1 t.no_limits,
          ),
    )

mount_verdict :
    (i j : ℕ) (mp : MountPath) (mps : List MountPath)
    → is_empty (mount_problems i j (mp ∷ mps)) ≡ (
        not (not (is_empty mp.path) && is_empty mp.host_path && is_empty mp.claim_name)
        && is_empty (mount_problems i (suc j) mps))
unfolding mount_problems
mount_verdict i j mp mps = rw (is_empty-append, when-empty)

Provisioned-iff :
    (mp : MountPath)
    → (not (not (is_empty mp.path) && is_empty mp.host_path && is_empty mp.claim_name) ≡ true)
      ↔ Provisioned mp
Provisioned-iff mp = by_texts mp.path mp.host_path mp.claim_name
  where
    by_texts :
        (p h c : Text)
        → (not (not (is_empty p) && is_empty h && is_empty c) ≡ true)
          ↔ ((p ≡ []) ⊎ ((h ≢ []) ⊎ (c ≢ [])))
    by_texts [] h c = (λ _. inl refl, λ _. refl)
    by_texts (x ∷ p) (y ∷ h) c = (λ _. inr (inl (λ e. absurd (cc))), λ _. refl)
    by_texts (x ∷ p) [] (y ∷ c) = (λ _. inr (inr (λ e. absurd (cc))), λ _. refl)
    by_texts (x ∷ p) [] [] = (
      λ e. absurd (cc),
      λ e. elim e [
        | inl a ↦ absurd (cc)
        | inr (inl a) ↦ absurd (a refl)
        | inr (inr a) ↦ absurd (a refl)
      ],
    )

mount_problems_iff :
    (i j : ℕ) (mps : List MountPath)
    → (is_empty (mount_problems i j mps) ≡ true) ↔ All Provisioned mps
mount_problems_iff i j [] = (λ _. tt, λ _. unfold mount_problems in refl)
mount_problems_iff i j (mp ∷ mps) =
    let verdict = mount_verdict i j mp mps in
    let here = Provisioned-iff mp in
    let rest = mount_problems_iff i (suc j) mps in
    (
      λ h.
          let fine = sym verdict ∙ h in
          (here.0 (ground (arith, fine)), rest.0 (ground (arith, fine))),
      λ (p, ps). verdict ∙ ground (arith, here.1 p, rest.1 ps),
    )

server_problems_iff :
    (i : ℕ) (servers : List ChunkServerSpec)
    → (is_empty (server_problems i servers) ≡ true)
      ↔ All (λ (srv : ChunkServerSpec). All Provisioned srv.mount_paths) servers
unfolding server_problems
server_problems_iff i [] = (λ _. tt, λ _. refl)
server_problems_iff i (srv ∷ servers) =
    let verdict =
      is_empty-append (mount_problems i 0 srv.mount_paths) (server_problems (suc i) servers) in
    let here = mount_problems_iff i 0 srv.mount_paths in
    let rest = server_problems_iff (suc i) servers in
    (
      λ h.
          let fine = sym verdict ∙ h in
          (here.0 (ground (arith, fine)), rest.0 (ground (arith, fine))),
      λ (p, ps). verdict ∙ ground (arith, here.1 p, rest.1 ps),
    )

shadow_part_iff :
    (image : Text) (s : Option ShadowSpec)
    → (is_empty (shadow_part image s) ≡ true) ↔ ShadowShares image s
shadow_part_iff image none = (λ _. tt, λ _. refl)
shadow_part_iff image (some s) = shadow_problems_iff image s

unsupported-none : (ps : List Problem) → (unsupported ps ≡ none) ↔ (is_empty ps ≡ true)
unsupported-none [] = (λ _. refl, λ _. refl)
unsupported-none (p ∷ ps) = (λ h. absurd (cc), λ h. absurd (cc))

-- The operator accepts a spec exactly when CSI is not enabled, a shadow asks for nothing but what
-- the master's pod template has (the same image or none, and no selector, toleration or resource),
-- and every mount path that is not empty names a host path or a claim.
pub validate_cluster_spec_iff : (c : LeilFsCluster) → (validate_cluster_spec c ≡ none) ↔ Supported c
unfolding validate_cluster_spec
validate_cluster_spec_iff c =
    let csi = when (csi_on c.spec.csi) csi_enabled in
    let shadow = shadow_part (master_image c) c.spec.shadow in
    let servers = server_problems 0 c.spec.chunk.servers in
    let accepted = unsupported-none (csi ++ (shadow ++ servers)) in
    let first = is_empty-append csi (shadow ++ servers) in
    let second = is_empty-append shadow servers in
    let flag = when-empty (csi_on c.spec.csi) csi_enabled in
    let csi_iff = csi_on_iff c.spec.csi in
    let shadow_iff = shadow_part_iff (master_image c) c.spec.shadow in
    let servers_iff = server_problems_iff 0 c.spec.chunk.servers in
    (
      λ h.
          let none_found : is_empty (csi ++ (shadow ++ servers)) ≡ true = accepted.0 h in
          record {
            no_csi = csi_iff.0 (ground (arith, none_found, first, flag));
            shadow = shadow_iff.0 (ground (arith, none_found, first, second));
            mounts = servers_iff.0 (ground (arith, none_found, first, second));
          },
      λ s. accepted.1 (
          ground (
            arith,
            first,
            second,
            flag,
            csi_iff.1 s.no_csi,
            shadow_iff.1 s.shadow,
            servers_iff.1 s.mounts,
          )),
    )
