-- ===== src/Controller/Volumes.antt =====
-- internal/controller/leilfscluster_controller.go: buildChunkVolumes, chunkContainerPorts,
-- masterContainerPorts and masterProbePort.
use leilfs_operator.Base.{
  ℕ, suc, List, [], ◌∷◌, ◌++◌, Option, none, some, ◌≡◌, ◌≢◌, ◌⊎◌, inl, inr, refl, arith, All,
  if◌then◌else◌, Bool-cases, Option-cases,
}
use leilfs_operator.Base.Int.{ℤ, pos}
use leilfs_operator.Text.{Text, codes, is_empty, text_eq, text_eq_iff, decimal}
use leilfs_operator.Api.{NamedPort, MountPath, ChunkServerSpec, LeilFsCluster}
use leilfs_operator.Controller.Objects.{
  VolumeMount, VolumeSource, host_path, persistent_volume_claim, empty_dir, Volume,
}
use leilfs_operator.Controller.Support.{
  Provisioned, validate_cluster_spec, validate_cluster_spec_iff,
}

abbrev pub vol_name : ℕ → Text
vol_name i = codes "data-" ++ decimal i

unfoldable pub volume_source : MountPath → VolumeSource
volume_source mp =
    if is_empty mp.host_path
    then (if is_empty mp.claim_name then empty_dir else persistent_volume_claim mp.claim_name)
    else host_path mp.host_path

-- The loop, from the index `i` on.
unfoldable pub mount_volumes : ℕ → List MountPath → List VolumeMount × List Volume
unfolding volume_source
mount_volumes i [] = ([], [])
mount_volumes i (mp ∷ mps) =
    let (mounts, volumes) = mount_volumes (suc i) mps in
    (
      record { name = vol_name i; mount_path = mp.path } ∷ mounts,
      record { name = vol_name i; source = volume_source mp } ∷ volumes,
    )

unfoldable pub build_chunk_volumes : ChunkServerSpec → List VolumeMount × List Volume
unfolding mount_volumes
build_chunk_volumes srv = mount_volumes 0 srv.mount_paths

unfoldable pub chunk_container_ports : LeilFsCluster → List NamedPort
chunk_container_ports c =
    if is_empty c.spec.chunk.ports
    then record { name = codes "data"; container_port = pos 9422 } ∷ []
    else c.spec.chunk.ports

unfoldable pub master_container_ports : LeilFsCluster → List NamedPort
master_container_ports c =
    if is_empty c.spec.master.ports
    then record { name = codes "admin"; container_port = pos 9419 }
      ∷ record { name = codes "cs"; container_port = pos 9420 }
      ∷ record { name = codes "client"; container_port = pos 9421 }
      ∷ []
    else c.spec.master.ports

-- The first port of a name, as each of the two loops finds it.
unfoldable pub port_named : Text → List NamedPort → Option ℤ
port_named name [] = none
port_named name (p ∷ ports) =
    let rest = port_named name ports in if text_eq p.name name then some p.container_port else rest

unfoldable pub master_probe_port : List NamedPort → ℤ
unfolding port_named
master_probe_port ports = elim (port_named (codes "client") ports) [
  | some p ↦ p
  | none ↦ elim (port_named (codes "admin") ports) [ some p ↦ p | none ↦ pos 9421 ]
]

-- A mount beside the volume it mounts: they share a name, and only an empty path stays on the node's
-- scratch space.
pub record Backed (m : VolumeMount) (v : Volume) : Type 0 where
  pub same_name : m.name ≡ v.name
  pub durable : (m.mount_path ≡ []) ⊎ (v.source ≢ empty_dir)

abbrev pub Pairwise {ℓ} : {A B : Type ℓ} → (A → B → Type 0) → List A → List B → Type 0
Pairwise R [] [] = Unit
Pairwise R [] (y ∷ ys) = ⊥
Pairwise R (x ∷ xs) [] = ⊥
Pairwise R (x ∷ xs) (y ∷ ys) = R x y × Pairwise R xs ys

volume_source-durable :
    (mp : MountPath) → Provisioned mp → (mp.path ≡ []) ⊎ (volume_source mp ≢ empty_dir)
unfolding volume_source
volume_source-durable mp = by_texts mp.path mp.host_path mp.claim_name
  where
    by_texts :
        (p h c : Text)
        → (p ≡ []) ⊎ ((h ≢ []) ⊎ (c ≢ []))
        → (p ≡ [])
          ⊎ (◌≢◌ {A = VolumeSource}
              (if is_empty h
                then (if is_empty c then empty_dir else persistent_volume_claim c)
                else host_path h)
              empty_dir)
    by_texts p h c (inl e) = inl e
    by_texts p (x ∷ h) c (inr e) = inr (λ same. absurd (cc))
    by_texts p [] (x ∷ c) (inr e) = inr (λ same. absurd (cc))
    by_texts p [] [] (inr (inl e)) = absurd (e refl)
    by_texts p [] [] (inr (inr e)) = absurd (e refl)

mount_volumes-Backed :
    (i : ℕ) (mps : List MountPath)
    → All Provisioned mps
    → let r = mount_volumes i mps in Pairwise Backed r.0 r.1
unfolding mount_volumes
mount_volumes-Backed i [] h = tt
mount_volumes-Backed i (mp ∷ mps) (h, hs) = (
  record { same_name = refl; durable = volume_source-durable mp h },
  mount_volumes-Backed (suc i) mps hs,
)

-- In a spec that the operator accepts, every mount of every chunk server has the volume of its name
-- at its own position, and unless the mount's path is empty that volume is a host path or a claim.
pub build_chunk_volumes-Backed :
    (c : LeilFsCluster)
    → validate_cluster_spec c ≡ none
    → All
        (λ (srv : ChunkServerSpec).
          Pairwise Backed (build_chunk_volumes srv).0 (build_chunk_volumes srv).1)
        c.spec.chunk.servers
unfolding build_chunk_volumes
build_chunk_volumes-Backed c h =
    every c.spec.chunk.servers ((validate_cluster_spec_iff c).0 h).mounts
  where
    every :
        (servers : List ChunkServerSpec)
        → All (λ (srv : ChunkServerSpec). All Provisioned srv.mount_paths) servers
        → All
            (λ (srv : ChunkServerSpec).
              Pairwise Backed (build_chunk_volumes srv).0 (build_chunk_volumes srv).1)
            servers
    every [] m = tt
    every (srv ∷ servers) (m, ms) = (mount_volumes-Backed 0 srv.mount_paths m, every servers ms)

-- A port that is listed under a name.
abbrev pub Lists : List NamedPort → Text → ℤ → Type 0
Lists [] name n = ⊥
Lists (p ∷ ports) name n = ((p.name ≡ name) × (p.container_port ≡ n)) ⊎ Lists ports name n

port_named-some :
    (name : Text) (ports : List NamedPort) {n : ℤ}
    → port_named name ports ≡ some n
    → Lists ports name n
unfolding port_named
port_named-some name [] h = absurd (cc)
port_named-some name (p ∷ ports) {n} h = elim (Bool-cases (text_eq p.name name)) [
  | inl hit ↦
      let same : ◌≡◌ {A = Option ℤ} (some p.container_port) (some n) = rw hit at h in
      inl ((text_eq_iff p.name name).0 hit, cc)
  | inr miss ↦ inr (port_named-some name ports (rw miss at h))
]

port_named-none :
    (name : Text) (ports : List NamedPort)
    → port_named name ports ≡ none
    → (n : ℤ) → ¬ Lists ports name n
unfolding port_named
port_named-none name [] h n l = l
port_named-none name (p ∷ ports) h n l = elim (Bool-cases (text_eq p.name name)) [
  | inl hit ↦
      let found : ◌≡◌ {A = Option ℤ} (some p.container_port) none = rw hit at h in absurd (cc)
  | inr miss ↦ elim l [
    | inl here ↦ absurd (ground (arith, miss, (text_eq_iff p.name name).1 here.0))
    | inr later ↦ port_named-none name ports (rw miss at h) n later
  ]
]

-- The port that the probe of the master knocks at is one listed as "client"; if there is none, one
-- listed as "admin"; and if there is neither, 9421.
pub master_probe_port-Lists :
    (ports : List NamedPort)
    → Lists ports (codes "client") (master_probe_port ports)
      ⊎ (((n : ℤ) → ¬ Lists ports (codes "client") n)
          × (Lists ports (codes "admin") (master_probe_port ports)
              ⊎ (((n : ℤ) → ¬ Lists ports (codes "admin") n)
                  × (master_probe_port ports ≡ pos 9421))))
unfolding master_probe_port
master_probe_port-Lists ports = elim (Option-cases (port_named (codes "client") ports)) [
  | inr (p, found) ↦
      inl (rw (found, master_probe_port) (port_named-some (codes "client") ports found))
  | inl no_client ↦ inr (
    port_named-none (codes "client") ports no_client,
    elim (Option-cases (port_named (codes "admin") ports)) [
      | inr (p, found) ↦ inl (
          rw (no_client, master_probe_port)
            (rw found (port_named-some (codes "admin") ports found)))
      | inl no_admin ↦ inr (
        port_named-none (codes "admin") ports no_admin,
        rw (no_client, master_probe_port) (rw no_admin),
      )
    ],
  )
]
