-- ===== src/Webhook/Mounts.antt =====
-- api/v1alpha1/leilfscluster_webhook.go: validateChunkServerMountPaths.
use mathlib.Core.Path.{fun_ext}
use leilfs_operator.Base.{
  ℕ, suc, Bool, true, ◌&&◌, List, [], ◌∷◌, ◌++◌, some, none, ◌≡◌, refl, ap, sym, ◌∙◌, arith,
  Bool-cases, inl, inr, if◌then◌else◌,
}
use leilfs_operator.Text.{Text, is_empty, text_eq_iff}
use leilfs_operator.Text.Maps.{
  TextMap, lookup, insert, has_key, has_key-insert, lookup_of_has_key, lookup_of_no_key,
}
use leilfs_operator.Text.Distinct.{clean, mark, clean-append, mark-append}
use leilfs_operator.Api.{MountPath}
use leilfs_operator.Webhook.{
  FieldPath, FieldError, duplicate_in_server, duplicate_across, MountRef, Owners, check_storage,
  check_mounts, host_key, host_path, claim_name,
}

-- The keys that count: those of values that are not empty.
abbrev pub key_if : Text → Text → List Text
key_if value key = if is_empty value then [] else key ∷ []

abbrev pub owned : Owners → Text → Bool
owned o k = has_key k o.owners

-- What a server has itself, some server owns.
abbrev pub Covered : (Text → Text) → Owners → Type 0
Covered key o = (v : Text) → has_key v o.in_server ≡ true → owned o (key v) ≡ true

-- One entry: it is in error exactly if its key is owned, and without an error its key is added.
record Checked (key : Text → Text) (value : Text) (o : Owners) (r : List FieldError × Owners)
    : Type 0 where
  verdict : is_empty r.0 ≡ clean (owned o) (key_if value (key value))
  marks : is_empty r.0 ≡ true → owned r.1 ≡ mark (key_if value (key value)) (owned o)
  covered : Covered key r.1

module _ (at : FieldPath) (c : ℕ) (v : Text) (key : Text) (ref : MountRef) (o : Owners) where
  own_again :
      {k : ℕ}
      → lookup (c ∷ v) o.in_server ≡ some k
      → check_storage at (c ∷ v) key ref o ≡ (
        duplicate_in_server at (c ∷ v) (record { server_idx = ref.server_idx; mount_idx = k }) ∷ [],
        o,
      )
  unfolding check_storage
  own_again old = rw (old, check_storage)

  abbrev added : TextMap ℕ
  added = insert (c ∷ v) ref.mount_idx o.in_server

  taken_elsewhere :
      {owner : MountRef}
      → lookup (c ∷ v) o.in_server ≡ none
      → lookup key o.owners ≡ some owner
      → check_storage at (c ∷ v) key ref o
        ≡ (duplicate_across at (c ∷ v) owner ∷ [], record o { in_server = added })
  unfolding check_storage
  taken_elsewhere new taken = rw (new, check_storage) (rw taken)

  first_claim :
      lookup (c ∷ v) o.in_server ≡ none
      → lookup key o.owners ≡ none
      → check_storage at (c ∷ v) key ref o
        ≡ ([], record { in_server = added; owners = insert key ref o.owners })
  unfolding check_storage
  first_claim new free = rw (new, check_storage) (rw free)

check_storage-Checked :
    (key : Text → Text) (at : FieldPath) (value : Text) (ref : MountRef) (o : Owners)
    → Covered key o
    → Checked key value o (check_storage at value (key value) ref o)
unfolding clean mark
check_storage-Checked key at [] ref o h =
    unfold check_storage in record { verdict = refl; marks = λ e. refl; covered = h }
check_storage-Checked key at (c ∷ v) ref o h = elim (Bool-cases (has_key (c ∷ v) o.in_server)) [
  | inl old ↦
      rw (own_again at c v (key (c ∷ v)) ref o (lookup_of_has_key (c ∷ v) o.in_server old).1)
        (record { verdict = rw (h (c ∷ v) old); marks = λ e. absurd (cc); covered = h })
  | inr new ↦ elim (Bool-cases (has_key (key (c ∷ v)) o.owners)) [
    | inl taken ↦
        rw
          (taken_elsewhere at c v (key (c ∷ v)) ref o (lookup_of_no_key (c ∷ v) o.in_server new)
            (lookup_of_has_key (key (c ∷ v)) o.owners taken).1)
          (record {
            verdict = rw taken;
            marks = λ e. absurd (cc);
            covered = λ v'. ground (
              arith,
              has_key-insert (c ∷ v) v' ref.mount_idx o.in_server,
              text_eq_iff (c ∷ v) v',
              h v',
            );
          })
    | inr free ↦
        rw
          (first_claim at c v (key (c ∷ v)) ref o (lookup_of_no_key (c ∷ v) o.in_server new)
            (lookup_of_no_key (key (c ∷ v)) o.owners free))
          (record {
            verdict = rw free;
            marks = λ e. fun_ext λ j. has_key-insert (key (c ∷ v)) j ref o.owners;
            covered = λ v'. ground (
              arith,
              has_key-insert (c ∷ v) v' ref.mount_idx o.in_server,
              has_key-insert (key (c ∷ v)) (key v') ref o.owners,
              text_eq_iff (c ∷ v) v',
              text_eq_iff (key (c ∷ v)) (key v'),
              h v',
            );
          })
  ]
]

abbrev pub mount_host_keys : Text → List MountPath → List Text
mount_host_keys node [] = []
mount_host_keys node (mp ∷ mps) =
    key_if mp.host_path (host_key node mp.host_path) ++ mount_host_keys node mps

abbrev pub mount_claims : List MountPath → List Text
mount_claims [] = []
mount_claims (mp ∷ mps) = key_if mp.claim_name mp.claim_name ++ mount_claims mps

-- A run over many entries, against the pass over their keys.
pub record Passed (node : Text) (hosts claims : Owners) (mps : List MountPath)
    (r : List FieldError × Owners × Owners) : Type 0 where
  pub verdict :
      is_empty r.0
      ≡ (clean (owned hosts) (mount_host_keys node mps) && clean (owned claims) (mount_claims mps))
  pub hosts_marks : is_empty r.0 ≡ true → owned r.1 ≡ mark (mount_host_keys node mps) (owned hosts)
  pub claims_marks : is_empty r.0 ≡ true → owned r.2 ≡ mark (mount_claims mps) (owned claims)
  pub hosts_covered : Covered (host_key node) r.1
  pub claims_covered : Covered (λ v. v) r.2

pub is_empty-append {ℓ} :
    {A : Type ℓ} (xs ys : List A) → is_empty (xs ++ ys) ≡ (is_empty xs && is_empty ys)
is_empty-append [] ys = refl
is_empty-append (x ∷ xs) ys = refl

parts_empty {ℓ} :
    {A : Type ℓ} (xs ys zs : List A)
    → is_empty (xs ++ (ys ++ zs)) ≡ true
    → (is_empty xs ≡ true) × (is_empty ys ≡ true) × (is_empty zs ≡ true)
parts_empty [] [] [] h = (refl, refl, refl)
parts_empty [] [] (z ∷ zs) h = absurd (cc)
parts_empty [] (y ∷ ys) zs h = absurd (cc)
parts_empty (x ∷ xs) ys zs h = absurd (cc)

-- One entry and then the rest, on one of the two sides.
clean_cons :
    (key : Text → Text) (value : Text) (o : Owners) (r : List FieldError × Owners)
    → Checked key value o r
    → (ks : List Text)
    → clean (owned o) (key_if value (key value) ++ ks) ≡ (is_empty r.0 && clean (owned r.1) ks)
clean_cons key value o r h ks =
    clean-append (owned o) (key_if value (key value)) ks ∙ elim (Bool-cases (is_empty r.0)) [
      | inl good ↦ ground (arith, h.verdict, good, ap (λ p. clean p ks) (h.marks good))
      | inr bad ↦ ground (arith, h.verdict, bad)
    ]

mark_cons :
    (key : Text → Text) (value : Text) (o : Owners) (r : List FieldError × Owners)
    → Checked key value o r
    → (ks : List Text) → is_empty r.0 ≡ true
    → mark ks (owned r.1) ≡ mark (key_if value (key value) ++ ks) (owned o)
mark_cons key value o r h ks good =
    ap (mark ks) (h.marks good) ∙ sym (mark-append (owned o) (key_if value (key value)) ks)

module _ (node : Text) (hosts claims : Owners) (mp : MountPath) (mps : List MountPath)
    {rh rc : List FieldError × Owners} {r : List FieldError × Owners × Owners}
    (h : Checked (host_key node) mp.host_path hosts rh)
    (c : Checked (λ v. v) mp.claim_name claims rc) (p : Passed node rh.1 rc.1 mps r) where
  Passed-cons : Passed node hosts claims (mp ∷ mps) (rh.0 ++ (rc.0 ++ r.0), r.1, r.2)
  Passed-cons = record {
    verdict = ground (
      arith,
      is_empty-append rh.0 (rc.0 ++ r.0),
      is_empty-append rc.0 r.0,
      clean_cons (host_key node) mp.host_path hosts rh h (mount_host_keys node mps),
      clean_cons (λ v. v) mp.claim_name claims rc c (mount_claims mps),
      p.verdict,
    );
    hosts_marks = λ e.
        let (eh, ec, er) = parts_empty rh.0 rc.0 r.0 e in
        p.hosts_marks er
        ∙ mark_cons (host_key node) mp.host_path hosts rh h (mount_host_keys node mps) eh;
    claims_marks = λ e.
        let (eh, ec, er) = parts_empty rh.0 rc.0 r.0 e in
        p.claims_marks er ∙ mark_cons (λ v. v) mp.claim_name claims rc c (mount_claims mps) ec;
    hosts_covered = p.hosts_covered;
    claims_covered = p.claims_covered;
  }

pub check_mounts-Passed :
    (node : Text) (i j : ℕ) (hosts claims : Owners) (mps : List MountPath)
    → Covered (host_key node) hosts
    → Covered (λ v. v) claims
    → Passed node hosts claims mps (check_mounts node i j hosts claims mps)
unfolding check_mounts
check_mounts-Passed node i j hosts claims [] hc kc = record {
  verdict = unfold clean in refl;
  hosts_marks = λ e. unfold mark in refl;
  claims_marks = λ e. unfold mark in refl;
  hosts_covered = hc;
  claims_covered = kc;
}
check_mounts-Passed node i j hosts claims (mp ∷ mps) hc kc =
    let ref : MountRef = record { server_idx = i; mount_idx = j } in
    let h = check_storage-Checked (host_key node) (host_path i j) mp.host_path ref hosts hc in
    let c = check_storage-Checked (λ v. v) (claim_name i j) mp.claim_name ref claims kc in
    Passed-cons node hosts claims mp mps h c
      (check_mounts-Passed node i (suc j) _ _ mps h.covered c.covered)
