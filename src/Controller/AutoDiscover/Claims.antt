-- ===== src/Controller/AutoDiscover/Claims.antt =====
-- internal/controller/leilfscluster_controller.go: the claim that ensureAutoDiscoverPVC leaves for a
-- volume.
use leilfs_operator.Base.{
  [], ◌∷◌, ◌++◌, Option, none, some, Result, ok, ◌≡◌, ◌≢◌, refl, ap, sym, ◌∙◌, All,
}
use leilfs_operator.Text.{codes, text_eq}
use leilfs_operator.Text.Maps.{lookup}
use leilfs_operator.Api.{LeilFsCluster}
use leilfs_operator.Controller.Objects.{Claim, PersistentVolume}
use leilfs_operator.Controller.Kube.{
  Failure, Key, PayloadAt, Server, Action, create, find, do_write, own,
}
use leilfs_operator.Controller.Kube.Laws.{
  Laws, Keeps, >>=-Keeps, find-Keeps, own-Keeps, do_write-Keeps, do_write-stored,
  continue_with-eq-ok, Seen, find-stored,
}
use leilfs_operator.Controller.Kube.Tasks.{Task, Some, Does, task_in, task_in-Does}
use leilfs_operator.Controller.Chunks.{chunk_name}
use leilfs_operator.Controller.Chunks.Keys.{bound, part_key}
use leilfs_operator.Controller.AutoDiscover.{
  discovered_name, discovered_claim, swept_labels, create_unless_there, ensure_auto_discover_claim,
}

-- The claim that is made for a volume: bound to the volume alone, with its storage, for one node, in no
-- storage class, and with the labels by which the sweep lists the claims.
pub record BoundTo (c : LeilFsCluster) (pv : PersistentVolume) (o : Claim) : Type 0 where
  pub volume_name : o.volume_name ≡ pv.name
  pub storage : o.storage ≡ pv.storage
  pub access_modes : o.access_modes ≡ codes "ReadWriteOnce" ∷ []
  pub storage_class_name : o.storage_class_name ≡ some []
  pub swept : All (λ l. lookup l.0 o.labels ≡ some l.1) (swept_labels c)

-- The claim of a volume, by what was there before.
abbrev pub ClaimFor : LeilFsCluster → PersistentVolume → Option Claim → Claim → Type 0
ClaimFor c pv none o = BoundTo c pv o
ClaimFor c pv (some old) o = o ≡ old

discovered_claim-BoundTo :
    (c : LeilFsCluster) (pv : PersistentVolume) → BoundTo c pv (discovered_claim c pv)
unfolding discovered_claim lookup text_eq
discovered_claim-BoundTo c pv = record {
  volume_name = refl;
  storage = refl;
  access_modes = refl;
  storage_class_name = refl;
  swept = (refl, (refl, tt));
}

module _ {S : Type 0} (api : Server S) (c : LeilFsCluster) where
  abbrev pub claim_task : PersistentVolume → Task S
  claim_task pv = task_in (codes "auto-discover PVC for PV " ++ pv.name) (record {
    key = part_key c bound (discovered_name pv);
    goal = λ before after. Some (ClaimFor c pv before.0) after.0;
    run = ensure_auto_discover_claim api c pv (chunk_name c (discovered_name pv));
  })

  module _ (laws : Laws api) where
    open laws use {stored}

    create_unless_there-Keeps :
        (k j : Key) (desired : PayloadAt k) (found : Option (PayloadAt k))
        → k ≢ j
        → Keeps laws j (create_unless_there api c k desired found)
    create_unless_there-Keeps k j desired (some old) h = λ s. refl
    create_unless_there-Keeps k j desired none h =
        >>=-Keeps laws j (own api c k) (λ _. do_write api k (create desired)) (own-Keeps laws c k j)
          (λ _. do_write-Keeps laws k j (create desired) h)

    create_unless_there-Some :
        (k : Key) (desired : PayloadAt k) (Q : Option (PayloadAt k) → PayloadAt k → Type 0)
        (found : Option (PayloadAt k)) (s : S)
        → Q none desired
        → ((old : PayloadAt k) → Q (some old) old)
        → stored k s ≡ found
        → (create_unless_there api c k desired found s).0 ≡ ok tt
        → Some (Q found) (stored k (create_unless_there api c k desired found s).1)
    create_unless_there-Some k desired Q (some old) s p q e h = (old, e, q old)
    create_unless_there-Some k desired Q none s p q e h =
        let (_, _, path) =
          continue_with-eq-ok (own api c k s) (λ _. do_write api k (create desired)) h in
        let written = sym (ap (λ (r : Result Failure (Unit {0}) × S). r.0) path) ∙ h in
        rw path (
          desired,
          do_write-stored laws k (create desired) desired (own api c k s).1 refl written,
          p,
        )

    pub claim_task-Does : (pv : PersistentVolume) → Does laws (claim_task pv)
    claim_task-Does pv =
        task_in-Does laws (codes "auto-discover PVC for PV " ++ pv.name)
          (record {
            key = k;
            goal = λ before after. Some (ClaimFor c pv before.0) after.0;
            run = ensure_auto_discover_claim api c pv (chunk_name c (discovered_name pv));
          })
          (unfold ensure_auto_discover_claim in
            record {
              keeps = λ j h.
                  >>=-Keeps laws j (find api k) make (find-Keeps laws k j)
                    (λ found. create_unless_there-Keeps k j (discovered_claim c pv) found h);
              reaches = λ s h.
                  let (found, first, path) = continue_with-eq-ok (find api k s) make h in
                  let before : stored k s ≡ found = find-stored laws k s found first in
                  let same : stored k (find api k s).1 ≡ stored k s =
                    ap (λ (o : Seen k). o.0) (find-Keeps laws k k s) in
                  rw (path, before)
                    (create_unless_there-Some k (discovered_claim c pv) (ClaimFor c pv) found
                      (find api k s).1 (discovered_claim-BoundTo c pv) (λ old. refl) (same ∙ before)
                      (sym (ap (λ (r : Result Failure (Unit {0}) × S). r.0) path) ∙ h));
            })
      where
        k : Key
        k = part_key c bound (discovered_name pv)

        make : Option (PayloadAt k) → Action S (Unit {0})
        make = create_unless_there api c k (discovered_claim c pv)
