-- ===== src/Controller/Workloads/Templates.antt =====
-- internal/controller/leilfscluster_controller.go: the volume claim templates of the metaloggers.
use leilfs_operator.Base.{
  Bool, Bool-cases, ◌⊎◌, inl, inr, true, false, [], ◌∷◌, Option, none, some, ◌≡◌, ◌≢◌, refl,
  if◌then◌else◌,
}
use mathlib.Core.List.{cons-ne-nil}
use leilfs_operator.Text.{Text, codes, is_empty}
use leilfs_operator.Base.Int.{ℤ}
use leilfs_operator.Api.{MasterStorageSpec, MetaloggerSpec, LeilFsCluster}
use leilfs_operator.Controller.Objects.{StatefulSet, Claim}
use leilfs_operator.Controller.Workloads.{
  metalogger_stateful_set, metalogger_claim, storage_size, storage_class,
}

module _ (is_zero : Text → Bool) where
  -- The size that a metalogger's storage asks for, and "5Gi" where it asks for none.
  abbrev pub AskedSize : Option MasterStorageSpec → Text → Type 0
  AskedSize none size = size ≡ codes "5Gi"
  AskedSize (some st) size =
      ((is_zero st.size ≡ true) × (size ≡ codes "5Gi"))
      ⊎ ((is_zero st.size ≡ false) × (size ≡ st.size))

  -- The class that it asks for, if any.
  abbrev pub AskedClass : Option MasterStorageSpec → Option Text → Type 0
  AskedClass none class_name = class_name ≡ none
  AskedClass (some st) class_name =
      ((st.storage_class_name ≡ []) × (class_name ≡ none))
      ⊎ ((st.storage_class_name ≢ []) × (class_name ≡ some st.storage_class_name))

  -- A claim with the storage that the section asks for, for pods on one node.
  pub record Stores (ml : MetaloggerSpec) (o : Claim) : Type 0 where
    pub size : AskedSize ml.metadata_storage o.storage
    pub class_name : AskedClass ml.metadata_storage o.storage_class_name
    pub access_modes : o.access_modes ≡ codes "ReadWriteOnce" ∷ []

  -- The volume claim templates: the one that the pods mount, with the storage that the section asks
  -- for, on a new StatefulSet, and the old ones on one that was there.
  abbrev pub TemplatesFrom : MetaloggerSpec → Option StatefulSet → StatefulSet → Type 0
  TemplatesFrom ml none o =
      (cl : Claim) × (o.volume_claim_templates ≡ (codes "metalogger-data", cl) ∷ []) × Stores ml cl
  TemplatesFrom ml (some old) o = o.volume_claim_templates ≡ old.volume_claim_templates

  storage_size-AskedSize : (st : Option MasterStorageSpec) → AskedSize st (storage_size is_zero st)
  storage_size-AskedSize none = refl
  storage_size-AskedSize (some st) = elim (Bool-cases (is_zero st.size)) [
    | inl zero ↦ inl (zero, rw zero refl)
    | inr more ↦ inr (more, rw more refl)
  ]

  storage_class-AskedClass : (st : Option MasterStorageSpec) → AskedClass st (storage_class st)
  storage_class-AskedClass none = refl
  storage_class-AskedClass (some st) = of_class st.storage_class_name
    where
      of_class :
          (n : Text)
          → ((n ≡ []) × ((if is_empty n then none else some n) ≡ none))
            ⊎ ((n ≢ []) × ((if is_empty n then none else some n) ≡ some n))
      of_class [] = inl (refl, refl)
      of_class (c ∷ n) = inr (cons-ne-nil c n, refl)

  metalogger_claim-Stores : (ml : MetaloggerSpec) → Stores ml (metalogger_claim is_zero ml)
  unfolding metalogger_claim
  metalogger_claim-Stores ml = record {
    size = storage_size-AskedSize ml.metadata_storage;
    class_name = storage_class-AskedClass ml.metadata_storage;
    access_modes = refl;
  }

  pub metalogger_stateful_set-TemplatesFrom :
      (c : LeilFsCluster) (ml : MetaloggerSpec) (replicas : ℤ)
      → TemplatesFrom ml none (metalogger_stateful_set is_zero c ml replicas)
  unfolding metalogger_stateful_set
  metalogger_stateful_set-TemplatesFrom c ml replicas =
      (metalogger_claim is_zero ml, refl, metalogger_claim-Stores ml)
