-- ===== src/Controller/StatefulSets.antt =====
-- internal/controller/leilfscluster_controller.go: createOrUpdateStatefulSet and
-- createOrUpdateDeployment.
use leilfs_operator.Base.{[], ◌∷◌, some, ◌≡◌, ◌≢◌, refl, ◌∙◌, arith, All}
use leilfs_operator.Text.{Text, text_eq_iff, text_eq_refl}
use leilfs_operator.Text.Maps.{TextMap, lookup, insert, lookup-insert}
use leilfs_operator.Controller.Objects.{StatefulSet, Deployment}

-- `for k, v := range m { old[k] = v }`
unfoldable pub merge_labels : TextMap Text → TextMap Text → TextMap Text
merge_labels old [] = old
merge_labels old ((k, v) ∷ m) = merge_labels (insert k v old) m

-- What is set on a StatefulSet that is there.
unfoldable pub merge_stateful_set : StatefulSet → StatefulSet → StatefulSet
unfolding merge_labels
merge_stateful_set desired old = record old {
  template = desired.template;
  replicas = desired.replicas;
  labels = merge_labels old.labels desired.labels;
}

unfoldable pub merge_deployment : Deployment → Deployment → Deployment
merge_deployment desired old = record old {
  template = desired.template;
  replicas = desired.replicas;
}

-- The keys of a map differ.
abbrev pub DistinctFields : TextMap Text → Type 0
DistinctFields [] = Unit
DistinctFields ((k, v) ∷ m) = All (λ f. f.0 ≢ k) m × DistinctFields m

-- Every entry of the one map is in the other.
abbrev pub Included : TextMap Text → TextMap Text → Type 0
Included m labels = All (λ f. lookup f.0 labels ≡ some f.1) m

lookup-merge_labels :
    (k : Text) (old m : TextMap Text)
    → All (λ f. f.0 ≢ k) m
    → lookup k (merge_labels old m) ≡ lookup k old
unfolding merge_labels
lookup-merge_labels k old [] h = refl
lookup-merge_labels k old ((j, v) ∷ m) (h, hs) =
    lookup-merge_labels k (insert j v old) m hs
    ∙ (lookup-insert j k v old ∙ ground (arith, text_eq_iff j k, h))

pub merge_labels-Included :
    (old m : TextMap Text) → DistinctFields m → Included m (merge_labels old m)
unfolding merge_labels
merge_labels-Included old [] h = tt
merge_labels-Included old ((k, v) ∷ m) (h, hs) = (
  lookup-merge_labels k (insert k v old) m h ∙ (lookup-insert k k v old ∙ (rw (text_eq_refl k))),
  merge_labels-Included (insert k v old) m hs,
)

Included-cons :
    (k v : Text) (m xs : TextMap Text)
    → All (λ f. f.0 ≢ k) xs
    → Included xs m
    → Included xs ((k, v) ∷ m)
unfolding lookup
Included-cons k v m [] h i = tt
Included-cons k v m (x ∷ xs) (h, hs) (i, rest) =
    (ground (arith, text_eq_iff k x.0, h, i), Included-cons k v m xs hs rest)

-- Every entry of a map whose keys differ is found in it.
pub Included-refl : (m : TextMap Text) → DistinctFields m → Included m m
unfolding lookup
Included-refl [] h = tt
Included-refl ((k, v) ∷ m) (h, hs) =
    (rw (text_eq_refl k), Included-cons k v m m h (Included-refl m hs))

-- A StatefulSet that runs what the desired one asks for.
pub record RunsAs (desired o : StatefulSet) : Type 0 where
  pub template : o.template ≡ desired.template
  pub replicas : o.replicas ≡ desired.replicas
  pub labels : Included desired.labels o.labels

pub RunsAs-refl : (d : StatefulSet) → DistinctFields d.labels → RunsAs d d
RunsAs-refl d h = record { template = refl; replicas = refl; labels = Included-refl d.labels h }

pub merge_stateful_set-RunsAs :
    (d old : StatefulSet) → DistinctFields d.labels → RunsAs d (merge_stateful_set d old)
unfolding merge_stateful_set
merge_stateful_set-RunsAs d old h = record {
  template = refl;
  replicas = refl;
  labels = merge_labels-Included old.labels d.labels h;
}
