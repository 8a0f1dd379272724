-- ===== src/Metrics/Phases.antt =====
-- internal/metrics/metrics.go: SetPhase and DeleteCluster.
use leilfs_operator.Base.{
  ℕ, Bool, true, false, ◌&&◌, ◌||◌, List, [], ◌∷◌, none, some, ◌≡◌, ◌≢◌, ◌↔◌, refl, ap, sym, ◌∙◌,
  arith, All, ◌==◌, if◌then◌else◌, Bool-cases, inl, inr,
}
use leilfs_operator.Base.Int.{ℤ, pos}
use leilfs_operator.Text.{Text, codes, text_eq, text_eq_iff, text_eq_refl}
use leilfs_operator.Metrics.{
  Family, cluster_info, cluster_phase, master_replicas_desired, master_replicas_ready,
  shadow_replicas_ready, chunk_servers_desired, chunk_servers_ready, metaloggers_ready,
  auto_discover_pvs_matched, reconcile_errors_total, family_index, Series, series_eq, Metrics,
  value_of, set, phases, phase_series, set_phases, set_phase, of_cluster, matches,
  delete_partial_match, delete_families, deleted_families, delete_cluster,
}

family_of : ℕ → Family
family_of n =
    if n == 0
    then cluster_info
    else if n == 1
    then cluster_phase
    else if n == 2
    then master_replicas_desired
    else if n == 3
    then master_replicas_ready
    else if n == 4
    then shadow_replicas_ready
    else if n == 5
    then chunk_servers_desired
    else if n == 6
    then chunk_servers_ready
    else if n == 7
    then metaloggers_ready
    else if n == 8
    then auto_discover_pvs_matched
    else reconcile_errors_total

family_of-family_index : (f : Family) → family_of (family_index f) ≡ f
family_of-family_index cluster_info = unfold family_of in refl
family_of-family_index cluster_phase = unfold family_of in refl
family_of-family_index master_replicas_desired = unfold family_of in refl
family_of-family_index master_replicas_ready = unfold family_of in refl
family_of-family_index shadow_replicas_ready = unfold family_of in refl
family_of-family_index chunk_servers_desired = unfold family_of in refl
family_of-family_index chunk_servers_ready = unfold family_of in refl
family_of-family_index metaloggers_ready = unfold family_of in refl
family_of-family_index auto_discover_pvs_matched = unfold family_of in refl
family_of-family_index reconcile_errors_total = unfold family_of in refl

series_eq_refl : (k : Series) → series_eq k k ≡ true
unfolding series_eq
series_eq_refl k =
    ground (arith, text_eq_refl k.namespace, text_eq_refl k.cluster, text_eq_refl k.label)

eq_of_series_eq : (a b : Series) → series_eq a b ≡ true → a ≡ b
unfolding series_eq
eq_of_series_eq a b h =
    let same_index : family_index a.family ≡ family_index b.family = ground arith in
    let same_family =
      sym (family_of-family_index a.family)
      ∙ (ap family_of same_index ∙ family_of-family_index b.family) in
    let same_ns = (text_eq_iff a.namespace b.namespace).0 (ground arith) in
    let same_cluster = (text_eq_iff a.cluster b.cluster).0 (ground arith) in
    let same_label = (text_eq_iff a.label b.label).0 (ground arith) in
    λ i. record {
      family = same_family i;
      namespace = same_ns i;
      cluster = same_cluster i;
      label = same_label i;
    }

series_eq_iff : (a b : Series) → (series_eq a b ≡ true) ↔ (a ≡ b)
series_eq_iff a b = (eq_of_series_eq a b, λ e. rw e (series_eq_refl b))

pub value_of-set :
    (k j : Series) (v : ℤ) (m : Metrics)
    → value_of j (set k v m) ≡ (if series_eq k j then some v else value_of j m)
unfolding value_of set
value_of-set k j v [] = refl
value_of-set k j v ((i, w) ∷ m) = elim (Bool-cases (series_eq i k)) [
  | inl hit ↦ rw hit (
      ground (arith, series_eq_iff i k, series_eq_iff k j, series_eq_iff i j, value_of-set k j v m))
  | inr miss ↦ rw miss (
      ground (arith, series_eq_iff k j, series_eq_iff i k, series_eq_iff i j, value_of-set k j v m))
]

phase_series-injective :
    (ns cluster p q : Text) → phase_series ns cluster p ≡ phase_series ns cluster q → p ≡ q
phase_series-injective ns cluster p q e = ap (λ (k : Series). k.label) e

abbrev flag : Bool → ℤ
flag b = if b then pos 1 else pos 0

abbrev pub among : Text → List Text → Bool
among q [] = false
among q (p ∷ ps) = text_eq p q || among q ps

value_of-set_phases :
    (ps : List Text) (ns cluster phase q : Text) (m : Metrics)
    → value_of (phase_series ns cluster q) (set_phases ps ns cluster phase m) ≡ (
        if among q ps
        then some (flag (text_eq q phase))
        else value_of (phase_series ns cluster q) m)
unfolding set_phases
value_of-set_phases [] ns cluster phase q m = refl
value_of-set_phases (p ∷ ps) ns cluster phase q m =
    value_of-set_phases ps ns cluster phase q
      (set (phase_series ns cluster p) (flag (text_eq p phase)) m)
    ∙ (rw
        (value_of-set (phase_series ns cluster p) (phase_series ns cluster q)
          (flag (text_eq p phase)) m)
        (go (among q ps)))
  where
    same_series : series_eq (phase_series ns cluster p) (phase_series ns cluster q) ≡ text_eq p q
    same_series = unfold series_eq in ground (arith, text_eq_refl ns, text_eq_refl cluster)

    go :
        (later : Bool)
        → (if later
            then some (flag (text_eq q phase))
            else (if series_eq (phase_series ns cluster p) (phase_series ns cluster q)
                then some (flag (text_eq p phase))
                else value_of (phase_series ns cluster q) m))
          ≡ (if text_eq p q || later
              then some (flag (text_eq q phase))
              else value_of (phase_series ns cluster q) m)
    go true = ground arith
    go false = rw same_series (elim (Bool-cases (text_eq p q)) [
      | inl hit ↦ let same = (text_eq_iff p q).0 hit in rw hit (rw same refl)
      | inr miss ↦ rw miss refl
    ])

-- After SetPhase with one of the reported phases, of the gauges of the cluster exactly that phase's
-- is 1 and those of the other reported phases are 0, whatever they were before.
pub set_phase-value_of :
    (ns cluster phase : Text) (m : Metrics)
    → among phase phases ≡ true
    → (value_of (phase_series ns cluster phase) (set_phase ns cluster phase m) ≡ some (pos 1))
      × All
          (λ q.
            q ≢ phase
            → value_of (phase_series ns cluster q) (set_phase ns cluster phase m) ≡ some (pos 0))
          phases
unfolding set_phase
set_phase-value_of ns cluster phase m h = (
  value_of-set_phases phases ns cluster phase phase m ∙ rw h (rw (text_eq_refl phase) refl),
  (
    other (codes "Pending") (unfold text_eq in refl),
    (
      other (codes "Reconciling") (unfold text_eq in refl),
      (
        other (codes "Ready") (unfold text_eq in refl),
        (other (codes "Failed") (unfold text_eq in refl), tt),
      ),
    ),
  ),
)
  where
    other :
        (q : Text)
        → among q phases ≡ true
        → q ≢ phase
        → value_of (phase_series ns cluster q) (set_phases phases ns cluster phase m) ≡ some (pos 0)
    other q known differs =
        let unequal : text_eq q phase ≡ false = ground (arith, text_eq_iff q phase) in
        value_of-set_phases phases ns cluster phase q m ∙ rw known (ap (λ b. some (flag b)) unequal)

value_of-delete_partial_match :
    (f : Family) (ns cluster : Text) (j : Series) (m : Metrics)
    → value_of j (delete_partial_match f ns cluster m)
      ≡ (if matches f ns cluster j then none else value_of j m)
unfolding delete_partial_match value_of
value_of-delete_partial_match f ns cluster j [] = ground arith
value_of-delete_partial_match f ns cluster j ((k, v) ∷ m) =
    go (series_eq k j) refl (value_of-delete_partial_match f ns cluster j m)
  where
    go :
        (same : Bool)
        → series_eq k j ≡ same
        → value_of j (delete_partial_match f ns cluster m)
          ≡ (if matches f ns cluster j then none else value_of j m)
        → value_of j (
            if matches f ns cluster k
            then delete_partial_match f ns cluster m
            else (k, v) ∷ delete_partial_match f ns cluster m)
          ≡ (if matches f ns cluster j
              then none
              else (if series_eq k j then some v else value_of j m))
    go same e ih = elim (Bool-cases (matches f ns cluster k)) [
      | inl hit ↦ rw hit (ih ∙ settle same e hit)
      | inr miss ↦ rw miss (ground (arith, ih, series_eq_iff k j, miss))
    ]
      where
        settle :
            (same : Bool)
            → series_eq k j ≡ same
            → matches f ns cluster k ≡ true
            → (if matches f ns cluster j then none else value_of j m) ≡ (
                if matches f ns cluster j
                then none
                else (if series_eq k j then some v else value_of j m))
        settle true e hit =
            let path = eq_of_series_eq k j e in rw (sym (ap (matches f ns cluster) path) ∙ hit) refl
        settle false e hit = rw e refl

abbrev covers : Family → List Family → Bool
covers f [] = false
covers f (g ∷ gs) = (family_index f == family_index g) || covers f gs

value_of-delete_families :
    (fs : List Family) (ns cluster : Text) (j : Series) (m : Metrics)
    → value_of j (delete_families fs ns cluster m)
      ≡ (if covers j.family fs && of_cluster ns cluster j then none else value_of j m)
unfolding delete_families
value_of-delete_families [] ns cluster j m = refl
value_of-delete_families (f ∷ fs) ns cluster j m =
    value_of-delete_families fs ns cluster j (delete_partial_match f ns cluster m)
    ∙ (rw (value_of-delete_partial_match f ns cluster j m) (
        either (family_index j.family == family_index f) (covers j.family fs)
          (of_cluster ns cluster j)))
  where
    either :
        (here later whose : Bool)
        → (if later && whose then none else (if here && whose then none else value_of j m))
          ≡ (if (here || later) && whose then none else value_of j m)
    either true true true = refl
    either true true false = refl
    either true false true = refl
    either true false false = refl
    either false true true = refl
    either false true false = refl
    either false false whose = refl

covers-deleted_families : (f : Family) → covers f deleted_families ≡ true
covers-deleted_families cluster_info = refl
covers-deleted_families cluster_phase = refl
covers-deleted_families master_replicas_desired = refl
covers-deleted_families master_replicas_ready = refl
covers-deleted_families shadow_replicas_ready = refl
covers-deleted_families chunk_servers_desired = refl
covers-deleted_families chunk_servers_ready = refl
covers-deleted_families metaloggers_ready = refl
covers-deleted_families auto_discover_pvs_matched = refl
covers-deleted_families reconcile_errors_total = refl

-- After DeleteCluster no series of the cluster is left, in any family, and every series of another
-- namespace or cluster has the value it had.
pub delete_cluster-value_of :
    (ns cluster : Text) (j : Series) (m : Metrics)
    → value_of j (delete_cluster ns cluster m)
      ≡ (if of_cluster ns cluster j then none else value_of j m)
unfolding delete_cluster
delete_cluster-value_of ns cluster j m =
    value_of-delete_families deleted_families ns cluster j m
    ∙ ap (λ b. if b && of_cluster ns cluster j then none else value_of j m)
        (covers-deleted_families j.family)
