-- ===== src/Exporter/Collector/Arity.antt =====
-- internal/exporter/collector.go: the label values of every sample against the variable labels of its
-- descriptor.
use mathlib.Core.List.{flat_map, Memᴰ}
use leilfs_operator.Base.{
  ℕ, suc, Bool, true, false, ◌⊎◌, List, [], ◌∷◌, ◌++◌, map, none, some, ◌≡◌, refl, arith, length,
  All, All-append, Result, ok, err, collect, Bool-cases, inl, inr, append-nil, append_assoc, sym,
  Option,
}
use leilfs_operator.Text.{Text}
use leilfs_operator.Exporter.Parser.{ParseError}
use leilfs_operator.Exporter.Parser.Records.{Info, Chunkserver, Metadataserver}
use leilfs_operator.Exporter.Parser.Storage.{ChunksHealthReport, Disk, Mount}
use leilfs_operator.Exporter.Collector.{
  Desc, Sample, ScrapeResult, CmdSpec, Results, variable_labels, run_all,
}
use leilfs_operator.Exporter.Collector.Samples.{
  scrape_samples, up_sample, on_parsed, on_result, info_samples, chunkserver_samples, ready_samples,
  metadataserver_samples, availability_samples, count_samples, replication_samples, health_samples,
  FlagOrder, flags_123, flags_132, flags_213, flags_231, flags_312, flags_321, flags_in,
  flag_sample, disk_samples, goal_samples, mount_samples, mounts_samples, failed,
}
use leilfs_operator.Exporter.Collector.Scrape.{
  info_block, chunkservers_block, ready_block, metadataservers_block, health_block, disks_block,
  goals_block, mounts_block, all_samples, collect_metrics,
}

abbrev pub HasArity : Sample → Type 0
HasArity s = length s.labels ≡ length (variable_labels s.desc)

All-flat_map {ℓ} :
    {A : Type ℓ} (f : A → List Sample)
    → ((a : A) → All HasArity (f a))
    → (xs : List A) → All HasArity (flat_map f xs)
unfolding flat_map
All-flat_map f h [] = tt
All-flat_map f h (x ∷ xs) = All-append HasArity (f x) (flat_map f xs) (h x) (All-flat_map f h xs)

on_result-HasArity :
    (r : Option ScrapeResult) (f : Text → List Sample)
    → ((out : Text) → All HasArity (f out))
    → All HasArity (on_result r f)
unfolding on_result
on_result-HasArity none f h = tt
on_result-HasArity (some r) f h = elim (Bool-cases (failed r)) [
  | inl bad ↦ rw bad tt
  | inr good ↦ rw good (h r.out)
]

on_parsed-HasArity :
    {A : Type 0} (r : Result ParseError A) (f : A → List Sample)
    → ((a : A) → All HasArity (f a))
    → All HasArity (on_parsed r f)
unfolding on_parsed
on_parsed-HasArity (ok a) f h = h a
on_parsed-HasArity (err e) f h = tt

scrape_samples-HasArity : (rs : Results) → All HasArity (scrape_samples rs)
unfolding scrape_samples variable_labels
scrape_samples-HasArity [] = tt
scrape_samples-HasArity ((name, r) ∷ rs) = (refl, (refl, scrape_samples-HasArity rs))

info_samples-HasArity : (i : Info) → All HasArity (info_samples i)
unfolding info_samples variable_labels
info_samples-HasArity i = omega arith

chunkserver_samples-HasArity : (c : Chunkserver) → All HasArity (chunkserver_samples c)
unfolding chunkserver_samples variable_labels
chunkserver_samples-HasArity c = elim (Bool-cases c.disconnected) [
  | inl gone ↦ rw gone (omega arith)
  | inr there ↦ rw there (omega arith)
]

metadataserver_samples-HasArity : (m : Metadataserver) → All HasArity (metadataserver_samples m)
unfolding metadataserver_samples variable_labels
metadataserver_samples-HasArity m = (refl, (refl, (refl, tt)))

count_samples-HasArity :
    (d : Desc) (goal : Text) (i : ℕ) (ns : List ℕ)
    → length (variable_labels d) ≡ 2
    → All HasArity (count_samples d goal i ns)
unfolding count_samples
count_samples-HasArity d goal i [] e = tt
count_samples-HasArity d goal i (n ∷ ns) e = (sym e, count_samples-HasArity d goal (suc i) ns e)

health_samples-HasArity : (r : ChunksHealthReport) → All HasArity (health_samples r)
unfolding health_samples variable_labels
health_samples-HasArity r =
    All-append HasArity (flat_map availability_samples r.availability)
      (flat_map (replication_samples Desc.ch_rep) r.replication
        ++ flat_map (replication_samples Desc.ch_del) r.deletion)
      (All-flat_map availability_samples (λ a. (refl, (refl, (refl, tt)))) r.availability)
      (All-append HasArity (flat_map (replication_samples Desc.ch_rep) r.replication)
        (flat_map (replication_samples Desc.ch_del) r.deletion)
        (All-flat_map (replication_samples Desc.ch_rep)
          (λ x. count_samples-HasArity Desc.ch_rep x.goal 0 x.counts refl) r.replication)
        (All-flat_map (replication_samples Desc.ch_del)
          (λ x. count_samples-HasArity Desc.ch_del x.goal 0 x.counts refl) r.deletion))

mounts_samples-HasArity : (ms : List Mount) → All HasArity (mounts_samples ms)
unfolding mounts_samples variable_labels
mounts_samples-HasArity ms = (refl, All-flat_map mount_samples (λ m. (refl, tt)) ms)

disk_samples-HasArity : (flags : Disk → FlagOrder) (d : Disk) → All HasArity (disk_samples flags d)
unfolding disk_samples flag_sample flags_in variable_labels
disk_samples-HasArity flags d = (refl, (refl, (refl, ordered (flags d))))
  where
    ordered : (o : FlagOrder) → All HasArity (map (flag_sample d) (flags_in o))
    ordered flags_123 = (refl, (refl, (refl, tt)))
    ordered flags_132 = (refl, (refl, (refl, tt)))
    ordered flags_213 = (refl, (refl, (refl, tt)))
    ordered flags_231 = (refl, (refl, (refl, tt)))
    ordered flags_312 = (refl, (refl, (refl, tt)))
    ordered flags_321 = (refl, (refl, (refl, tt)))

all_samples-HasArity :
    (flags : Disk → FlagOrder) (rs : Results) → All HasArity (all_samples flags rs)
unfolding all_samples info_block chunkservers_block ready_block metadataservers_block health_block
    disks_block goals_block mounts_block up_sample ready_samples goal_samples variable_labels
all_samples-HasArity flags rs = both (scrape_samples rs) _ (scrape_samples-HasArity rs) (
  refl,
  both (info_block rs) _ (block _ _ λ out. parsed _ _ info_samples-HasArity) (
      both (chunkservers_block rs) _
        (block _ _ λ out. parsed _ _ (All-flat_map _ chunkserver_samples-HasArity))
        (both (ready_block rs) _ (block _ _ λ out. parsed _ _ λ v. (refl, tt)) (
          both (metadataservers_block rs) _
            (block _ _ λ out. parsed _ _ (All-flat_map _ metadataserver_samples-HasArity))
            (both (health_block rs) _ (block _ _ λ out. parsed _ _ health_samples-HasArity) (
              both (disks_block flags rs) _
                (block _ _ λ out. parsed _ _ (All-flat_map _ (disk_samples-HasArity flags)))
                (both (goals_block rs) _
                  (block _ _ λ out. parsed _ _ (All-flat_map _ λ g. (refl, tt)))
                  (block _ _ λ out. parsed _ _ mounts_samples-HasArity))))))),
)
  where
    both : (xs ys : List Sample) → All HasArity xs → All HasArity ys → All HasArity (xs ++ ys)
    both xs ys hx hy = All-append HasArity xs ys hx hy

    block :
        (r : Option ScrapeResult) (f : Text → List Sample)
        → ((out : Text) → All HasArity (f out))
        → All HasArity (on_result r f)
    block = on_result-HasArity

    parsed :
        {A : Type 0} (r : Result ParseError A) (f : A → List Sample)
        → ((a : A) → All HasArity (f a))
        → All HasArity (on_parsed r f)
    parsed r f h = on_parsed-HasArity r f h

-- The texts that are label values: those that `valid` accepts.
abbrev pub ValidLabels : (Text → Bool) → Sample → Type 0
ValidLabels valid s = All (λ v. valid v ≡ true) s.labels

-- What prometheus documents of MustNewConstMetric: it panics only if the number of label values is
-- not that of the descriptor's variable labels, or if a label value is no UTF-8. `valid` is
-- utf8.ValidString.
abbrev pub Accepts : {E M : Type 0} → (Text → Bool) → (Sample → Result E M) → (Sample → M) → Type 0
Accepts valid must_new metric =
    (s : Sample) → HasArity s → ValidLabels valid s → must_new s ≡ ok (metric s)

-- A sample of the list has a label value that is refused.
abbrev pub HasInvalid : (Text → Bool) → List Sample → Type 0
HasInvalid valid ss = (s : Sample) × Memᴰ s ss × ((v : Text) × Memᴰ v s.labels × (valid v ≡ false))

valid_or_not :
    (valid : Text → Bool) (vs : List Text)
    → All (λ v. valid v ≡ true) vs ⊎ ((v : Text) × Memᴰ v vs × (valid v ≡ false))
valid_or_not valid [] = inl tt
valid_or_not valid (v ∷ vs) = elim (Bool-cases (valid v)) [
  | inr bad ↦ inr (v, Memᴰ.head refl, bad)
  | inl good ↦ elim (valid_or_not valid vs) [
    | inl all ↦ inl (good, all)
    | inr (w, m, bad) ↦ inr (w, Memᴰ.tail m, bad)
  ]
]

samples_valid_or_not :
    (valid : Text → Bool) (ss : List Sample) → All (ValidLabels valid) ss ⊎ HasInvalid valid ss
samples_valid_or_not valid [] = inl tt
samples_valid_or_not valid (s ∷ ss) = elim (valid_or_not valid s.labels) [
  | inr bad ↦ inr (s, Memᴰ.head refl, bad)
  | inl good ↦ elim (samples_valid_or_not valid ss) [
    | inl all ↦ inl (good, all)
    | inr (t, m, bad) ↦ inr (t, Memᴰ.tail m, bad)
  ]
]

collect-Accepts :
    {E M : Type 0} (valid : Text → Bool) (must_new : Sample → Result E M) (metric : Sample → M)
    (out : List M) (ss : List Sample)
    → Accepts valid must_new metric
    → All HasArity ss
    → All (ValidLabels valid) ss
    → collect must_new out ss ≡ ok (out ++ map metric ss)
unfolding collect
collect-Accepts valid must_new metric out [] accepts h v = rw append-nil
collect-Accepts valid must_new metric out (s ∷ ss) accepts (h, hs) (v, vs) = rw (accepts s h v) (
    rw
      (collect-Accepts valid must_new metric (out ++ metric s ∷ []) ss accepts hs vs, append_assoc))

-- With valid label values only, every metric is sent.
pub collect_metrics-valid :
    {E M : Type 0} (valid : Text → Bool) (must_new : Sample → Result E M) (metric : Sample → M)
    (run : List Text → ScrapeResult) (order : List CmdSpec) (flags : Disk → FlagOrder)
    → Accepts valid must_new metric
    → All (ValidLabels valid) (all_samples flags (run_all run order))
    → collect_metrics must_new run order flags
      ≡ ok (map metric (all_samples flags (run_all run order)))
unfolding collect_metrics
collect_metrics-valid valid must_new metric run order flags accepts good =
    collect-Accepts valid must_new metric [] (all_samples flags (run_all run order)) accepts
      (all_samples-HasArity flags (run_all run order)) good

-- If MustNewConstMetric accepts a sample that has one value for each variable label of its
-- descriptor and only valid label values, then the number of values never makes Collect panic:
-- whatever the subcommands print and in whatever order the maps are gone through, every sample has
-- one value for each variable label, and Collect sends the metric of every sample, unless some
-- sample has a label value that is not valid.
pub collect_metrics-total :
    {E M : Type 0} (valid : Text → Bool) (must_new : Sample → Result E M) (metric : Sample → M)
    (run : List Text → ScrapeResult) (order : List CmdSpec) (flags : Disk → FlagOrder)
    → Accepts valid must_new metric
    → All HasArity (all_samples flags (run_all run order))
      × ((collect_metrics must_new run order flags
            ≡ ok (map metric (all_samples flags (run_all run order))))
          ⊎ HasInvalid valid (all_samples flags (run_all run order)))
collect_metrics-total valid must_new metric run order flags accepts =
    let ss = all_samples flags (run_all run order) in
    (
      all_samples-HasArity flags (run_all run order),
      elim (samples_valid_or_not valid ss) [
        | inl good ↦ inl (collect_metrics-valid valid must_new metric run order flags accepts good)
        | inr bad ↦ inr bad
      ],
    )
