-- ===== src/Tests/Servers.antt =====
-- An API server that holds objects under keys, and runs of the reconcilers on it.
use std.HLevel.{hedberg}
use std.Path.{subst_refl}
use mathlib.Core.Path.{subst}
use leilfs_operator.Base.{
  ℕ, Bool, true, false, ◌&&◌, [], Option, none, some, Result, ok, err, ◌≡◌, ◌≢◌, refl, ap, sym, ◌∙◌,
  inl, arith, ◌==◌, if◌then◌else◌,
}
use leilfs_operator.Text.{is_empty, text_eq, text_eq_iff, text_eq_refl}
use leilfs_operator.Controller.Kube.{
  ApiError, not_found, Kind, service, config_map, claim, stateful_set, deployment, daemon_set,
  disruption_budget, Key, PayloadAt, Server,
}
use leilfs_operator.Controller.Kube.Laws.{Laws, left_by}

abbrev pub kind_index : Kind → ℕ
kind_index service = 0
kind_index config_map = 1
kind_index claim = 2
kind_index stateful_set = 3
kind_index deployment = 4
kind_index daemon_set = 5
kind_index disruption_budget = 6

kind_of : ℕ → Kind
kind_of n =
    if n == 0
    then service
    else if n == 1
    then config_map
    else if n == 2
    then claim
    else if n == 3
    then stateful_set
    else if n == 4
    then deployment
    else if n == 5
    then daemon_set
    else disruption_budget

kind_of-kind_index : (k : Kind) → kind_of (kind_index k) ≡ k
kind_of-kind_index service = unfold kind_of in refl
kind_of-kind_index config_map = unfold kind_of in refl
kind_of-kind_index claim = unfold kind_of in refl
kind_of-kind_index stateful_set = unfold kind_of in refl
kind_of-kind_index deployment = unfold kind_of in refl
kind_of-kind_index daemon_set = unfold kind_of in refl
kind_of-kind_index disruption_budget = unfold kind_of in refl

unfoldable pub key_eq : Key → Key → Bool
key_eq j k =
    (kind_index j.kind == kind_index k.kind)
    && (text_eq j.namespace k.namespace && text_eq j.name k.name)

pub key_eq_refl : (k : Key) → key_eq k k ≡ true
unfolding key_eq
key_eq_refl k = ground (arith, text_eq_refl k.namespace, text_eq_refl k.name)

pub eq_of_key_eq : (j k : Key) → key_eq j k ≡ true → j ≡ k
unfolding key_eq
eq_of_key_eq j k h =
    let index : kind_index j.kind ≡ kind_index k.kind = ground arith in
    let kinds = sym (kind_of-kind_index j.kind) ∙ (ap kind_of index ∙ kind_of-kind_index k.kind) in
    let spaces = (text_eq_iff j.namespace k.namespace).0 (ground arith) in
    let names = (text_eq_iff j.name k.name).0 (ground arith) in
    λ i. record { kind = kinds i; namespace = spaces i; name = names i }

unfoldable pub same_key : Discrete Key
same_key j k = go (key_eq j k) refl
  where
    go : (b : Bool) → key_eq j k ≡ b → Dec (j ≡ k)
    go true h = yes (eq_of_key_eq j k h)
    go false h = no (λ e. cc (h, sym (ap (λ x. key_eq j x) e) ∙ key_eq_refl j))

abbrev pub Store : Type 0
Store = (k : Key) → Option (PayloadAt k)

abbrev pub put_at :
    {j k : Key} → Dec (k ≡ j) → Option (PayloadAt k) → Option (PayloadAt j) → Option (PayloadAt j)
put_at (yes p) v old = subst (λ k. Option (PayloadAt k)) p v
put_at (no n) v old = old

abbrev pub put : (k : Key) → Option (PayloadAt k) → Store → Store
put k v s j = put_at (same_key k j) v (s j)

put_at-same : (k : Key) (d : Dec (k ≡ k)) (v old : Option (PayloadAt k)) → put_at d v old ≡ v
put_at-same k (yes p) v old =
    ap (λ p. subst (λ k. Option (PayloadAt k)) p v) (hedberg same_key k k p refl)
    ∙ subst_refl (λ k. Option (PayloadAt k)) {x = k} v
put_at-same k (no n) v old = absurd (n refl)

put_at-other :
    {j : Key} (k : Key) (d : Dec (k ≡ j)) (v : Option (PayloadAt k)) (old : Option (PayloadAt j))
    → k ≢ j
    → put_at d v old ≡ old
put_at-other k (yes p) v old h = absurd (h p)
put_at-other k (no n) v old h = refl

abbrev pub read : {P : Type 0} → Option P → Result ApiError P
read none = err not_found
read (some p) = ok p

abbrev pub store_api : Server Store
store_api = record {
  get = λ k s. read (s k);
  write = λ k w s. (put k (left_by w) s, none);
  set_controller_reference = λ c k. none;
  is_zero_quantity = is_empty;
  list_claims = λ ns labels s. ok [];
  list_persistent_volumes = λ s. ok [];
  list_stateful_sets = λ ns labels s. ok [];
}

read_ok : {P : Type 0} (o : Option P) {p : P} → read o ≡ ok p → o ≡ some p
read_ok none h = absurd (cc)
read_ok (some q) h = cc

read_err : {P : Type 0} (o : Option P) → read o ≡ err not_found → o ≡ none
read_err none h = refl
read_err (some q) h = absurd (cc)

pub store_api-Laws : Laws store_api
store_api-Laws = record {
  stored = λ k s. s k;
  get-stored = λ k s h. read_ok (s k) h;
  get-missing = λ k s h. read_err (s k) h;
  marked = λ k s. false;
  write-stored = λ k w o s left h. put_at-same k (same_key k k) (left_by w) (s k) ∙ left;
  delete-removed = λ k s h. inl (put_at-same k (same_key k k) none (s k));
  delete-missing = λ k s h. absurd (cc);
  write-keeps = λ k j w s h. put_at-other k (same_key k j) (left_by w) (s j) h;
  write-marks = λ k j w s h. refl;
}

abbrev pub empty : Store
empty k = none
