-- ===== src/Controller/Kube.antt =====
-- The API server as the reconciler uses it: a parameter, with its state passed along. An action
-- returns a value or a failure, and leaves the state also when it fails. A failure carries the chain
-- that fmt.Errorf's %w builds.
pub mod Laws
pub mod Tasks
use leilfs_operator.Base.{Bool, List, [], ◌∷◌, Option, none, some, Result, ok, err, ◌++◌}
use leilfs_operator.Text.{Text}
use leilfs_operator.Text.Maps.{TextMap}
use leilfs_operator.Api.{LeilFsCluster}
use leilfs_operator.Controller.Objects.{
  Service, ConfigMap, Claim, StatefulSet, Deployment, PodDisruptionBudget, PersistentVolume,
}
use leilfs_operator.Controller.Support.{Problem}
use leilfs_operator.Controller.Goals.{MakePanic}

pub data ApiError : Type 0 where
  not_found already_exists : ApiError
  other : Text → ApiError

pub data Failure : Type 0 where
  api_failure : ApiError → Failure
  unsupported_spec : List Problem → Failure
  -- the text that fmt.Errorf puts before %w
  wrapped : Text → Failure → Failure
  panicked : MakePanic → Failure

pub data Kind : Type 0 where
  service config_map claim stateful_set deployment daemon_set disruption_budget : Kind

abbrev pub Payload : Kind → Type 0
Payload service = Service
Payload config_map = ConfigMap
Payload claim = Claim
Payload stateful_set = StatefulSet
Payload deployment = Deployment
Payload daemon_set = Unit
Payload disruption_budget = PodDisruptionBudget

pub record Key : Type 0 where
  pub kind : Kind
  pub namespace : Text
  pub name : Text

abbrev pub PayloadAt : Key → Type 0
PayloadAt k = Payload k.kind

-- client.Create, client.Update and client.Delete
pub data Write (P : Type 0) : Type 0 where
  create : P → Write P
  update : P → Write P
  delete : Write P

-- A write gives the state behind it, whether it fails or not.
pub record Server (S : Type 0) : Type 0 where
  pub get : (k : Key) → S → Result ApiError (PayloadAt k)
  pub write : (k : Key) → Write (PayloadAt k) → S → S × Option ApiError
  -- controllerutil.SetControllerReference
  pub set_controller_reference : LeilFsCluster → Key → Option ApiError
  -- Quantity.IsZero of k8s.io/apimachinery, on the text of a quantity
  pub is_zero_quantity : Text → Bool
  -- by namespace and labels, with their names
  pub list_claims : Text → TextMap Text → S → Result ApiError (List (Text × Claim))
  pub list_persistent_volumes : S → Result ApiError (List PersistentVolume)
  pub list_stateful_sets : Text → TextMap Text → S → Result ApiError (List StatefulSet)

abbrev pub Action : Type 0 → Type 0 → Type 0
Action S A = S → Result Failure A × S

module _ {S : Type 0} where
  abbrev pub pure : {A : Type 0} → A → Action S A
  pure a s = (ok a, s)

  abbrev pub raise : {A : Type 0} → Failure → Action S A
  raise e s = (err e, s)

  abbrev pub continue_with :
      {A B : Type 0} → Result Failure A × S → (A → Action S B) → Result Failure B × S
  continue_with (ok a, s) f = f a s
  continue_with (err e, s) f = (err e, s)

  infixl 5 ◌>>=◌ ◌>>◌
  abbrev pub ◌>>=◌ : {A B : Type 0} → Action S A → (A → Action S B) → Action S B
  ◌>>=◌ m f s = continue_with (m s) f

  abbrev pub ◌>>◌ : {B : Type 0} → Action S (Unit {0}) → Action S B → Action S B
  m >> k = m >>= λ _. k

  abbrev pub wrap_result : {A : Type 0} → Text → Result Failure A × S → Result Failure A × S
  wrap_result context (ok a, s) = (ok a, s)
  wrap_result context (err e, s) = (err (wrapped context e), s)

  -- `if err := …; err != nil { return fmt.Errorf("context: %w", err) }`
  abbrev pub in_context : {A : Type 0} → Text → Action S A → Action S A
  in_context context m s = wrap_result context (m s)

  abbrev pub written : S × Option ApiError → Result Failure (Unit {0}) × S
  written (s, none) = (ok tt, s)
  written (s, some e) = (err (api_failure e), s)

  -- client.IgnoreNotFound
  abbrev pub ignore_not_found : S × Option ApiError → Result Failure (Unit {0}) × S
  ignore_not_found (s, none) = (ok tt, s)
  ignore_not_found (s, some not_found) = (ok tt, s)
  ignore_not_found (s, some already_exists) = (err (api_failure already_exists), s)
  ignore_not_found (s, some (other e)) = (err (api_failure (other e)), s)

  module _ (api : Server S) where
    open api use {get, write, set_controller_reference}

    abbrev pub found_or_none : {A : Type 0} → Result ApiError A → S → Result Failure (Option A) × S
    found_or_none (ok a) s = (ok (some a), s)
    found_or_none (err not_found) s = (ok none, s)
    found_or_none (err already_exists) s = (err (api_failure already_exists), s)
    found_or_none (err (other e)) s = (err (api_failure (other e)), s)

    -- A Get whose NotFound is no error.
    unfoldable pub find : (k : Key) → Action S (Option (PayloadAt k))
    find k s = found_or_none (get k s) s

    unfoldable pub do_write : (k : Key) → Write (PayloadAt k) → Action S (Unit {0})
    do_write k w s = written (write k w s)

    -- client.IgnoreNotFound(r.Delete(…))
    unfoldable pub delete_if_found : Key → Action S (Unit {0})
    delete_if_found k s = ignore_not_found (write k delete s)

    abbrev pub owned_or_failed : Option ApiError → S → Result Failure (Unit {0}) × S
    owned_or_failed none s = (ok tt, s)
    owned_or_failed (some e) s = (err (api_failure e), s)

    unfoldable pub own : LeilFsCluster → Key → Action S (Unit {0})
    own c k s = owned_or_failed (set_controller_reference c k) s

    abbrev pub create_or :
        (k : Key)
        → PayloadAt k
        → (PayloadAt k → PayloadAt k)
        → Option (PayloadAt k)
        → Action S (Unit {0})
    create_or k desired merge none = do_write k (create desired)
    create_or k desired merge (some old) = do_write k (update (merge old))

    -- The body that the reconcilers of single objects share, from SetControllerReference on: `merge`
    -- sets the fields of an object that is there.
    unfoldable pub create_or_update :
        LeilFsCluster → (k : Key) → PayloadAt k → (PayloadAt k → PayloadAt k) → Action S (Unit {0})
    unfolding find do_write own
    create_or_update c k desired merge = do own c k; found ← find k; create_or k desired merge found

  -- `for _, x := range xs { if err := f(x); err != nil { return err } }`
  unfoldable pub for_each : {A : Type 0} → (A → Action S (Unit {0})) → List A → Action S (Unit {0})
  for_each f [] = pure tt
  for_each f (x ∷ xs) = f x >> for_each f xs
