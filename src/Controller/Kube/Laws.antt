-- ===== src/Controller/Kube/Laws.antt =====
-- What Kubernetes documents of the API server's operations, and what an action that ends well did.
use leilfs_operator.Base.{
  Bool, true, Option, none, some, Result, ok, err, ◌≡◌, ◌≢◌, ◌⊎◌, inl, refl, ap, sym, ◌∙◌,
}
use leilfs_operator.Text.{Text}
use leilfs_operator.Api.{LeilFsCluster}
use leilfs_operator.Controller.Kube.{
  ApiError, not_found, already_exists, other, Failure, Key, PayloadAt, Write, create, update,
  delete, Server, Action, continue_with, wrap_result, in_context, written, ignore_not_found,
  found_or_none, find, do_write, delete_if_found, owned_or_failed, own, create_or, create_or_update,
  ◌>>=◌,
}

-- What a write that succeeds sets under its key: nothing, for a delete.
abbrev pub left_by : {P : Type 0} → Write P → Option P
left_by (create p) = some p
left_by (update p) = some p
left_by delete = none

-- What is seen under a key: the object, if there is one, and whether what was under the key has been
-- marked for deletion.
abbrev pub Seen : Key → Type 0
Seen k = Option (PayloadAt k) × Bool

-- No object is left, or the one that is left has been marked for deletion.
abbrev pub Removed : {P : Type 0} → Option P × Bool → Type 0
Removed o = (o.0 ≡ none) ⊎ (o.1 ≡ true)

-- The server holds objects under keys. A read tells what is held, a create or an update that succeeds
-- sets what is held under its key, and no write, failed or not, touches another key. A delete that
-- succeeds removes the object, or only marks it for deletion (metadata.deletionTimestamp) where
-- finalizers hold it, as they hold a claim that a pod uses. A delete that finds nothing has nothing to
-- remove.
pub record Laws {S : Type 0} (api : Server S) : Type 0 where
  pub stored : (k : Key) → S → Option (PayloadAt k)
  pub marked : Key → S → Bool
  pub get-stored : (k : Key) (s : S) {o : PayloadAt k} → api.get k s ≡ ok o → stored k s ≡ some o
  pub get-missing : (k : Key) (s : S) → api.get k s ≡ err not_found → stored k s ≡ none
  pub write-stored :
      (k : Key) (w : Write (PayloadAt k)) (o : PayloadAt k) (s : S)
      → left_by w ≡ some o
      → (api.write k w s).1 ≡ none
      → stored k (api.write k w s).0 ≡ some o
  pub delete-removed :
      (k : Key) (s : S)
      → (api.write k delete s).1 ≡ none
      → Removed (stored k (api.write k delete s).0, marked k (api.write k delete s).0)
  pub delete-missing :
      (k : Key) (s : S)
      → (api.write k delete s).1 ≡ some not_found
      → stored k (api.write k delete s).0 ≡ none
  pub write-keeps :
      (k j : Key) (w : Write (PayloadAt k)) (s : S)
      → k ≢ j
      → stored j (api.write k w s).0 ≡ stored j s
  pub write-marks :
      (k j : Key) (w : Write (PayloadAt k)) (s : S)
      → k ≢ j
      → marked j (api.write k w s).0 ≡ marked j s

-- A chain of two actions that ends well: the first one did.
pub continue_with-eq-ok :
    {S A B : Type 0} (r : Result Failure A × S) (f : A → Action S B) {b : B}
    → (continue_with r f).0 ≡ ok b
    → (a : A) × (r.0 ≡ ok a) × (continue_with r f ≡ f a r.1)
continue_with-eq-ok (ok a, s) f h = (a, refl, refl)
continue_with-eq-ok (err e, s) f h = absurd (cc)

module _ {S : Type 0} {api : Server S} (laws : Laws api) where
  open laws use {
    stored, marked, get-stored, get-missing, write-stored, delete-removed, delete-missing,
    write-keeps, write-marks,
  }

  -- What is seen of a key.
  abbrev pub seen : (k : Key) → S → Seen k
  seen k s = (stored k s, marked k s)

  write-seen :
      (k j : Key) (w : Write (PayloadAt k)) (s : S) → k ≢ j → seen j (api.write k w s).0 ≡ seen j s
  write-seen k j w s h = λ i. (write-keeps k j w s h i, write-marks k j w s h i)

  -- An action that leaves what is seen under a key as it is.
  abbrev pub Keeps : {A : Type 0} → Key → Action S A → Type 0
  Keeps j m = (s : S) → seen j (m s).1 ≡ seen j s

  continue_with-Keeps :
      {A B : Type 0} (j : Key) (r : Result Failure A × S) (f : A → Action S B)
      → ((a : A) → Keeps j (f a))
      → seen j (continue_with r f).1 ≡ seen j r.1
  continue_with-Keeps j (ok a, s) f h = h a s
  continue_with-Keeps j (err e, s) f h = refl

  pub >>=-Keeps :
      {A B : Type 0} (j : Key) (m : Action S A) (f : A → Action S B)
      → Keeps j m
      → ((a : A) → Keeps j (f a))
      → Keeps j (m >>= f)
  >>=-Keeps j m f h k s = continue_with-Keeps j (m s) f k ∙ h s

  pub in_context-Keeps :
      {A : Type 0} (j : Key) (context : Text) (m : Action S A)
      → Keeps j m
      → Keeps j (in_context context m)
  in_context-Keeps j context m h s = unchanged (m s) ∙ h s
    where
      unchanged :
          {A : Type 0} (r : Result Failure A × S) → seen j (wrap_result context r).1 ≡ seen j r.1
      unchanged (ok a, s) = refl
      unchanged (err e, s) = refl

  written_state : (r : S × Option ApiError) → (written r).1 ≡ r.0
  written_state (s, none) = refl
  written_state (s, some e) = refl

  ignore_not_found_state : (r : S × Option ApiError) → (ignore_not_found r).1 ≡ r.0
  ignore_not_found_state (s, none) = refl
  ignore_not_found_state (s, some not_found) = refl
  ignore_not_found_state (s, some already_exists) = refl
  ignore_not_found_state (s, some (other e)) = refl

  pub do_write-Keeps : (k j : Key) (w : Write (PayloadAt k)) → k ≢ j → Keeps j (do_write api k w)
  unfolding do_write
  do_write-Keeps k j w h s = ap (seen j) (written_state (api.write k w s)) ∙ write-seen k j w s h

  pub delete_if_found-Keeps : (k j : Key) → k ≢ j → Keeps j (delete_if_found api k)
  unfolding delete_if_found
  delete_if_found-Keeps k j h s =
      ap (seen j) (ignore_not_found_state (api.write k delete s)) ∙ write-seen k j delete s h

  pub found_or_none_state :
      {A : Type 0} (r : Result ApiError A) (s : S) → (found_or_none api r s).1 ≡ s
  found_or_none_state (ok a) s = refl
  found_or_none_state (err not_found) s = refl
  found_or_none_state (err already_exists) s = refl
  found_or_none_state (err (other e)) s = refl

  pub find-Keeps : (k j : Key) → Keeps j (find api k)
  unfolding find
  find-Keeps k j s = ap (seen j) (found_or_none_state (api.get k s) s)

  pub own-Keeps : (c : LeilFsCluster) (k j : Key) → Keeps j (own api c k)
  unfolding own
  own-Keeps c k j s = same (api.set_controller_reference c k)
    where
      same : (e : Option ApiError) → seen j (owned_or_failed api e s).1 ≡ seen j s
      same none = refl
      same (some e) = refl

  create_or-Keeps :
      (k j : Key) (desired : PayloadAt k) (merge : PayloadAt k → PayloadAt k)
      (found : Option (PayloadAt k))
      → k ≢ j
      → Keeps j (create_or api k desired merge found)
  create_or-Keeps k j desired merge none h = do_write-Keeps k j (create desired) h
  create_or-Keeps k j desired merge (some old) h = do_write-Keeps k j (update (merge old)) h

  pub create_or_update-Keeps :
      (c : LeilFsCluster) (k j : Key) (desired : PayloadAt k) (merge : PayloadAt k → PayloadAt k)
      → k ≢ j
      → Keeps j (create_or_update api c k desired merge)
  unfolding create_or_update
  create_or_update-Keeps c k j desired merge h = >>=-Keeps j (own api c k) _ (own-Keeps c k j) λ _.
      >>=-Keeps j (find api k) _ (find-Keeps k j) λ found. create_or-Keeps k j desired merge found h

  pub do_write-stored :
      (k : Key) (w : Write (PayloadAt k)) (o : PayloadAt k) (s : S)
      → left_by w ≡ some o
      → (do_write api k w s).0 ≡ ok tt
      → stored k (do_write api k w s).1 ≡ some o
  unfolding do_write
  do_write-stored k w o s left h = go (api.write k w s) refl h
    where
      go :
          (r : S × Option ApiError)
          → api.write k w s ≡ r
          → (written r).0 ≡ ok tt
          → stored k (written (api.write k w s)).1 ≡ some o
      go (t, none) e h =
          ap (stored k) (written_state (api.write k w s))
          ∙ write-stored k w o s left (ap (λ (r : S × Option ApiError). r.1) e)
      go (t, some x) e h = absurd (cc)

  pub do_delete-Removed :
      (k : Key) (s : S)
      → (do_write api k delete s).0 ≡ ok tt
      → Removed (seen k (do_write api k delete s).1)
  unfolding do_write
  do_delete-Removed k s h = go (api.write k delete s) refl h
    where
      go :
          (r : S × Option ApiError)
          → api.write k delete s ≡ r
          → (written r).0 ≡ ok tt
          → Removed (seen k (written (api.write k delete s)).1)
      go (t, none) e h =
          rw (written_state (api.write k delete s))
            (delete-removed k s (ap (λ (r : S × Option ApiError). r.1) e))
      go (t, some x) e h = absurd (cc)

  pub delete_if_found-Removed :
      (k : Key) (s : S)
      → (delete_if_found api k s).0 ≡ ok tt
      → Removed (seen k (delete_if_found api k s).1)
  unfolding delete_if_found
  delete_if_found-Removed k s h =
      rw (ignore_not_found_state (api.write k delete s)) (go (api.write k delete s) refl h)
    where
      go :
          (r : S × Option ApiError)
          → api.write k delete s ≡ r
          → (ignore_not_found r).0 ≡ ok tt
          → Removed (seen k (api.write k delete s).0)
      go (t, none) e h = delete-removed k s (ap (λ (r : S × Option ApiError). r.1) e)
      go (t, some not_found) e h =
          inl (delete-missing k s (ap (λ (r : S × Option ApiError). r.1) e))
      go (t, some already_exists) e h = absurd (cc)
      go (t, some (other x)) e h = absurd (cc)

  abbrev answer : {A : Type 0} → Option A → Result ApiError A
  answer none = err not_found
  answer (some a) = ok a

  found_or_none-ok :
      {A : Type 0} (r : Result ApiError A) (s : S) (o : Option A)
      → (found_or_none api r s).0 ≡ ok o
      → r ≡ answer o
  found_or_none-ok (ok a) s none h = absurd (cc)
  found_or_none-ok (ok a) s (some b) h = cc
  found_or_none-ok (err not_found) s none h = refl
  found_or_none-ok (err not_found) s (some b) h = absurd (cc)
  found_or_none-ok (err already_exists) s o h = absurd (cc)
  found_or_none-ok (err (other e)) s o h = absurd (cc)

  -- What a read that ends well finds is what is held, before it and after it.
  pub find-stored :
      (k : Key) (s : S) (found : Option (PayloadAt k))
      → (find api k s).0 ≡ ok found
      → stored k s ≡ found
  unfolding find
  find-stored k s none h = get-missing k s (found_or_none-ok (api.get k s) s none h)
  find-stored k s (some o) h = get-stored k s (found_or_none-ok (api.get k s) s (some o) h)

  -- What is held under a key, and how it compares with what was wanted.
  abbrev pub Holds : (k : Key) → (PayloadAt k → Type 0) → S → Type 0
  Holds k P s = (o : PayloadAt k) × (stored k s ≡ some o) × P o

  create_or-Holds :
      (k : Key) (desired : PayloadAt k) (merge : PayloadAt k → PayloadAt k)
      (Q : Option (PayloadAt k) → PayloadAt k → Type 0) (found : Option (PayloadAt k)) (s : S)
      → Q none desired
      → ((old : PayloadAt k) → Q (some old) (merge old))
      → (create_or api k desired merge found s).0 ≡ ok tt
      → Holds k (Q found) (create_or api k desired merge found s).1
  create_or-Holds k desired merge Q none s p q h =
      (desired, do_write-stored k (create desired) desired s refl h, p)
  create_or-Holds k desired merge Q (some old) s p q h =
      (merge old, do_write-stored k (update (merge old)) (merge old) s refl h, q old)

  -- An object that is created as desired, or whose fields are set, is related to what was held before
  -- as these two are.
  pub create_or_update-Holds_from :
      (c : LeilFsCluster) (k : Key) (desired : PayloadAt k) (merge : PayloadAt k → PayloadAt k)
      (Q : Option (PayloadAt k) → PayloadAt k → Type 0) (s : S)
      → Q none desired
      → ((old : PayloadAt k) → Q (some old) (merge old))
      → (create_or_update api c k desired merge s).0 ≡ ok tt
      → Holds k (Q (stored k s)) (create_or_update api c k desired merge s).1
  unfolding create_or_update
  create_or_update-Holds_from c k desired merge Q s p q h =
      let f = λ (found : Option (PayloadAt k)). create_or api k desired merge found in
      let (_, _, first) = continue_with-eq-ok (own api c k s) (λ _. find api k >>= f) h in
      let s1 = (own api c k s).1 in
      let (found, read, second) =
        continue_with-eq-ok (find api k s1) f
          (sym (ap (λ (r : Result Failure (Unit {0}) × S). r.0) first) ∙ h) in
      let path = first ∙ second in
      let before : stored k s ≡ found =
        sym (ap (λ (o : Seen k). o.0) (own-Keeps c k k s)) ∙ find-stored k s1 found read in
      rw (path, before)
        (create_or-Holds k desired merge Q found (find api k s1).1 p q
          (sym (ap (λ (r : Result Failure (Unit {0}) × S). r.0) path) ∙ h))

  -- An object that is created as desired, or whose fields are set, has what the desired one asks for.
  pub create_or_update-Holds :
      (c : LeilFsCluster) (k : Key) (desired : PayloadAt k) (merge : PayloadAt k → PayloadAt k)
      (P : PayloadAt k → Type 0) (s : S)
      → P desired
      → ((old : PayloadAt k) → P (merge old))
      → (create_or_update api c k desired merge s).0 ≡ ok tt
      → Holds k P (create_or_update api c k desired merge s).1
  create_or_update-Holds c k desired merge P s p q h =
      create_or_update-Holds_from c k desired merge (λ _. P) s p q h
