-- ===== src/Controller/Kube/Tasks.antt =====
-- Sequences of actions that are each about one key.
use mathlib.Core.Path.{subst}
use leilfs_operator.Base.{
  List, [], ◌∷◌, ◌++◌, Option, none, some, Result, ok, err, ◌≡◌, ◌≢◌, refl, ap, sym, ◌∙◌, All,
  All-append, map,
}
use leilfs_operator.Text.{Text}
use leilfs_operator.Api.{LeilFsCluster}
use leilfs_operator.Controller.Kube.{
  Failure, Key, PayloadAt, Server, Action, pure, continue_with, wrap_result, in_context,
  delete_if_found, create_or_update, ◌>>◌, for_each,
}
use leilfs_operator.Controller.Kube.Laws.{
  Laws, Seen, Removed, seen, continue_with-eq-ok, Keeps, >>=-Keeps, in_context-Keeps,
  delete_if_found-Keeps, delete_if_found-Removed, create_or_update-Keeps,
  create_or_update-Holds_from,
}

-- An action, the key it is about, and how what it leaves there is to be related to what was there.
pub record Task (S : Type 0) : Type 1 where
  pub key : Key
  pub goal : Seen key → Seen key → Type 0
  pub run : Action S (Unit {0})

unfoldable pub run_tasks : {S : Type 0} → List (Task S) → Action S (Unit {0})
run_tasks [] = pure tt
run_tasks (t ∷ ts) = t.run >> run_tasks ts

-- What is held satisfies a predicate.
abbrev pub Some : {P : Type 0} → (P → Type 0) → Option P → Type 0
Some Q o = (p : _) × (o ≡ some p) × Q p

abbrev pub delete_task : {S : Type 0} → Server S → Key → Task S
delete_task api k = record { key = k; goal = λ _ o. Removed o; run = delete_if_found api k }

-- The object that is there after is related to what was there before.
abbrev pub ensure_task_from :
    {S : Type 0}
    → Server S
    → LeilFsCluster
    → (k : Key) → PayloadAt k
    → (PayloadAt k → PayloadAt k)
    → (Option (PayloadAt k) → PayloadAt k → Type 0)
    → Task S
ensure_task_from api c k desired merge Q = record {
  key = k;
  goal = λ before after. Some (Q before.0) after.0;
  run = create_or_update api c k desired merge;
}

abbrev pub ensure_task :
    {S : Type 0}
    → Server S
    → LeilFsCluster
    → (k : Key) → PayloadAt k
    → (PayloadAt k → PayloadAt k)
    → (PayloadAt k → Type 0)
    → Task S
ensure_task api c k desired merge P = ensure_task_from api c k desired merge (λ _. P)

-- The task with a text in front of its error.
abbrev pub task_in : {S : Type 0} → Text → Task S → Task S
task_in context t = record { key = t.key; goal = t.goal; run = in_context context t.run }

-- No other task of the list is about the key.
abbrev pub Avoids : {S : Type 0} → Key → List (Task S) → Type 0
Avoids j = All (λ t. t.key ≢ j)

abbrev pub DistinctKeys : {S : Type 0} → List (Task S) → Type 0
DistinctKeys [] = Unit
DistinctKeys (t ∷ ts) = Avoids t.key ts × DistinctKeys ts

pub DistinctKeys-append :
    {S : Type 0} (ts us : List (Task S))
    → DistinctKeys ts
    → DistinctKeys us
    → All (λ t. Avoids t.key us) ts
    → DistinctKeys (ts ++ us)
DistinctKeys-append [] us d e a = e
DistinctKeys-append (t ∷ ts) us (away, d) e (a, as_) =
    (All-append (λ u. u.key ≢ t.key) ts us away a, DistinctKeys-append ts us d e as_)

pub continue_with_assoc :
    {S : Type 0} (r : Result Failure (Unit {0}) × S) (f g : Unit {0} → Action S (Unit {0}))
    → continue_with (continue_with r f) g ≡ continue_with r (λ a s. continue_with (f a s) g)
continue_with_assoc (ok a, s) f g = refl
continue_with_assoc (err e, s) f g = refl

pub continue_with_ext :
    {S : Type 0} (r : Result Failure (Unit {0}) × S) (f g : Unit {0} → Action S (Unit {0}))
    → ((s : S) → f tt s ≡ g tt s)
    → continue_with r f ≡ continue_with r g
continue_with_ext (ok a, s) f g h = h s
continue_with_ext (err e, s) f g h = refl

pub continue_with-pure :
    {S : Type 0} (r : Result Failure (Unit {0}) × S) → continue_with r (λ _. pure tt) ≡ r
continue_with-pure (ok a, s) = refl
continue_with-pure (err e, s) = refl

-- One list of tasks after another.
pub run_tasks-append :
    {S : Type 0} (ts us : List (Task S)) (s : S)
    → run_tasks (ts ++ us) s ≡ continue_with (run_tasks ts s) (λ _. run_tasks us)
unfolding run_tasks
run_tasks-append [] us s = refl
run_tasks-append (t ∷ ts) us s =
    continue_with_ext (t.run s) (λ _. run_tasks (ts ++ us))
      (λ _ r. continue_with (run_tasks ts r) (λ _. run_tasks us)) (λ r. run_tasks-append ts us r)
    ∙ sym (continue_with_assoc (t.run s) (λ _. run_tasks ts) (λ _. run_tasks us))

-- A loop runs the tasks of its items.
pub run_tasks-map :
    {S A : Type 0} (task : A → Task S) (xs : List A) (s : S)
    → for_each (λ x. (task x).run) xs s ≡ run_tasks (map task xs) s
unfolding run_tasks for_each
run_tasks-map task [] s = refl
run_tasks-map task (x ∷ xs) s =
    continue_with_ext ((task x).run s) (λ _. for_each (λ x. (task x).run) xs)
      (λ _. run_tasks (map task xs)) (λ r. run_tasks-map task xs r)

-- Three actions and what follows them.
pub then_three :
    {S : Type 0} (a b d k : Action S (Unit {0})) (s : S)
    → (a >> (b >> (d >> k))) s ≡ continue_with ((a >> (b >> d)) s) (λ _. k)
then_three a b d k s =
    continue_with_ext (a s) (λ _. b >> (d >> k)) (λ _ t. continue_with ((b >> d) t) (λ _. k))
      (λ t. sym (continue_with_assoc (b t) (λ _. d) (λ _. k)))
    ∙ sym (continue_with_assoc (a s) (λ _. b >> d) (λ _. k))

abbrev state_of : {S A : Type 0} → Result Failure A × S → S
state_of r = r.1

abbrev result_of : {S A : Type 0} → Result Failure A × S → Result Failure A
result_of r = r.0

module _ {S : Type 0} {api : Server S} (laws : Laws api) where
  pub record Does (t : Task S) : Type 0 where
    pub keeps : (j : Key) → t.key ≢ j → Keeps laws j t.run
    pub reaches :
        (s : S) → (t.run s).0 ≡ ok tt → t.goal (seen laws t.key s) (seen laws t.key (t.run s).1)

  pub run_tasks-Keeps :
      (j : Key) (ts : List (Task S)) → All Does ts → Avoids j ts → Keeps laws j (run_tasks ts)
  unfolding run_tasks
  run_tasks-Keeps j [] d a s = refl
  run_tasks-Keeps j (t ∷ ts) (d, ds) (a, away) s =
      >>=-Keeps laws j t.run (λ _. run_tasks ts) (d.keeps j a) (λ _. run_tasks-Keeps j ts ds away) s

  -- Each goal, of the states at the start and at the end.
  abbrev pub Reached : List (Task S) → S → S → Type 0
  Reached ts s0 s = All (λ t. t.goal (seen laws t.key s0) (seen laws t.key s)) ts

  -- A start that differs under another key only is as good.
  Reached-Avoids :
      (ts : List (Task S)) (j : Key) (s0 s1 s : S)
      → ((k : Key) → j ≢ k → seen laws k s1 ≡ seen laws k s0)
      → Avoids j ts
      → Reached ts s1 s
      → Reached ts s0 s
  Reached-Avoids [] j s0 s1 s same a h = tt
  Reached-Avoids (t ∷ ts) j s0 s1 s same (a, away) (h, hs) = (
    subst (λ o. t.goal o (seen laws t.key s)) (same t.key (λ e. a (sym e))) h,
    Reached-Avoids ts j s0 s1 s same away hs,
  )

  pub run_tasks-Reached :
      (ts : List (Task S)) (s : S)
      → All Does ts
      → DistinctKeys ts
      → (run_tasks ts s).0 ≡ ok tt
      → Reached ts s (run_tasks ts s).1
  unfolding run_tasks
  run_tasks-Reached [] s d k h = tt
  run_tasks-Reached (t ∷ ts) s (d, ds) (a, k) h =
      let (_, first_ok, path) = continue_with-eq-ok (t.run s) (λ _. run_tasks ts) h in
      let s1 = (t.run s).1 in
      let rest_ok : (run_tasks ts s1).0 ≡ ok tt = sym (ap result_of path) ∙ h in
      let kept : seen laws t.key (run_tasks ts s1).1 ≡ seen laws t.key s1 =
        run_tasks-Keeps t.key ts ds a s1 in
      subst (Reached (t ∷ ts) s) (sym (ap state_of path)) (
        subst (t.goal (seen laws t.key s)) (sym kept) (d.reaches s first_ok),
        Reached-Avoids ts t.key s s1 (run_tasks ts s1).1 (λ j h. d.keeps j h s) a
            (run_tasks-Reached ts s1 ds k rest_ok),
      )

  -- What a task that deletes an object does.
  pub delete_task-Does : (k : Key) → Does (delete_task api k)
  delete_task-Does k = record {
    keeps = delete_if_found-Keeps laws k;
    reaches = delete_if_found-Removed laws k;
  }

  pub ensure_task_from-Does :
      (c : LeilFsCluster) (k : Key) (desired : PayloadAt k) (merge : PayloadAt k → PayloadAt k)
      (Q : Option (PayloadAt k) → PayloadAt k → Type 0)
      → Q none desired
      → ((old : PayloadAt k) → Q (some old) (merge old))
      → Does (ensure_task_from api c k desired merge Q)
  ensure_task_from-Does c k desired merge Q p q = record {
    keeps = λ j h. create_or_update-Keeps laws c k j desired merge h;
    reaches = λ s h. create_or_update-Holds_from laws c k desired merge Q s p q h;
  }

  -- What a task that creates or updates an object does.
  pub ensure_task-Does :
      (c : LeilFsCluster) (k : Key) (desired : PayloadAt k) (merge : PayloadAt k → PayloadAt k)
      (P : PayloadAt k → Type 0)
      → P desired
      → ((old : PayloadAt k) → P (merge old))
      → Does (ensure_task api c k desired merge P)
  ensure_task-Does c k desired merge P p q = ensure_task_from-Does c k desired merge (λ _. P) p q

  pub task_in-Does : (context : Text) (t : Task S) → Does t → Does (task_in context t)
  task_in-Does context t d = record {
    keeps = λ j h. in_context-Keeps laws j context t.run (d.keeps j h);
    reaches = λ s h. unwrapped s (t.run s) (d.reaches s) h;
  }
    where
      unwrapped :
          (s : S) (r : Result Failure (Unit {0}) × S)
          → (r.0 ≡ ok tt → t.goal (seen laws t.key s) (seen laws t.key r.1))
          → (wrap_result context r).0 ≡ ok tt
          → t.goal (seen laws t.key s) (seen laws t.key (wrap_result context r).1)
      unwrapped s0 (ok a, s) f h = f h
      unwrapped s0 (err e, s) f h = absurd (cc)

  pub Reached-split :
      (ts us : List (Task S)) (s0 s : S)
      → Reached (ts ++ us) s0 s
      → Reached ts s0 s × Reached us s0 s
  Reached-split [] us s0 s h = (tt, h)
  Reached-split (t ∷ ts) us s0 s (h, hs) =
      let (left, right) = Reached-split ts us s0 s hs in ((h, left), right)
