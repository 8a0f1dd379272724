-- ===== src/Controller/Ha/Labels/Routing.antt =====
-- The pods behind the loop of reconcileMasterHA that sets their labels: each is routed, or its patch was
-- refused, or its turn is still to come.
use mathlib.Core.List.{Memᴰ}
use mathlib.Core.Path.{subst}
use leilfs_operator.Base.{
  Bool, true, false, List, [], ◌∷◌, map, none, some, ◌≡◌, ◌↔◌, ◌⊎◌, inl, inr, refl, sym, ◌∙◌, All,
  Bool-cases, if◌then◌else◌,
}
use leilfs_operator.Text.{Text, codes, text_eq, text_eq_iff, text_eq_refl}
use leilfs_operator.Text.Maps.{lookup, remove, lookup-insert, lookup-remove}
use leilfs_operator.Controller.Ha.{Pod, label_active_master, with_active_label}

abbrev pub pod_names : List Pod → List Text
pod_names = map (λ (p : Pod). p.name)

-- The pod of a name is replaced.
abbrev pub put : Pod → Pod → Pod
put p q = if text_eq q.name p.name then p else q

-- A pod carries the label exactly if it is the holder.
abbrev pub Routed : Text → Pod → Type 0
Routed holder p = (lookup label_active_master p.labels ≡ some (codes "true")) ↔ (p.name ≡ holder)

label_self : text_eq label_active_master label_active_master ≡ true
label_self = text_eq_refl label_active_master

with_active_label-Routed :
    (holder : Text) (p : Pod) → Routed holder (with_active_label (text_eq p.name holder) p)
unfolding with_active_label
with_active_label-Routed holder p = elim (Bool-cases (text_eq p.name holder)) [
  | inl same ↦ rw same (
    λ _. (text_eq_iff p.name holder).0 same,
    λ _.
        lookup-insert label_active_master label_active_master (codes "true") p.labels
        ∙ rw label_self,
  )
  | inr differs ↦
      rw differs
        (λ h. absurd (unlabelled h), λ e. absurd (cc (differs, (text_eq_iff p.name holder).1 e)))
]
  where
    unlabelled :
        lookup label_active_master (remove label_active_master p.labels) ≡ some (codes "true") → ⊥
    unlabelled h =
        let gone : lookup label_active_master (remove label_active_master p.labels) ≡ none =
          lookup-remove label_active_master label_active_master p.labels ∙ rw label_self in
        cc

-- A pod is routed, or its patch is among those that the server refused.
abbrev pub RoutedUnless : Text → List Text → Pod → Type 0
RoutedUnless holder refused q = Routed holder q ⊎ Memᴰ q.name refused

-- Of the pods on the server, those behind in the loop need not be routed yet.
abbrev pub Pending : Text → List Text → List Pod → Pod → Type 0
Pending holder refused ps q = RoutedUnless holder refused q ⊎ Memᴰ q.name (pod_names ps)

put-Pending :
    (holder : Text) (refused : List Text) (p : Pod) (ps : List Pod) (q : Pod)
    → Pending holder refused (p ∷ ps) q
    → Pending holder refused ps (put (with_active_label (text_eq p.name holder) p) q)
unfolding with_active_label
put-Pending holder refused p ps q h = elim (Bool-cases (text_eq q.name p.name)) [
  | inl same ↦ rw same (inl (inl (with_active_label-Routed holder p)))
  | inr differs ↦ rw differs (later differs h)
]
  where
    later :
        text_eq q.name p.name ≡ false
        → Pending holder refused (p ∷ ps) q
        → Pending holder refused ps q
    later differs (inl done) = inl done
    later differs (inr (Memᴰ.head e)) = absurd (cc (differs, (text_eq_iff q.name p.name).1 e))
    later differs (inr (Memᴰ.tail m)) = inr m

pub All-put :
    (holder : Text) (refused : List Text) (p : Pod) (ps qs : List Pod)
    → All (Pending holder refused (p ∷ ps)) qs
    → All (Pending holder refused ps) (map (put (with_active_label (text_eq p.name holder) p)) qs)
All-put holder refused p ps [] h = tt
All-put holder refused p ps (q ∷ qs) (h, hs) =
    (put-Pending holder refused p ps q h, All-put holder refused p ps qs hs)

-- A pod whose patch is refused is not pending any more.
pub All-refused :
    (holder : Text) (refused : List Text) (p : Pod) (ps qs : List Pod)
    → Memᴰ p.name refused
    → All (Pending holder refused (p ∷ ps)) qs
    → All (Pending holder refused ps) qs
All-refused holder refused p ps [] m h = tt
All-refused holder refused p ps (q ∷ qs) m (h, hs) =
    (later h, All-refused holder refused p ps qs m hs)
  where
    later : Pending holder refused (p ∷ ps) q → Pending holder refused ps q
    later (inl done) = inl done
    later (inr (Memᴰ.head e)) = inl (inr (subst (λ n. Memᴰ n refused) (sym e) m))
    later (inr (Memᴰ.tail n)) = inr n

put-name : (active : Bool) (p q : Pod) → (put (with_active_label active p) q).name ≡ q.name
unfolding with_active_label
put-name active p q = elim (Bool-cases (text_eq q.name p.name)) [
  | inl same ↦ rw same (sym ((text_eq_iff q.name p.name).0 same))
  | inr differs ↦ rw differs
]

pub pod_names-put :
    (active : Bool) (p : Pod) (qs : List Pod)
    → pod_names (map (put (with_active_label active p)) qs) ≡ pod_names qs
pod_names-put active p [] = refl
pod_names-put active p (q ∷ qs) = rw (put-name active p q, pod_names-put active p qs)

pub All-Routed :
    (holder : Text) (refused : List Text) (qs : List Pod)
    → All (Pending holder refused []) qs
    → All (RoutedUnless holder refused) qs
All-Routed holder refused [] h = tt
All-Routed holder refused (q ∷ qs) (h, hs) = (now h, All-Routed holder refused qs hs)
  where
    now : Pending holder refused [] q → RoutedUnless holder refused q
    now (inl done) = done
    now (inr m) = elim m [ ]

-- Every pod of a list is pending behind that list.
abbrev pub Within : List Pod → List Pod → Type 0
Within ps qs = All (λ (q : Pod). Memᴰ q.name (pod_names ps)) qs

Within-cons : (p : Pod) (ps qs : List Pod) → Within ps qs → Within (p ∷ ps) qs
Within-cons p ps [] h = tt
Within-cons p ps (q ∷ qs) (h, hs) = (Memᴰ.tail h, Within-cons p ps qs hs)

pub Within-refl : (ps : List Pod) → Within ps ps
Within-refl [] = tt
Within-refl (p ∷ ps) = (Memᴰ.head refl, Within-cons p ps ps (Within-refl ps))

pub All-Pending :
    (holder : Text) (refused : List Text) (ps qs : List Pod)
    → Within ps qs
    → All (Pending holder refused ps) qs
All-Pending holder refused ps [] h = tt
All-Pending holder refused ps (q ∷ qs) (h, hs) = (inr h, All-Pending holder refused ps qs hs)
