-- ===== src/Webhook/Names.antt =====
-- api/v1alpha1/leilfscluster_webhook.go: validateChunkServerNames.
use mathlib.Core.Path.{fun_ext}
use leilfs_operator.Base.{
  ℕ, suc, ◌+◌, ◌<◌, true, false, List, [], ◌∷◌, map, some, ◌≡◌, ◌↔◌, refl, ap, sym, ◌∙◌, arith, All,
  get_elem?, Bool-cases, Option-cases, inl, inr, map,
}
use leilfs_operator.Text.{Text, is_empty, text_eq, text_eq_iff}
use leilfs_operator.Text.Maps.{
  TextMap, lookup, insert, has_key, has_key-insert, lookup_of_has_key, lookup_of_no_key,
  lookup-insert,
}
use leilfs_operator.Text.Distinct.{Distinct, clean, clean_iff}
use leilfs_operator.Api.{ChunkServerSpec}
use leilfs_operator.Webhook.{
  FieldError, duplicate_name, server_name, check_names, validate_chunk_server_names,
}

abbrev pub names : List ChunkServerSpec → List Text
names = map (λ (s : ChunkServerSpec). s.name)

check_names-clean :
    (seen : TextMap ℕ) (i : ℕ) (servers : List ChunkServerSpec)
    → is_empty (check_names seen i servers) ≡ clean (λ k. has_key k seen) (names servers)
unfolding check_names clean
check_names-clean seen i [] = refl
check_names-clean seen i (srv ∷ servers) = elim (Bool-cases (has_key srv.name seen)) [
  | inl old ↦
      let (j, found) = lookup_of_has_key srv.name seen old in rw (found, is_empty) (rw old refl)
  | inr new ↦
      rw (lookup_of_no_key srv.name seen new, is_empty)
        (rw new (
          check_names-clean (insert srv.name i seen) (suc i) servers
          ∙ ap (λ p. clean p (names servers)) (fun_ext λ j. has_key-insert srv.name j i seen)))
]

-- The names pass exactly when no two chunk servers share one.
pub validate_chunk_server_names_iff :
    (servers : List ChunkServerSpec)
    → (is_empty (validate_chunk_server_names servers) ≡ true) ↔ Distinct (names servers)
unfolding validate_chunk_server_names
validate_chunk_server_names_iff servers =
    let same : is_empty (check_names [] 0 servers) ≡ clean (λ k. false) (names servers) =
      check_names-clean [] 0 servers ∙ ap (λ p. clean p (names servers)) (unfold has_key in refl) in
    (λ h. (clean_iff (names servers)).0 (sym same ∙ h), λ d. same ∙ (clean_iff (names servers)).1 d)

-- An error names a server, and an earlier one with the same name.
pub record Names (all : List Text) (e : FieldError) : Type 0 where
  pub here : ℕ
  pub name : Text
  pub before : ℕ
  pub is_error : e ≡ duplicate_name (server_name here) name before
  pub name_here : get_elem? all here ≡ some name
  pub name_before : get_elem? all before ≡ some name
  pub earlier : before < here

-- What firstSeenAt holds when the servers before `i` have been passed.
abbrev Recorded : List Text → ℕ → TextMap ℕ → Type 0
Recorded names_of i seen =
    (k : Text) (j : ℕ) → lookup k seen ≡ some j → (get_elem? names_of j ≡ some k) × (j < i)

Recorded-insert :
    (all : List Text) (i : ℕ) (name : Text) (seen : TextMap ℕ)
    → get_elem? all i ≡ some name
    → Recorded all i seen
    → Recorded all (suc i) (insert name i seen)
Recorded-insert all i name seen here known k j found = elim (Bool-cases (text_eq name k)) [
  | inl same ↦
      let same_name : name ≡ k = (text_eq_iff name k).0 same in
      let same_index : some i ≡ some j = sym (lookup-insert name k i seen ∙ (rw same)) ∙ found in
      ground (arith, here, same_name, same_index)
  | inr other ↦
      let old : lookup k seen ≡ some j = sym (lookup-insert name k i seen ∙ (rw other)) ∙ found in
      ground (arith, known k j old)
]

check_names-Names :
    (all : List Text) (seen : TextMap ℕ) (i : ℕ) (servers : List ChunkServerSpec)
    → ((n : ℕ) → get_elem? all (i + n) ≡ get_elem? (names servers) n)
    → Recorded all i seen
    → All (Names all) (check_names seen i servers)
unfolding check_names
check_names-Names all seen i [] suffix known = tt
check_names-Names all seen i (srv ∷ servers) suffix known =
    elim (Option-cases (lookup srv.name seen)) [
      | inl new ↦
          rw (new, All)
            (check_names-Names all (insert srv.name i seen) (suc i) servers later
              (Recorded-insert all i srv.name seen here known))
      | inr (j, old) ↦
          rw (old, All)
            (
              record {
                here = i;
                name = srv.name;
                before = j;
                is_error = refl;
                name_here = here;
                name_before = (known srv.name j old).0;
                earlier = (known srv.name j old).1;
              },
              check_names-Names all seen (suc i) servers later
                  (λ k j' e. ((known k j' e).0, omega (arith, known k j' e))),
            )
    ]
  where
    here : get_elem? all i ≡ some srv.name
    here = let now : i ≡ i + 0 = omega arith in ap (get_elem? all) now ∙ suffix 0

    later : (n : ℕ) → get_elem? all (suc i + n) ≡ get_elem? (names servers) n
    later n =
        let shift : suc i + n ≡ i + suc n = omega arith in ap (get_elem? all) shift ∙ suffix (suc n)

-- Every error names a chunk server and an earlier one, and both have the name that it reports.
pub validate_chunk_server_names_errors :
    (servers : List ChunkServerSpec)
    → All (Names (names servers)) (validate_chunk_server_names servers)
unfolding validate_chunk_server_names
validate_chunk_server_names_errors servers =
    check_names-Names (names servers) [] 0 servers
      (λ n. let now : 0 + n ≡ n = omega arith in ap (get_elem? (names servers)) now)
      (λ k j e. absurd (unfold lookup in cc))
