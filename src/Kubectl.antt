-- ===== src/Kubectl.antt =====
-- cmd/kubectl-leilfs/cmd: the parts of the kubectl plugin that compute (filegoal.go: normalizePath,
-- list.go: the walks through an unstructured object, logs.go: resolveLogTarget). The list of pods that
-- the API server gives is a parameter.
pub mod Paths
pub mod Logs
pub mod Goals
pub mod Scripts
use leilfs_operator.Base.{
  ℕ, Bool, true, false, List, [], ◌∷◌, ◌++◌, Option, none, some, Result, ok, err, ◌==◌,
  if◌then◌else◌,
}
use leilfs_operator.Base.Int.{ℤ, pos}
use leilfs_operator.Text.{Text, codes, is_empty, text_eq, trim_right}
use leilfs_operator.Text.Maps.{TextMap}

abbrev pub is_slash : ℕ → Bool
is_slash c = c == 47

abbrev pub rooted : Text → Text
rooted [] = 47 ∷ []
rooted (c ∷ p) = if c == 47 then c ∷ p else 47 ∷ c ∷ p

abbrev pub without_root : Text → Text
without_root p = if text_eq p (codes "/") then [] else p

unfoldable pub normalize_path : Text → Text
normalize_path p =
    let q = rooted p in without_root (if text_eq q (codes "/") then q else trim_right is_slash q)

-- A value of an unstructured object. Of a float, what int64 makes of it.
mutual
  pub data Value : Type 0 where
    null : Value
    text : Text → Value
    bool : Bool → Value
    int : ℤ → Value
    float : ℤ → Value
    object : Fields → Value
    array : Values → Value

  pub data Fields : Type 0 where
    no_fields : Fields
    field : Text → Value → Fields → Fields

  pub data Values : Type 0 where
    no_values : Values
    value : Value → Values → Values

-- m[k], which is nil where there is no such key
unfoldable pub field_of : Text → Fields → Value
field_of k no_fields = null
field_of k (field j v m) = let rest = field_of k m in if text_eq j k then v else rest

-- The walk along keys: none where a value on the way is no object.
abbrev pub at_key : Text → Value → Option Value
at_key k null = none
at_key k (text s) = none
at_key k (bool b) = none
at_key k (int n) = none
at_key k (float n) = none
at_key k (object m) = some (field_of k m)
at_key k (array vs) = none

unfoldable pub walk : List Text → Value → Option Value
unfolding field_of
walk [] v = some v
walk (k ∷ keys) v = elim (at_key k v) [ none ↦ none | some w ↦ walk keys w ]

abbrev pub as_int : Option Value → ℤ
as_int none = pos 0
as_int (some null) = pos 0
as_int (some (text s)) = pos 0
as_int (some (bool b)) = pos 0
as_int (some (int n)) = n
as_int (some (float n)) = n
as_int (some (object m)) = pos 0
as_int (some (array vs)) = pos 0

unfoldable pub extract_int64 : Fields → List Text → ℤ
unfolding walk
extract_int64 obj keys = as_int (walk keys (object obj))

abbrev pub as_text : Option Value → Option Text
as_text none = none
as_text (some null) = none
as_text (some (text s)) = some s
as_text (some (bool b)) = none
as_text (some (int n)) = none
as_text (some (float n)) = none
as_text (some (object m)) = none
as_text (some (array vs)) = none

abbrev text_or : Text → Option Text → Text
text_or default none = default
text_or default (some s) = s

unfoldable pub extract_string : Fields → List Text → Text
unfolding walk
extract_string obj keys = text_or [] (as_text (walk keys (object obj)))

abbrev pub as_values : Option Value → Values
as_values none = no_values
as_values (some null) = no_values
as_values (some (text s)) = no_values
as_values (some (bool b)) = no_values
as_values (some (int n)) = no_values
as_values (some (float n)) = no_values
as_values (some (object m)) = no_values
as_values (some (array vs)) = vs

unfoldable pub extract_conditions : Fields → Values
unfolding walk
extract_conditions obj = as_values (walk (codes "status" ∷ codes "conditions" ∷ []) (object obj))

-- The text under a key of a condition, when the condition has the type asked for.
abbrev pub of_condition : Text → Text → Value → Option Text
of_condition kind key null = none
of_condition kind key (text s) = none
of_condition kind key (bool b) = none
of_condition kind key (int n) = none
of_condition kind key (float n) = none
of_condition kind key (array vs) = none
of_condition kind key (object m) = elim (as_text (some (field_of (codes "type") m))) [
  | none ↦ none
  | some t ↦ if text_eq t kind then as_text (some (field_of key m)) else none
]

unfoldable pub first_of_condition : Text → Text → Text → Values → Text
unfolding field_of
first_of_condition kind key default no_values = default
first_of_condition kind key default (value v vs) =
    let rest = first_of_condition kind key default vs in text_or rest (of_condition kind key v)

unfoldable pub extract_condition_status : Fields → Text → Text
unfolding extract_conditions first_of_condition
extract_condition_status obj kind =
    first_of_condition kind (codes "status") (codes "Unknown") (extract_conditions obj)

unfoldable pub extract_condition_reason : Fields → Text → Text
unfolding extract_conditions first_of_condition
extract_condition_reason obj kind =
    first_of_condition kind (codes "reason") [] (extract_conditions obj)

-- A pod as it is listed: its name and its phase.
pub record ListedPod : Type 0 where
  pub name : Text
  pub phase : Text

pub data LogError (E : Type 0) : Type 0 where
  server_required : LogError E
  unknown_component : Text → LogError E
  -- the selector, and the error of the list
  listing_failed : Text → E → LogError E
  -- the component, the cluster and the selector
  no_pods : Text → Text → Text → LogError E

abbrev selector_of : Text → Text → Text
selector_of name cluster =
    codes "app.kubernetes.io/name=" ++ (name ++ (codes ",app.kubernetes.io/instance=" ++ cluster))

-- The selector and the container of a component.
unfoldable pub log_selector : {E : Type 0} → Text → Text → Text → Result (LogError E) (Text × Text)
log_selector cluster component server =
    if text_eq component (codes "master")
    then ok (selector_of (codes "leilfs-master") cluster, codes "leilfs-master")
    else (if text_eq component (codes "chunk")
        then (if is_empty server
            then err server_required
            else ok (
              selector_of (codes "leilfs-chunkserver") cluster
                  ++ (codes ",leilfs.io/chunk-server=" ++ server),
              codes "leilfs-chunkserver",
            ))
        else (if text_eq component (codes "nfs")
            then ok (selector_of (codes "leilfs-nfs") cluster, codes "nfs-ganesha")
            else (if text_eq component (codes "interface")
                then ok (selector_of (codes "leilfs-interface") cluster, codes "leilfs-cgiserver")
                else (if text_eq component (codes "webui")
                    then ok
                        (selector_of (codes "leilfs-interface") cluster, codes "leilfs-cgiserver")
                    else err (unknown_component component)))))

abbrev pub is_running : ListedPod → Bool
is_running p = text_eq p.phase (codes "Running")

-- The first pod that runs, or else the given one.
unfoldable pub first_running : ListedPod → List ListedPod → ListedPod
first_running default [] = default
first_running default (p ∷ pods) =
    let rest = first_running default pods in if is_running p then p else rest

unfoldable pub resolve_log_target :
    {E : Type 0}
    → (Text → Result E (List ListedPod))
    → Text
    → Text
    → Text
    → Result (LogError E) (Text × Text)
unfolding log_selector first_running
resolve_log_target list_pods cluster component server =
    elim (log_selector cluster component server) [
      | err e ↦ err e
      | ok (selector, container) ↦ elim (list_pods selector) [
        | err e ↦ err (listing_failed selector e)
        | ok pods ↦ elim pods [
          | [] ↦ err (no_pods component cluster selector)
          | p ∷ rest ↦ ok ((first_running p (p ∷ rest)).name, container)
        ]
      ]
    ]
