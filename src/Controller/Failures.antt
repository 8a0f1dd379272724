-- ===== src/Controller/Failures.antt =====
-- internal/controller/leilfscluster_controller.go: unsupportedSpecError, isUnsupportedSpecError, and
-- the texts of errors.
use leilfs_operator.Base.{Bool, true, false, List, [], ◌∷◌, ◌++◌, ◌≡◌, ◌↔◌, refl}
use leilfs_operator.Text.{Text, codes, decimal}
use leilfs_operator.Controller.Support.{
  Problem, csi_enabled, shadow_image, shadow_node_selector, shadow_tolerations, shadow_resources,
  dynamic_provisioning,
}
use leilfs_operator.Controller.Kube.{
  ApiError, Failure, api_failure, unsupported_spec, wrapped, panicked,
}

-- isUnsupportedSpecError: the chain of wrapped errors is followed.
unfoldable pub is_unsupported_spec_error : Failure → Bool
is_unsupported_spec_error (api_failure e) = false
is_unsupported_spec_error (unsupported_spec problems) = true
is_unsupported_spec_error (wrapped context e) = is_unsupported_spec_error e
is_unsupported_spec_error (panicked p) = false

-- A panic leaves Reconcile at once, through every fmt.Errorf.
unfoldable pub is_panic : Failure → Bool
is_panic (api_failure e) = false
is_panic (unsupported_spec problems) = false
is_panic (wrapped context e) = is_panic e
is_panic (panicked p) = true

abbrev shared_template : Text → Text
shared_template field =
    codes "spec.shadow."
    ++ (field
        ++ codes " is not supported: master and shadow pods share one StatefulSet PodTemplate")

-- The sentence of one problem.
unfoldable pub problem_text : Problem → Text
problem_text csi_enabled =
    codes "spec.csi.enabled is not supported: the CSI driver is not implemented yet"
problem_text shadow_image =
    codes
      "spec.shadow.image differs from spec.master.image but per-shadow images are not supported by the unified master StatefulSet"
problem_text shadow_node_selector = shared_template (codes "nodeSelector")
problem_text shadow_tolerations = shared_template (codes "tolerations")
problem_text shadow_resources = shared_template (codes "resources")
problem_text (dynamic_provisioning i j) =
    codes "spec.chunk.servers["
    ++ (decimal i
        ++ (codes "].mountPaths["
            ++ (decimal j
                ++ codes
                    "]: dynamic PVC provisioning for chunk mountPaths is not implemented; set hostPath for local disks or claimName for an existing PVC")))

unfoldable pub joined_problems : List Problem → Text
unfolding problem_text
joined_problems [] = []
joined_problems (p ∷ []) = problem_text p
joined_problems (p ∷ q ∷ ps) = problem_text p ++ (codes "; " ++ joined_problems (q ∷ ps))

-- err.Error(), with the text of the API's errors
unfoldable pub error_text : (ApiError → Text) → Failure → Text
unfolding joined_problems
error_text api_text (api_failure e) = api_text e
error_text api_text (unsupported_spec problems) =
    codes "unsupported LeilFSCluster spec: " ++ joined_problems problems
error_text api_text (wrapped context e) = context ++ (codes ": " ++ error_text api_text e)
error_text api_text (panicked p) = []

-- fmt.Errorf's contexts around an error, the outermost first.
abbrev pub in_contexts : List Text → Failure → Failure
in_contexts [] e = e
in_contexts (context ∷ contexts) e = wrapped context (in_contexts contexts e)

contexts_of :
    (e : Failure)
    → is_unsupported_spec_error e ≡ true
    → (contexts : List Text) × (problems : List Problem) × (e
        ≡ in_contexts contexts (unsupported_spec problems))
unfolding is_unsupported_spec_error
contexts_of (api_failure e) h = absurd (cc)
contexts_of (unsupported_spec problems) h = ([], problems, refl)
contexts_of (wrapped context e) h =
    let (contexts, problems, path) = contexts_of e h in
    (context ∷ contexts, problems, λ i. wrapped context (path i))
contexts_of (panicked p) h = absurd (cc)

found_in_contexts :
    (contexts : List Text) (problems : List Problem)
    → is_unsupported_spec_error (in_contexts contexts (unsupported_spec problems)) ≡ true
unfolding is_unsupported_spec_error
found_in_contexts [] problems = refl
found_in_contexts (context ∷ contexts) problems = found_in_contexts contexts problems

-- isUnsupportedSpecError tells exactly the errors that are an unsupportedSpecError inside some number,
-- also none, of contexts put around it by fmt.Errorf.
pub is_unsupported_spec_error_iff :
    (e : Failure)
    → (is_unsupported_spec_error e ≡ true) ↔ (
        (contexts : List Text) × (problems : List Problem) × (e
          ≡ in_contexts contexts (unsupported_spec problems)))
is_unsupported_spec_error_iff e =
    (contexts_of e, λ (contexts, problems, path). rw path (found_in_contexts contexts problems))
