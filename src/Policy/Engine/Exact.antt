-- ===== src/Policy/Engine/Exact.antt =====
-- `Evaluate` computes the verdict.
use kordn.Base.{
  List, true, false, Option, none, some, ◌≡◌, refl, sym, ◌∙◌, arith, Option-cases, Bool-cases, inl,
  inr, is_ok, bytes_eq,
}
use kordn.AwsError.Reason.{ReasonCode, all_requirements_allowed}
use kordn.AwsRequest.Mapping.{IamRequirement, MappingResult}
use kordn.AwsRequest.Request.{DecodedAwsRequest}
use kordn.Policy.Rule.{CompiledRule, RequestContext}
use kordn.Policy.Decision.{DecisionInput, DecisionResult, allow, deny, validate_input}
use kordn.Policy.Scan.{Context, Scan, scan_requirements}
use kordn.Policy.Scan.Ends.{IsLive, scan_requirements-ends}
use kordn.Policy.Scan.Loops.{scan_requirements-Grows}
use kordn.Policy.Verdict.{verdict}
use kordn.Policy.Admission.{validate_evaluation_input}
use kordn.Policy.Engine.{
  Engine, start, conclude, request_context, is_high, snapshot_requirements, first_unresolved,
  evaluate_requirements, evaluate_valid, evaluate,
}
use kordn.Policy.Engine.Snapshot.{
  has_unresolved, has_unresolved-snapshot, verdict-snapshot, first_unresolved-none,
  none-first_unresolved, first_unresolved-deny,
}

-- What the checks before the loops leave through: a request and a mapping that pass every
-- validation, under the engine's own policy, mapped with high confidence and fully resolved.
pub record IsAdmissible (engine : Engine) (input : DecisionInput) (request : DecodedAwsRequest)
    (mapping : MappingResult) : Type 0 where
  pub has_request : input.request ≡ some request
  pub has_mapping : input.mapping ≡ some mapping
  pub is_valid : is_ok (validate_input input) ≡ true
  pub same_policy : bytes_eq input.policy_hash engine.hash ≡ true
  pub confident : is_high mapping.confidence ≡ true
  pub in_bounds : is_ok (validate_evaluation_input input.endpoint request mapping) ≡ true
  pub resolved : has_unresolved mapping.requirements ≡ false

-- Only one reason comes with a permission.
abbrev pub result_for : ReasonCode → DecisionResult
result_for all_requirements_allowed = allow
result_for _ = deny

conclude-verdict :
    (ctx : Context) (request : RequestContext) (rules : List CompiledRule)
    (requirements : List IamRequirement) {s : Scan}
    → scan_requirements ctx request rules requirements start ≡ some s
    → ctx s.polls ≡ false
    → ((conclude ctx s).reason_code ≡ verdict request rules requirements)
      × ((conclude ctx s).result ≡ result_for (verdict request rules requirements))
unfolding conclude verdict
conclude-verdict ctx request rules requirements h live =
    let g = scan_requirements-Grows ctx request rules requirements start h in ground arith

conclude-allow :
    (ctx : Context) (request : RequestContext) (rules : List CompiledRule)
    (requirements : List IamRequirement) {s : Scan}
    → scan_requirements ctx request rules requirements start ≡ some s
    → (conclude ctx s).result ≡ allow
    → verdict request rules requirements ≡ all_requirements_allowed
unfolding conclude verdict
conclude-allow ctx request rules requirements h allowed =
    let g = scan_requirements-Grows ctx request rules requirements start h in ground arith

evaluate_requirements-verdict :
    (engine : Engine) (ctx : Context) (request : RequestContext)
    (requirements : List IamRequirement)
    → IsLive ctx
    → has_unresolved requirements ≡ false
    → ((evaluate_requirements engine ctx request requirements).reason_code
        ≡ verdict request engine.rules requirements)
      × ((evaluate_requirements engine ctx request requirements).result
          ≡ result_for (verdict request engine.rules requirements))
unfolding evaluate_requirements
evaluate_requirements-verdict engine ctx request requirements live resolved =
    let (s, ran) = scan_requirements-ends ctx request live engine.rules requirements start in
    let open_scopes = first_unresolved-none requirements resolved in
    let r = conclude-verdict ctx request engine.rules requirements ran (live s.polls) in
    rw (open_scopes, ran, evaluate_requirements) r

-- For an admissible input and a context that is not cancelled, `Evaluate` returns exactly the
-- verdict of the policy, and permits exactly when every requirement is allowed.
pub evaluate-verdict :
    (engine : Engine) (ctx : Context) (input : DecisionInput) (request : DecodedAwsRequest)
    (mapping : MappingResult)
    → IsLive ctx
    → IsAdmissible engine input request mapping
    → ((evaluate (some engine) (some ctx) input).reason_code
        ≡ verdict (request_context request) engine.rules mapping.requirements)
      × ((evaluate (some engine) (some ctx) input).result
          ≡ result_for (verdict (request_context request) engine.rules mapping.requirements))
unfolding evaluate evaluate_valid
evaluate-verdict engine ctx input request mapping live a =
    let r =
      evaluate_requirements-verdict engine ctx (request_context request)
        (snapshot_requirements mapping.requirements) live
        (has_unresolved-snapshot mapping.requirements ∙ a.resolved) in
    let r' =
      rw (verdict-snapshot (request_context request) engine.rules mapping.requirements) at r in
    rw
      (
        live 0,
        a.is_valid,
        a.has_request,
        a.has_mapping,
        a.same_policy,
        a.confident,
        a.in_bounds,
        evaluate_valid,
      )
      r'

evaluate_requirements-allow :
    (engine : Engine) (ctx : Context) (request : RequestContext)
    (requirements : List IamRequirement)
    → (evaluate_requirements engine ctx request requirements).result ≡ allow
    → (first_unresolved requirements ≡ none)
      × (verdict request engine.rules requirements ≡ all_requirements_allowed)
unfolding evaluate_requirements
evaluate_requirements-allow engine ctx request requirements h =
    elim (Option-cases (first_unresolved requirements)) [
      | inr (d, found) ↦
          let refused = first_unresolved-deny requirements d found in
          let h' = rw (found, evaluate_requirements) at h in absurd (ground arith)
      | inl resolved ↦
          elim (Option-cases (scan_requirements ctx request engine.rules requirements start)) [
            | inl stopped ↦
                let h' = rw (resolved, stopped, evaluate_requirements) at h in absurd (ground arith)
            | inr (s, ran) ↦
                let h' = rw (resolved, ran, evaluate_requirements) at h in
                (resolved, conclude-allow ctx request engine.rules requirements ran h')
          ]
    ]

-- The guards in front of the loops.
evaluate_valid-guards :
    (engine : Engine) (ctx : Context) (input : DecisionInput) (request : DecodedAwsRequest)
    (mapping : MappingResult)
    → (evaluate_valid engine ctx input (some request) (some mapping)).result ≡ allow
    → (bytes_eq input.policy_hash engine.hash ≡ true)
      × (is_high mapping.confidence ≡ true)
      × (is_ok (validate_evaluation_input input.endpoint request mapping) ≡ true)
      × ((evaluate_requirements engine ctx
            (request_context request)
            (snapshot_requirements mapping.requirements)).result
          ≡ allow)
unfolding evaluate_valid
evaluate_valid-guards engine ctx input request mapping h = ground arith

-- The parts of a permission, when the engine, the context, the request and the mapping are there.
evaluate_valid-allow :
    (engine : Engine) (ctx : Context) (input : DecisionInput) (r : Option DecodedAwsRequest)
    (m : Option MappingResult)
    → input.request ≡ r
    → input.mapping ≡ m
    → is_ok (validate_input input) ≡ true
    → (evaluate_valid engine ctx input r m).result ≡ allow
    → (request : DecodedAwsRequest) × (mapping : MappingResult) × IsAdmissible engine input request
        mapping
      × (verdict (request_context request) engine.rules mapping.requirements
          ≡ all_requirements_allowed)
unfolding evaluate_valid
evaluate_valid-allow engine ctx input (some request) (some mapping) er em valid h =
    let (same, confident, in_bounds, allowed) =
      evaluate_valid-guards engine ctx input request mapping h in
    let (scopes, v) =
      evaluate_requirements-allow engine ctx (request_context request)
        (snapshot_requirements mapping.requirements) allowed in
    (
      request,
      mapping,
      record {
        has_request = er;
        has_mapping = em;
        is_valid = valid;
        same_policy = same;
        confident = confident;
        in_bounds = in_bounds;
        resolved =
            sym (has_unresolved-snapshot mapping.requirements) ∙ none-first_unresolved _ scopes;
      },
      sym (verdict-snapshot (request_context request) engine.rules mapping.requirements) ∙ v,
    )
evaluate_valid-allow engine ctx input none m er em valid h = absurd (ground arith)
evaluate_valid-allow engine ctx input (some r) none er em valid h = absurd (ground arith)

-- `Evaluate` permits only an admissible input whose verdict is that every requirement is allowed,
-- whenever the context is cancelled.
pub evaluate-allow :
    (engine : Engine) (ctx : Context) (input : DecisionInput)
    → (evaluate (some engine) (some ctx) input).result ≡ allow
    → (request : DecodedAwsRequest) × (mapping : MappingResult) × IsAdmissible engine input request
        mapping
      × (verdict (request_context request) engine.rules mapping.requirements
          ≡ all_requirements_allowed)
unfolding evaluate
evaluate-allow engine ctx input h = elim (Bool-cases (ctx 0)) [
  | inl cancelled ↦ let h' = rw (cancelled, evaluate) at h in absurd (ground arith)
  | inr live ↦ elim (Bool-cases (is_ok (validate_input input))) [
    | inl valid ↦
        evaluate_valid-allow engine ctx input input.request input.mapping refl refl valid
          (rw (live, valid, evaluate) at h)
    | inr bad ↦ let h' = rw (live, bad, evaluate) at h in absurd (ground arith)
  ]
]
