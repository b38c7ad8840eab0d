-- ===== src/Policy/Engine/Decided.antt =====
-- Whatever happens, `Evaluate` returns a decision that is valid.
use kordn.Base.{
  [], ◌∷◌, List, Bool, true, false, Option, none, some, ◌≡◌, refl, arith, if◌then◌else◌, bytes_eq,
  Option-cases, inl, inr,
}
use kordn.AwsError.Reason.{
  text, all_reason_codes, reason_in, reason_valid, mapping_low_confidence, resource_unresolved,
  dependent_permission_unresolved,
}
use kordn.AwsRequest.Mapping.{IamRequirement, MappingResult}
use kordn.AwsRequest.Request.{DecodedAwsRequest}
use kordn.Policy.Rule.{RequestContext}
use kordn.Policy.Decision.{DecisionInput, Decision, result_valid, decision_valid}
use kordn.Policy.Scan.{Context, Scan, scan_requirements}
use kordn.Policy.Engine.{
  Engine, internal_decision, denied, first_unresolved, conclude, evaluate_requirements,
  evaluate_valid, evaluate, start, request_context, snapshot_requirements,
}

conclude-decision_valid : (ctx : Context) (s : Scan) → decision_valid (conclude ctx s) ≡ true
unfolding conclude decision_valid result_valid reason_valid reason_in all_reason_codes text bytes_eq
conclude-decision_valid ctx s = ground arith

internal_decision-valid : decision_valid internal_decision ≡ true
unfolding decision_valid result_valid reason_valid reason_in all_reason_codes text bytes_eq
internal_decision-valid = refl

low_confidence-valid : decision_valid (denied mapping_low_confidence) ≡ true
unfolding decision_valid result_valid reason_valid reason_in all_reason_codes text bytes_eq
low_confidence-valid = refl

unresolved-valid :
    (dependent : Bool)
    → decision_valid
        (denied (if dependent then dependent_permission_unresolved else resource_unresolved))
      ≡ true
unfolding decision_valid result_valid reason_valid reason_in all_reason_codes text bytes_eq
unresolved-valid true = refl
unresolved-valid false = refl

first_unresolved-valid :
    (rs : List IamRequirement) (d : Decision)
    → first_unresolved rs ≡ some d
    → decision_valid d ≡ true
unfolding first_unresolved
first_unresolved-valid [] d h = absurd (ground arith)
first_unresolved-valid (r ∷ rs) d h =
    ground (arith, unresolved-valid r.dependent, first_unresolved-valid rs d)

evaluate_requirements-valid :
    (engine : Engine) (ctx : Context) (request : RequestContext) (rs : List IamRequirement)
    → decision_valid (evaluate_requirements engine ctx request rs) ≡ true
unfolding evaluate_requirements
evaluate_requirements-valid engine ctx request rs = elim (Option-cases (first_unresolved rs)) [
  | inr (d, e) ↦ rw (e, evaluate_requirements) (first_unresolved-valid rs d e)
  | inl e ↦ elim (Option-cases (scan_requirements ctx request engine.rules rs start)) [
    | inl e₁ ↦ rw (e, e₁, evaluate_requirements) internal_decision-valid
    | inr (s, e₁) ↦ rw (e, e₁, evaluate_requirements) (conclude-decision_valid ctx s)
  ]
]

evaluate_valid-valid :
    (engine : Engine) (ctx : Context) (input : DecisionInput) (request : Option DecodedAwsRequest)
    (mapping : Option MappingResult)
    → decision_valid (evaluate_valid engine ctx input request mapping) ≡ true
unfolding evaluate_valid
evaluate_valid-valid engine ctx input none mapping = internal_decision-valid
evaluate_valid-valid engine ctx input (some request) none = internal_decision-valid
evaluate_valid-valid engine ctx input (some request) (some mapping) = ground (
  arith,
  internal_decision-valid,
  low_confidence-valid,
  evaluate_requirements-valid engine ctx (request_context request)
      (snapshot_requirements mapping.requirements),
)

-- Every decision is valid: its result and its reason are known, and it permits exactly when its reason
-- is that all requirements are allowed.
pub evaluate-decision_valid :
    (engine : Option Engine) (ctx : Option Context) (input : DecisionInput)
    → decision_valid (evaluate engine ctx input) ≡ true
unfolding evaluate
evaluate-decision_valid none ctx input = internal_decision-valid
evaluate-decision_valid (some engine) none input = internal_decision-valid
evaluate-decision_valid (some engine) (some ctx) input = ground (
  arith,
  internal_decision-valid,
  evaluate_valid-valid engine ctx input input.request input.mapping,
)
