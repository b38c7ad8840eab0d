-- ===== src/Policy/Engine.antt =====
-- internal/policy/engine.go: the evaluation of one request.
use kordn.Base.{
  ◌+◌, List, [], ◌∷◌, ◌++◌, map, Bool, true, false, not, Option, none, some, Bytes, codes,
  if◌then◌else◌, bytes_eq, bytes_lt, join, sort_by, sort_strings, ◌>>=◌, ◌>>◌, is_ok,
}
use kordn.AwsError.Reason.{
  ReasonCode, explicit_deny, policy_no_matching_allow, aws_required_wildcard_not_approved,
  mapping_low_confidence, resource_unresolved, dependent_permission_unresolved,
  internal_fail_closed, all_requirements_allowed,
}
use kordn.AwsRequest.Mapping.{
  IamRequirement, MappingResult, MappingConfidence, high, ScopeKind, exact, set, known_global,
  unresolved, other_kind,
}
use kordn.AwsRequest.Request.{DecodedAwsRequest}
use kordn.Policy.Glob.{ascii_lower}
use kordn.Policy.Rule.{CompiledRule, RequestContext}
use kordn.Policy.Decision.{DecisionInput, Decision, allow, deny, validate_input}
use kordn.Policy.Scan.{Context, Scan, scan_requirements}
use kordn.Policy.Admission.{validate_evaluation_input}
pub mod Snapshot
pub mod Exact
pub mod Safety
pub mod Decided

pub record Engine : Type 0 where
  pub default_deny : Bool
  pub rules : List CompiledRule
  pub hash : Bytes

abbrev pub scope_text : ScopeKind → Bytes
scope_text exact = codes "exact"
scope_text set = codes "set"
scope_text known_global = codes "known_global"
scope_text unresolved = codes "unresolved"
scope_text (other_kind s) = s

unfoldable pub requirement_key : IamRequirement → Bytes
requirement_key r =
    ascii_lower r.action
    ++ 0
      ∷ (scope_text r.scope_kind
          ++ 0
            ∷ ((if r.dependent then codes "true" else codes "false")
                ++ 0 ∷ join r.resources (0 ∷ [])))

unfoldable pub sort_resources : IamRequirement → IamRequirement
sort_resources r = record r { resources = sort_strings r.resources }

unfoldable pub snapshot_requirements : List IamRequirement → List IamRequirement
snapshot_requirements values =
    sort_by (λ a b. bytes_lt (requirement_key a) (requirement_key b)) (map sort_resources values)

abbrev pub denied : ReasonCode → Decision
denied reason = record { result = deny; reason_code = reason; matched_rule_ids = [] }

abbrev pub internal_decision : Decision
internal_decision = denied internal_fail_closed

abbrev pub is_unresolved : ScopeKind → Bool
is_unresolved unresolved = true
is_unresolved _ = false

-- The loop that returns at the first unresolved requirement.
unfoldable pub first_unresolved : List IamRequirement → Option Decision
first_unresolved [] = none
first_unresolved (r ∷ rs) =
    if is_unresolved r.scope_kind
    then some
        (denied (if r.dependent then dependent_permission_unresolved else resource_unresolved))
    else first_unresolved rs

-- The end of `Evaluate`, after the loops.
unfoldable pub conclude : Context → Scan → Decision
conclude ctx s =
    if s.explicit_deny
    then record {
      result = deny;
      reason_code = explicit_deny;
      matched_rule_ids = sort_strings s.matched;
    }
    else if s.wildcard_missing
    then record {
      result = deny;
      reason_code = aws_required_wildcard_not_approved;
      matched_rule_ids = sort_strings s.matched;
    }
    else if s.uncovered
    then record {
      result = deny;
      reason_code = policy_no_matching_allow;
      matched_rule_ids = sort_strings s.matched;
    }
    else if ctx s.polls
    then internal_decision
    else record {
      result = allow;
      reason_code = all_requirements_allowed;
      matched_rule_ids = sort_strings s.matched;
    }

-- The variables of the loops at their start; one call of `ctx.Err` has been made.
abbrev pub start : Scan
start = record {
  matched = [];
  wildcard_missing = false;
  uncovered = false;
  explicit_deny = false;
  polls = 1;
}

abbrev pub request_context : DecodedAwsRequest → RequestContext
request_context r = record {
  partition = r.partition;
  region = r.region;
  caller_account_id = r.caller_account_id;
}

unfoldable pub evaluate_requirements :
    Engine → Context → RequestContext → List IamRequirement → Decision
evaluate_requirements engine ctx request requirements = elim (first_unresolved requirements) [
  | some decision ↦ decision
  | none ↦ elim (scan_requirements ctx request engine.rules requirements start) [
    | none ↦ internal_decision
    | some s ↦ conclude ctx s
  ]
]

abbrev pub is_high : MappingConfidence → Bool
is_high high = true
is_high _ = false

-- `Evaluate` after `input.Validate()`, which has refused an absent request or mapping.
unfoldable pub evaluate_valid :
    Engine → Context → DecisionInput → Option DecodedAwsRequest → Option MappingResult → Decision
evaluate_valid engine ctx input (some request) (some mapping) =
    if not (bytes_eq input.policy_hash engine.hash)
    then internal_decision
    else if not (is_high mapping.confidence)
    then denied mapping_low_confidence
    else if not (is_ok (validate_evaluation_input input.endpoint request mapping))
    then internal_decision
    else evaluate_requirements engine ctx (request_context request)
        (snapshot_requirements mapping.requirements)
evaluate_valid engine ctx input _ _ = internal_decision

-- `Evaluate`; the engine and the context may be nil.
unfoldable pub evaluate : Option Engine → Option Context → DecisionInput → Decision
evaluate (some engine) (some ctx) input =
    if ctx 0
    then internal_decision
    else if not (is_ok (validate_input input))
    then internal_decision
    else evaluate_valid engine ctx input input.request input.mapping
evaluate _ _ input = internal_decision
