-- ===== src/Policy/Verdict.antt =====
-- What the policy says of a request, with no loop, no order and no context in it: the tests over
-- all rules and all resources that `Evaluate` has to agree with.
use kordn.Base.{List, Bool, not, ◌&&◌, ◌||◌, Bytes, any, if◌then◌else◌}
use kordn.AwsError.Reason.{
  ReasonCode, explicit_deny, policy_no_matching_allow, aws_required_wildcard_not_approved,
  all_requirements_allowed,
}
use kordn.AwsRequest.Mapping.{IamRequirement}
use kordn.Policy.Rule.{CompiledRule, RequestContext, is_deny, is_known_global, rule_matches}
use kordn.Policy.Scan.{acknowledges}

module _ (request : RequestContext) (q : IamRequirement) (resource : Bytes) where
  -- The rule applies to the resource as the requirement uses it.
  abbrev pub applies : CompiledRule → Bool
  applies rule = rule_matches rule q.action resource q.scope_kind request

  abbrev pub denies : CompiledRule → Bool
  denies rule = applies rule && is_deny rule.effect

  -- An allow rule; at a known global resource it has to acknowledge the wildcard.
  abbrev pub covers : CompiledRule → Bool
  covers rule =
      applies rule
      && not (is_deny rule.effect)
      && (not (is_known_global q.scope_kind) || acknowledges rule)

  -- An allow rule that lacks the acknowledgement.
  abbrev pub lacks_acknowledgement : CompiledRule → Bool
  lacks_acknowledgement rule =
      applies rule
      && not (is_deny rule.effect)
      && is_known_global q.scope_kind
      && not (acknowledges rule)

module _ (request : RequestContext) (rules : List CompiledRule) where
  abbrev pub resource_denied : IamRequirement → Bytes → Bool
  resource_denied q resource = any (denies request q resource) rules

  abbrev pub resource_unacknowledged : IamRequirement → Bytes → Bool
  resource_unacknowledged q resource =
      not (any (covers request q resource) rules)
      && any (lacks_acknowledgement request q resource) rules

  abbrev pub resource_uncovered : IamRequirement → Bytes → Bool
  resource_uncovered q resource =
      not (any (covers request q resource) rules)
      && not (any (lacks_acknowledgement request q resource) rules)

-- Some resource of some requirement passes the test.
abbrev pub some_resource : (IamRequirement → Bytes → Bool) → List IamRequirement → Bool
some_resource p requirements = any (λ q. any (p q) q.resources) requirements

-- A denial wins over everything, then a missing acknowledgement, then a resource without a rule.
unfoldable pub verdict : RequestContext → List CompiledRule → List IamRequirement → ReasonCode
verdict request rules requirements =
    if some_resource (resource_denied request rules) requirements
    then explicit_deny
    else if some_resource (resource_unacknowledged request rules) requirements
    then aws_required_wildcard_not_approved
    else if some_resource (resource_uncovered request rules) requirements
    then policy_no_matching_allow
    else all_requirements_allowed
