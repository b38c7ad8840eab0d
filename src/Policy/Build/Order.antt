-- ===== src/Policy/Build/Order.antt =====
-- The engine's order of the rules decides nothing.
use kordn.Base.{
  List, [], Bool, true, Bytes, ◌≡◌, ap, ap₂, ◌∙◌, arith, sort_by, any-sort_by, bytes_lt, bytes_eq,
  bytes_eq→eq, sym, Result, ok, err, Result-cases, inl, inr, codes, if◌then◌else◌, not, ◌&&◌,
}
use mathlib.Core.Path.{fun_ext}
use kordn.AwsError.Reason.{
  ReasonCode, explicit_deny, policy_no_matching_allow, aws_required_wildcard_not_approved,
  all_requirements_allowed,
}
use kordn.AwsRequest.Mapping.{IamRequirement}
use kordn.Policy.Rule.{CompiledRule, RequestContext}
use kordn.Policy.Verdict.{
  denies, covers, lacks_acknowledgement, resource_denied, resource_unacknowledged,
  resource_uncovered, some_resource, verdict,
}
use kordn.Policy.Engine.{Engine}
use kordn.Policy.Build.{PolicySnapshot, EngineError, compile_rules, canonical_policy, new_engine}

module _ (lt : CompiledRule → CompiledRule → Bool) (request : RequestContext)
    (rules : List CompiledRule) where
  denied-sort_by : resource_denied request (sort_by lt rules) ≡ resource_denied request rules
  denied-sort_by = fun_ext λ q. fun_ext λ r. any-sort_by lt (denies request q r) rules

  unacknowledged-sort_by :
      resource_unacknowledged request (sort_by lt rules) ≡ resource_unacknowledged request rules
  unacknowledged-sort_by = fun_ext λ q. fun_ext λ r.
      ap₂ (λ a b. not a && b) (any-sort_by lt (covers request q r) rules)
        (any-sort_by lt (lacks_acknowledgement request q r) rules)

  uncovered-sort_by :
      resource_uncovered request (sort_by lt rules) ≡ resource_uncovered request rules
  uncovered-sort_by = fun_ext λ q. fun_ext λ r.
      ap₂ (λ a b. not a && not b) (any-sort_by lt (covers request q r) rules)
        (any-sort_by lt (lacks_acknowledgement request q r) rules)

-- The verdict from the three tests.
verdict_of : (d w u : IamRequirement → Bytes → Bool) → List IamRequirement → ReasonCode
verdict_of d w u requirements =
    if some_resource d requirements
    then explicit_deny
    else if some_resource w requirements
    then aws_required_wildcard_not_approved
    else if some_resource u requirements
    then policy_no_matching_allow
    else all_requirements_allowed

-- Sorting the rules, by whatever order, changes no verdict.
pub verdict-sort_by :
    (lt : CompiledRule → CompiledRule → Bool) (request : RequestContext) (rules : List CompiledRule)
    (requirements : List IamRequirement)
    → verdict request (sort_by lt rules) requirements ≡ verdict request rules requirements
unfolding verdict verdict_of
verdict-sort_by lt request rules requirements =
    ap₂ (λ d w. verdict_of d w (resource_uncovered request (sort_by lt rules)) requirements)
      (denied-sort_by lt request rules) (unacknowledged-sort_by lt request rules)
    ∙ ap
        (λ u.
          verdict_of (resource_denied request rules) (resource_unacknowledged request rules) u
            requirements)
        (uncovered-sort_by lt request rules)

abbrev built : List CompiledRule → Bytes → Engine
built rules hash = record {
  default_deny = true;
  rules = sort_by (λ a b. bytes_lt a.id b.id) rules;
  hash = hash;
}

built_parts :
    (digest : PolicySnapshot → Result EngineError Bytes) (policy : PolicySnapshot) (engine : Engine)
    (rules : List CompiledRule) (hash : Bytes)
    → new_engine digest policy ≡ ok engine
    → compile_rules 0 [] policy.rules ≡ ok rules
    → digest (canonical_policy policy) ≡ ok hash
    → (bytes_eq policy.default_value (codes "deny") ≡ true) × (built rules hash ≡ engine)
unfolding new_engine
built_parts digest policy engine rules hash h c d = ground arith

not_compiled :
    (digest : PolicySnapshot → Result EngineError Bytes) (policy : PolicySnapshot) (engine : Engine)
    (e : EngineError)
    → new_engine digest policy ≡ ok engine
    → ¬ (compile_rules 0 [] policy.rules ≡ err e)
unfolding new_engine
not_compiled digest policy engine e h c = ground arith

not_hashed :
    (digest : PolicySnapshot → Result EngineError Bytes) (policy : PolicySnapshot) (engine : Engine)
    (e : EngineError)
    → new_engine digest policy ≡ ok engine
    → ¬ (digest (canonical_policy policy) ≡ err e)
unfolding new_engine
not_hashed digest policy engine e h d = ground arith

-- The engine that `NewEngine` returns gives the verdicts of the rules as they stand in the policy,
-- all of which compile, and carries the digest of the policy's canonical form.
pub new_engine-verdict :
    (digest : PolicySnapshot → Result EngineError Bytes) (policy : PolicySnapshot) (engine : Engine)
    → new_engine digest policy ≡ ok engine
    → (policy.default_value ≡ codes "deny")
      × (digest (canonical_policy policy) ≡ ok engine.hash)
      × (rules : List CompiledRule) × (compile_rules 0 [] policy.rules ≡ ok rules)
      × ((request : RequestContext) (requirements : List IamRequirement)
          → verdict request engine.rules requirements ≡ verdict request rules requirements)
new_engine-verdict digest policy engine h = elim (Result-cases (compile_rules 0 [] policy.rules)) [
  | inl (e, failed) ↦ absurd (not_compiled digest policy engine e h failed)
  | inr (rules, compiled) ↦ elim (Result-cases (digest (canonical_policy policy))) [
    | inl (e, failed) ↦ absurd (not_hashed digest policy engine e h failed)
    | inr (hash, hashed) ↦
        let (default, e) = built_parts digest policy engine rules hash h compiled hashed in
        (
          bytes_eq→eq _ _ default,
          hashed ∙ ap (λ x. ok x.hash) e,
          rules,
          compiled,
          λ request requirements.
              ap (λ x. verdict request x.rules requirements) (sym e)
              ∙ verdict-sort_by (λ a b. bytes_lt a.id b.id) request rules requirements,
        )
  ]
]
