-- ===== src/Policy/Engine/Safety.antt =====
-- What a permission means for each resource of each requirement.
use kordn.Base.{
  List, [], ◌∷◌, Bool, true, false, some, Bytes, All, Some, here, there, any, ◌≡◌, arith,
  Bool-cases, ||-false, inl, inr,
}
use kordn.AwsError.Reason.{all_requirements_allowed}
use kordn.AwsRequest.Mapping.{IamRequirement, MappingResult}
use kordn.AwsRequest.Request.{DecodedAwsRequest}
use kordn.Policy.Rule.{CompiledRule, RequestContext}
use kordn.Policy.Decision.{DecisionInput, allow}
use kordn.Policy.Scan.{Context}
use kordn.Policy.Verdict.{
  denies, covers, resource_denied, resource_unacknowledged, resource_uncovered, some_resource,
  verdict,
}
use kordn.Policy.Engine.{Engine, request_context, evaluate}
use kordn.Policy.Engine.Exact.{IsAdmissible, evaluate-allow}

-- Some rule covers the resource, and no rule denies it.
pub record IsGranted (request : RequestContext) (rules : List CompiledRule) (q : IamRequirement)
    (resource : Bytes) : Type 0 where
  pub covered : Some (λ rule. covers request q resource rule ≡ true) rules
  pub not_denied : All (λ rule. denies request q resource rule ≡ false) rules

any-Some : {A : Type 0} (p : A → Bool) (xs : List A) → any p xs ≡ true → Some (λ x. p x ≡ true) xs
any-Some p [] h = absurd (ground arith)
any-Some p (x ∷ xs) h = elim (Bool-cases (p x)) [
  | inl yes_here ↦ here yes_here
  | inr other ↦ there (any-Some p xs (ground arith))
]

any-All : {A : Type 0} (p : A → Bool) (xs : List A) → any p xs ≡ false → All (λ x. p x ≡ false) xs
any-All p [] h = tt
any-All p (x ∷ xs) h = (ground arith, any-All p xs (ground arith))

IsGranted-one :
    (request : RequestContext) (rules : List CompiledRule) (q : IamRequirement) (resource : Bytes)
    → resource_denied request rules q resource ≡ false
    → resource_unacknowledged request rules q resource ≡ false
    → resource_uncovered request rules q resource ≡ false
    → IsGranted request rules q resource
IsGranted-one request rules q resource d w u = record {
  covered = any-Some (covers request q resource) rules (ground arith);
  not_denied = any-All (denies request q resource) rules d;
}

abbrev AllGranted : RequestContext → List CompiledRule → IamRequirement → List Bytes → Type 0
AllGranted request rules q resources = All (IsGranted request rules q) resources

IsGranted-resources :
    (request : RequestContext) (rules : List CompiledRule) (q : IamRequirement)
    (resources : List Bytes)
    → any (resource_denied request rules q) resources ≡ false
    → any (resource_unacknowledged request rules q) resources ≡ false
    → any (resource_uncovered request rules q) resources ≡ false
    → AllGranted request rules q resources
IsGranted-resources request rules q [] d w u = tt
IsGranted-resources request rules q (r ∷ resources) d w u = (
  IsGranted-one request rules q r (||-false d).0 (||-false w).0 (||-false u).0,
  IsGranted-resources request rules q resources (||-false d).1 (||-false w).1 (||-false u).1,
)

IsGranted-requirements :
    (request : RequestContext) (rules : List CompiledRule) (requirements : List IamRequirement)
    → some_resource (resource_denied request rules) requirements ≡ false
    → some_resource (resource_unacknowledged request rules) requirements ≡ false
    → some_resource (resource_uncovered request rules) requirements ≡ false
    → All (λ q. AllGranted request rules q q.resources) requirements
IsGranted-requirements request rules [] d w u = tt
IsGranted-requirements request rules (q ∷ requirements) d w u = (
  IsGranted-resources request rules q q.resources (||-false d).0 (||-false w).0 (||-false u).0,
  IsGranted-requirements request rules requirements (||-false d).1 (||-false w).1 (||-false u).1,
)

verdict-flags :
    (request : RequestContext) (rules : List CompiledRule) (requirements : List IamRequirement)
    → verdict request rules requirements ≡ all_requirements_allowed
    → (some_resource (resource_denied request rules) requirements ≡ false)
      × (some_resource (resource_unacknowledged request rules) requirements ≡ false)
      × (some_resource (resource_uncovered request rules) requirements ≡ false)
unfolding verdict
verdict-flags request rules requirements h = ground arith

-- A permission of `Evaluate` means that each resource of each requirement of the mapping is covered
-- by an allow rule, with the acknowledgement at a known global resource, and denied by none.
pub evaluate-IsGranted :
    (engine : Engine) (ctx : Context) (input : DecisionInput)
    → (evaluate (some engine) (some ctx) input).result ≡ allow
    → (request : DecodedAwsRequest) × (mapping : MappingResult) × IsAdmissible engine input request
        mapping
      × All
          (λ q. All (IsGranted (request_context request) engine.rules q) q.resources)
          mapping.requirements
evaluate-IsGranted engine ctx input h =
    let (request, mapping, a, v) = evaluate-allow engine ctx input h in
    let (d, w, u) = verdict-flags (request_context request) engine.rules mapping.requirements v in
    (
      request,
      mapping,
      a,
      IsGranted-requirements (request_context request) engine.rules mapping.requirements d w u,
    )
