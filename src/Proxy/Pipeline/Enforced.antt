-- ===== src/Proxy/Pipeline/Enforced.antt =====
-- internal/proxy/server.go with the engine of internal/policy as its policy.
use mathlib.Core.Path.{subst}
use kordn.Base.{
  ℕ, true, ◌≡◌, sym, ◌∙◌, refl, ap, List, [], false, Option, some, All, Some, here, there, arith,
  ◌∷◌, Bytes,
}
use kordn.AwsRequest.Endpoint.{AwsEndpoint}
use kordn.AwsRequest.Request.{DecodedAwsRequest}
use kordn.AwsRequest.Mapping.{MappingResult}
use kordn.Policy.Scan.{Context}
use kordn.Policy.Decision.{Decision, DecisionInput, DecisionResult, decision_valid, result_valid}
use kordn.Policy.Engine.{Engine, evaluate, request_context}
use kordn.Policy.Engine.Decided.{evaluate-decision_valid}
use kordn.Policy.Engine.Safety.{evaluate-IsGranted}
use kordn.Policy.Engine.Safety
use kordn.Cache.Lru.{Lru, new_lru}
use kordn.Proxy.Server.{Server, State, Effect}
use kordn.Cache.Keys.Injective.{IsCollisionFree}
use kordn.Proxy.Lookups.Keyed.{SameDecision, decision_cache_key-SameDecision}
use kordn.Proxy.Forwarding.{is_denial}
use kordn.Proxy.Pipeline.{input_of}
use kordn.Proxy.Pipeline.Watch.{settled}
use kordn.Proxy.Pipeline.Stages.{AllSent}
use kordn.Proxy.Pipeline.Coherent.{IsVouched, IsServed, serve, serve-AllSent, AllSent-mono}
use kordn.Proxy.Pipeline.Decided.{settled-valid}

-- The engine, with a context for each call.
abbrev pub enforcing : Engine → (DecisionInput → Context) → DecisionInput → Option Decision
enforcing engine ctx input = some (evaluate (some engine) (some (ctx input)) input)

-- Every resource of every requirement is covered by a rule that allows, and denied by none.
abbrev pub AllGranted : Engine → DecodedAwsRequest → MappingResult → Type 0
AllGranted engine request mapping =
    All
      (λ q.
        All (kordn.Policy.Engine.Safety.IsGranted (request_context request) engine.rules q)
          q.resources)
      mapping.requirements

-- A request that is vouched for, by a decision on an input of which the rules grant every resource, and
-- which has the place, account, mapper version, request text, RequirementsKey and metadata text of the
-- request that was decoded.
pub record IsEnforced {R : Type 0} (srv : Server R) (engine : Engine) (req : R)
    (endpoint : AwsEndpoint) (out : R) (before : List (Effect R)) : Type 0 where
  pub vouched : IsVouched srv req endpoint out before
  pub alike :
      SameDecision srv vouched.decided.endpoint endpoint vouched.decided.request
        vouched.granted.decoded vouched.decided.mapping vouched.granted.mapping
  pub all_granted : AllGranted engine vouched.decided.request vouched.decided.mapping

only_allow :
    (r : DecisionResult) → result_valid r ≡ true → is_denial r ≡ false → r ≡ DecisionResult.allow
unfolding result_valid
only_allow DecisionResult.allow valid permitted = refl
only_allow DecisionResult.deny valid permitted = absurd (ground arith)
only_allow (DecisionResult.other_result s) valid permitted = absurd (ground arith)

result_valid-decision_valid :
    (d : Decision) → decision_valid d ≡ true → result_valid d.result ≡ true
unfolding decision_valid
result_valid-decision_valid d valid = ground arith

evaluate-AllGranted :
    {R : Type 0}
    → (srv : Server R) (engine : Engine) (ctx : Context) (e : AwsEndpoint) (d : DecodedAwsRequest)
      (m : MappingResult)
    → (evaluate (some engine) (some ctx) (input_of srv e d m)).result ≡ DecisionResult.allow
    → AllGranted engine d m
evaluate-AllGranted srv engine ctx e d m allowed =
    let (request, mapping, admissible, granted) =
      evaluate-IsGranted engine ctx (input_of srv e d m) allowed in
    let one : request ≡ d = ground (arith, admissible.has_request) in
    let two : mapping ≡ m = ground (arith, admissible.has_mapping) in
    subst (λ x. AllGranted engine x m) one (subst (AllGranted engine request) two granted)

module _ {R : Type 0} (srv : Server R) (engine : Engine) where
  abbrev pub IsServedEnforced : List (R × AwsEndpoint) → R → List (Effect R) → Type 0
  IsServedEnforced served out before = Some (λ x. IsEnforced srv engine x.0 x.1 out before) served

module _ {R : Type 0} (srv : Server R) (engine : Engine) (ctx : DecisionInput → Context) where
  IsVouched-IsEnforced :
      (req : R) (endpoint : AwsEndpoint) (out : R) (before : List (Effect R))
      → IsCollisionFree srv.digest
      → srv.policy ≡ some (enforcing engine ctx)
      → IsVouched srv req endpoint out before
      → IsEnforced srv engine req endpoint out before
  IsVouched-IsEnforced req endpoint out before free policed v =
      let by = v.decided in
      let input = input_of srv by.endpoint by.request by.mapping in
      let made = evaluate (some engine) (some (ctx input)) input in
      let one : by.policy ≡ enforcing engine ctx = ground (arith, sym by.configured ∙ policed) in
      let answered =
        subst (λ (f : DecisionInput → Option Decision). settled (f input) ≡ v.granted.decision) one
          by.answered in
      let valid = evaluate-decision_valid (some engine) (some (ctx input)) input in
      let same : made ≡ v.granted.decision = sym (settled-valid made valid) ∙ answered in
      let permits =
        only_allow v.granted.decision.result
          (result_valid-decision_valid v.granted.decision v.granted.decision_known)
          v.granted.permitted in
      record {
        vouched = v;
        alike =
            decision_cache_key-SameDecision srv by.endpoint endpoint by.request v.granted.decoded
              by.mapping v.granted.mapping free by.keyed;
        all_granted =
            evaluate-AllGranted srv engine (ctx input) by.endpoint by.request by.mapping
              (ap (λ (d : Decision). d.result) same ∙ permits);
      }

  served-enforced :
      (served : List (R × AwsEndpoint)) (out : R) (before : List (Effect R))
      → IsCollisionFree srv.digest
      → srv.policy ≡ some (enforcing engine ctx)
      → IsServed srv served out before
      → IsServedEnforced srv engine served out before
  served-enforced [] out before free policed nothing = elim nothing [ ]
  served-enforced ((req, endpoint) ∷ served) out before free policed (here v) =
      here (IsVouched-IsEnforced req endpoint out before free policed v)
  served-enforced (x ∷ served) out before free policed (there v) =
      there (served-enforced served out before free policed v)

-- When the policy is the engine, the digest has no collisions, and requests are handled one after
-- another on new caches, each request that is sent upstream is one that handlePipeline may send for one
-- of them, with what the decoder made of it, and the decision on it is the engine's on an input of
-- which the rules grant every resource of every requirement, and which agrees with the decoded request
-- and its mapping in the endpoint's partition, host, service and Region, the account, the mapper's
-- version, the text of the request, the RequirementsKey and the text of the metadata.
pub serve-IsEnforced :
    {R : Type 0}
    → (srv : Server R) (engine : Engine) (ctx : DecisionInput → Context)
      (served : List (R × AwsEndpoint)) (st : State R) (capacity room : ℕ)
      (operations : Lru Bytes MappingResult) (decisions : Lru Bytes Decision)
    → IsCollisionFree srv.digest
    → srv.policy ≡ some (enforcing engine ctx)
    → new_lru capacity ≡ some operations
    → new_lru room ≡ some decisions
    → st.caches ≡ some (operations, decisions)
    → st.effects ≡ []
    → AllSent (IsServedEnforced srv engine served) (serve srv served st).effects
serve-IsEnforced srv engine ctx served st capacity room operations decisions free policed one other
      caches none_yet =
    AllSent-mono srv (IsServed srv served) (IsServedEnforced srv engine served)
      (λ out before v. served-enforced srv engine ctx served out before free policed v)
      (serve srv served st).effects
      (serve-AllSent srv served st capacity room operations decisions one other caches none_yet).0
