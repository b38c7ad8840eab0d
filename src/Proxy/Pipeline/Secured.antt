-- ===== src/Proxy/Pipeline/Secured.antt =====
-- internal/proxy/server.go with the verifier of internal/sigv4 and the engine of internal/policy.
use mathlib.Core.Path.{subst, Path}
use kordn.Base.{
  ap, ℕ, Bool, ◌≡◌, sym, ◌∙◌, List, [], ◌∷◌, Option, some, Bytes, Result, ok, err, Some, here,
  there, arith,
}
use kordn.AwsRequest.Endpoint.{AwsEndpoint}
use kordn.AwsRequest.Verified.{VerifiedRequest}
use kordn.AwsRequest.Mapping.{MappingResult}
use kordn.Policy.Decision.{Decision, DecisionInput}
use kordn.Policy.Scan.{Context}
use kordn.Policy.Engine.{Engine}
use kordn.Cache.Lru.{Lru, new_lru}
use kordn.Cache.Keys.Injective.{IsCollisionFree}
use kordn.Sigv4.Request.{Code, SigError}
use kordn.Sigv4.Inbound.{Inbound}
use kordn.Sigv4.Verifier.{Platform, Verifier}
use kordn.Sigv4.Verify.{verify}
use kordn.Sigv4.Verify.Authentic.{IsAuthentic, verify-IsAuthentic}
use kordn.Proxy.Server.{Server, State, Effect}
use kordn.Proxy.Pipeline.Stages.{AllSent}
use kordn.Proxy.Pipeline.Coherent.{serve, AllSent-mono}
use kordn.Proxy.Pipeline.Enforced.{enforcing, IsEnforced, IsServedEnforced, serve-IsEnforced}

abbrev Verdict : Type 0
Verdict = Result SigError (VerifiedRequest Inbound) × Inbound

-- What the pipeline sees of a verification: the code of an error, or the verified request.
abbrev answer_of : Verdict → Result (Option Code) (Option (VerifiedRequest Inbound))
answer_of (err e, i) = err (some e.code)
answer_of (ok r, i) = ok (some r)

-- The verifier, with a context and a clock for each request.
abbrev pub authenticating :
    Platform
    → Verifier
    → (Inbound → Bool)
    → (Inbound → ℕ)
    → Inbound
    → AwsEndpoint
    → Result (Option Code) (Option (VerifiedRequest Inbound))
authenticating p v cancelled clock i endpoint =
    answer_of (verify p v (cancelled i) (clock i) i endpoint)

answer_of-ok :
    (verdict : Verdict) (r : VerifiedRequest Inbound)
    → answer_of verdict ≡ ok (some r)
    → (i' : Inbound) × (verdict ≡ (ok r, i'))
answer_of-ok (err e, i) r h = absurd (ground (arith, h))
answer_of-ok (ok r', i) r h =
    let same : r' ≡ r = ground (arith, h) in
    let both : Path Verdict (ok r', i) (ok r, i) =
      ap (λ (x : VerifiedRequest Inbound). (ok x, i)) same in
    (i, both)

module _ (srv : Server Inbound) (engine : Engine) (p : Platform) (v : Verifier)
    (clock : Inbound → ℕ) where
  -- A request that is authentic, and that the rules of the engine grant.
  pub record IsSecured (req : Inbound) (endpoint : AwsEndpoint) (out : Inbound)
      (before : List (Effect Inbound)) : Type 0 where
    pub enforced : IsEnforced srv engine req endpoint out before
    pub after : Inbound
    pub authentic : IsAuthentic p v (clock req) req after endpoint enforced.vouched.granted.verified

  abbrev pub IsServedSecured :
      List (Inbound × AwsEndpoint) → Inbound → List (Effect Inbound) → Type 0
  IsServedSecured served out before = Some (λ x. IsSecured x.0 x.1 out before) served

  IsEnforced-IsSecured :
      (cancelled : Inbound → Bool) (req : Inbound) (endpoint : AwsEndpoint) (out : Inbound)
      (before : List (Effect Inbound))
      → srv.authenticator ≡ some (authenticating p v cancelled clock)
      → IsEnforced srv engine req endpoint out before
      → IsSecured req endpoint out before
  IsEnforced-IsSecured cancelled req endpoint out before configured e =
      let (by, there_is, accepted) = e.vouched.granted.authenticated in
      let verdict = verify p v (cancelled req) (clock req) req endpoint in
      let one : by ≡ authenticating p v cancelled clock =
        ground (arith, sym there_is ∙ configured) in
      let (after, ended) = answer_of-ok verdict e.vouched.granted.verified (
        subst
          (λ (f : Inbound → AwsEndpoint → Result (Option Code) (Option (VerifiedRequest Inbound))).
            f req endpoint ≡ ok (some e.vouched.granted.verified))
          one accepted) in
      record {
        enforced = e;
        after = after;
        authentic =
            verify-IsAuthentic p v (cancelled req) (clock req) req after endpoint
              e.vouched.granted.verified ended;
      }

  served-secured :
      (cancelled : Inbound → Bool) (served : List (Inbound × AwsEndpoint)) (out : Inbound)
      (before : List (Effect Inbound))
      → srv.authenticator ≡ some (authenticating p v cancelled clock)
      → IsServedEnforced srv engine served out before
      → IsServedSecured served out before
  served-secured cancelled [] out before configured nothing = elim nothing [ ]
  served-secured cancelled ((req, endpoint) ∷ served) out before configured (here e) =
      here (IsEnforced-IsSecured cancelled req endpoint out before configured e)
  served-secured cancelled (x ∷ served) out before configured (there e) =
      there (served-secured cancelled served out before configured e)

-- When the authenticator is the verifier and the policy the engine, the digest has no collisions, and
-- requests are handled one after another on new caches, each request that is sent upstream is signed
-- again from one of them that is authentic and that handlePipeline may send, with what the decoder made
-- of it, and the decision on it is the engine's on an input of which the rules grant every resource of
-- every requirement, and which agrees with the decoded request and its mapping in the endpoint's
-- partition, host, service and Region, the account, the mapper's version, the text of the request, the
-- RequirementsKey and the text of the metadata.
pub serve-IsSecured :
    (srv : Server Inbound) (engine : Engine) (p : Platform) (v : Verifier)
    (cancelled : Inbound → Bool) (clock : Inbound → ℕ) (ctx : DecisionInput → Context)
    (served : List (Inbound × AwsEndpoint)) (st : State Inbound) (capacity room : ℕ)
    (operations : Lru Bytes MappingResult) (decisions : Lru Bytes Decision)
    → srv.authenticator ≡ some (authenticating p v cancelled clock)
    → srv.policy ≡ some (enforcing engine ctx)
    → IsCollisionFree srv.digest
    → new_lru capacity ≡ some operations
    → new_lru room ≡ some decisions
    → st.caches ≡ some (operations, decisions)
    → st.effects ≡ []
    → AllSent (IsServedSecured srv engine p v clock served) (serve srv served st).effects
serve-IsSecured srv engine p v cancelled clock ctx served st capacity room operations decisions
      verified policed free one other caches none_yet =
    AllSent-mono srv (IsServedEnforced srv engine served)
      (IsServedSecured srv engine p v clock served)
      (λ out before e. served-secured srv engine p v clock cancelled served out before verified e)
      (serve srv served st).effects
      (serve-IsEnforced srv engine ctx served st capacity room operations decisions free policed one
        other caches none_yet)
