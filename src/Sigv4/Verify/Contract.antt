-- ===== src/Sigv4/Verify/Contract.antt =====
-- internal/sigv4/verify.go and internal/awsrequest/types.go: what Verify returns passes Validate.
use mathlib.Core.Path.{subst}
use kordn.Base.{
  ℕ, ◌≡◌, Bool, true, false, not, ◌&&◌, ◌||◌, some, inl, inr, Bytes, arith, bytes_eq, bytes_eq_refl,
  Result, ok, err, Result-cases,
}
use kordn.AwsRequest.Protocol.{protocol_supported, payload_mode_supported, scheme_supported}
use kordn.AwsRequest.Endpoint.{AwsEndpoint, validate_endpoint, is_empty, validate_signing_service}
use kordn.AwsRequest.Endpoint.Scope.{validate_endpoint-IsPlaced}
use kordn.AwsRequest.Verified.{VerifiedRequest, validate_verified, check_endpoint}
use kordn.Sigv4.Request.{SigError, HttpRequest}
use kordn.Sigv4.Inbound.{Inbound, Payload, payload}
use kordn.Sigv4.Inbound.Closed.{HoldsPayload, payload-HoldsPayload}
use kordn.Sigv4.Verifier.{Platform, Verifier}
use kordn.Sigv4.Verify.{
  Head, check_signature, verify_head, verify_payload, verify, reject, body_options, infer_protocol,
  verified_request,
}
use kordn.Sigv4.Target.{check_target}
use kordn.Sigv4.Claims.{expected_region, expected_service, valid_scope_region, valid_scope_service}
use kordn.Sigv4.Verify.Stages.{IsClaimed}
use kordn.Sigv4.Verify.Authentic.{verify_head-IsChecked}

infer_protocol-supported : (req : HttpRequest) → protocol_supported (infer_protocol req) ≡ true
unfolding infer_protocol protocol_supported
infer_protocol-supported req = ground arith

check_target-valid :
    (p : Platform) (cancelled : Bool) (req : HttpRequest) (endpoint : AwsEndpoint)
    → check_target p cancelled req endpoint ≡ ok tt
    → validate_endpoint endpoint ≡ ok tt
unfolding check_target
check_target-valid p cancelled req endpoint h = elim (Result-cases (validate_endpoint endpoint)) [
  | inl (e, bad) ↦ ground (arith, bad)
  | inr (_, good) ↦ good
]

-- A scope that was checked for a valid endpoint is filled, and is the endpoint's identity.
scope-identity :
    (endpoint : AwsEndpoint) (region service : Bytes)
    → validate_endpoint endpoint ≡ ok tt
    → region ≡ expected_region endpoint
    → service ≡ expected_service endpoint
    → valid_scope_region region ≡ true
    → valid_scope_service service ≡ true
    → ((is_empty region || is_empty service) ≡ false)
      × ((not (is_empty endpoint.signing_service)
            && (not (bytes_eq service endpoint.signing_service)
                || not (bytes_eq region endpoint.signing_region)))
          ≡ false)
unfolding valid_scope_region valid_scope_service validate_signing_service
scope-identity endpoint region service valid er es vr vs = ground (
  arith,
  validate_endpoint-IsPlaced endpoint valid,
  er,
  es,
  vr,
  vs,
  bytes_eq_refl endpoint.signing_service,
  bytes_eq_refl endpoint.signing_region,
)

-- What Verify returns passes Validate.
abbrev Validates : Result SigError (VerifiedRequest Inbound) × Inbound → Type 0
Validates (err e, i) = Unit
Validates (ok r, i) = validate_verified r ≡ ok tt

verified_request-valid :
    (v : Verifier) (req : HttpRequest) (i : Inbound) (endpoint : AwsEndpoint) (head : Head)
    (paid : Payload)
    → validate_endpoint endpoint ≡ ok tt
    → IsClaimed v req endpoint head.claim.scope
    → payload_mode_supported paid.mode ≡ true
    → validate_verified (verified_request i endpoint head.claim.scope paid.mode) ≡ ok tt
unfolding validate_verified check_endpoint scheme_supported
verified_request-valid v req i endpoint head paid valid claimed supported =
    let (filled, same) =
      scope-identity endpoint head.claim.scope.region head.claim.scope.service valid
        claimed.region_expected claimed.service_expected claimed.region_valid
        claimed.service_valid in
    ground (arith, valid, filled, same, supported, infer_protocol-supported i.request)

verify_payload-Validates :
    (p : Platform) (v : Verifier) (req : HttpRequest) (endpoint : AwsEndpoint) (head : Head)
    (paid : Result SigError Payload × Inbound)
    → validate_endpoint endpoint ≡ ok tt
    → IsClaimed v req endpoint head.claim.scope
    → HoldsPayload paid
    → Validates (verify_payload p v endpoint head paid)
unfolding verify_payload reject
verify_payload-Validates p v req endpoint head (err e, i) valid claimed h = tt
verify_payload-Validates p v req endpoint head (ok body, i) valid claimed h =
    elim (Result-cases (check_signature p v i.request head.claim head.signed body.hash)) [
      | inl (e, bad) ↦ rw (bad, verify_payload) tt
      | inr (_, good) ↦
          rw (good, verify_payload)
            (verified_request-valid v req (record i { payload_mode = some body.mode }) endpoint head
              body valid claimed h.1)
    ]

verify-Validates :
    (p : Platform) (v : Verifier) (cancelled : Bool) (now : ℕ) (i : Inbound)
    (endpoint : AwsEndpoint)
    → Validates (verify p v cancelled now i endpoint)
unfolding verify reject
verify-Validates p v cancelled now i endpoint =
    elim (Result-cases (verify_head p v cancelled now i.request endpoint)) [
      | inl (e, bad) ↦ rw (bad, verify) tt
      | inr (head, good) ↦
          (let (target, checked) = verify_head-IsChecked p v cancelled now i endpoint head good in
            rw (good, verify)
              (verify_payload-Validates p v i.request endpoint head
                (payload p.sha256 p.disk (body_options v) v.options.allow_unsigned_payload i)
                (check_target-valid p cancelled i.request endpoint target) checked.claimed
                (payload-HoldsPayload p.sha256 p.disk (body_options v)
                  v.options.allow_unsigned_payload i)))
    ]

-- Every request that Verify returns passes the Validate that the other packages rely on: its
-- endpoint, protocol, scheme and payload mode are valid, and its signing identity is the endpoint's.
pub verify-validate_verified :
    (p : Platform) (v : Verifier) (cancelled : Bool) (now : ℕ) (i i' : Inbound)
    (endpoint : AwsEndpoint) (r : VerifiedRequest Inbound)
    → verify p v cancelled now i endpoint ≡ (ok r, i')
    → validate_verified r ≡ ok tt
verify-validate_verified p v cancelled now i i' endpoint r h =
    subst Validates h (verify-Validates p v cancelled now i endpoint)
