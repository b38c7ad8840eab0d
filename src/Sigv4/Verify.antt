-- ===== src/Sigv4/Verify.antt =====
-- internal/sigv4/verify.go: the Verifier.
use kordn.Base.{
  ℕ, ◌+◌, ◌-◌, [], ◌∷◌, ◌++◌, Bool, false, not, ◌&&◌, ◌||◌, Option, none, some, Bytes, codes,
  length, ◌==◌, if◌then◌else◌, bytes_eq, join, to_lower, Result, ok, err, ◌>>=◌, ◌>>◌, fail_if,
}
use kordn.AwsRequest.Protocol.{AwsProtocol, SigningScheme, PayloadHashMode}
use kordn.AwsRequest.Endpoint.{AwsEndpoint}
use kordn.AwsRequest.Verified.{VerifiedRequest}
use kordn.Sigv4.Request.{SigError, new_error, invalid_signature, HttpRequest, Header}
use kordn.Sigv4.Authorization.{CredentialScope}
use kordn.Sigv4.Canonical.{build_canonical_request}
use kordn.Sigv4.Body.{BodyOptions}
use kordn.Sigv4.Inbound.{Inbound, Payload, payload, media_type, hex_decode, close_request_body}
use kordn.Sigv4.Verifier.{Verifier, Platform}
use kordn.Sigv4.Target.{check_target}
use kordn.Sigv4.Claims.{sigv4_algorithm, Claim, authenticate}
use kordn.Sigv4.Dates.{Signed, check_signed}
pub mod Stages
pub mod Authentic
pub mod Outcomes
pub mod Contract

-- `signingKey`.
unfoldable pub signing_key : Platform → Bytes → CredentialScope → Bytes → Bytes
signing_key p secret scope string_to_sign =
    let date_key = p.hmac_sha256 (codes "AWS4" ++ secret) scope.date in
    let region_key = p.hmac_sha256 date_key scope.region in
    let service_key = p.hmac_sha256 region_key scope.service in
    let request_key = p.hmac_sha256 service_key (codes "aws4_request") in
    p.hmac_sha256 request_key string_to_sign

unfoldable pub string_to_sign : Platform → CredentialScope → ℕ → Bytes → Bytes
string_to_sign p scope time canonical_hash =
    join
      (sigv4_algorithm
        ∷ p.stamp_text time
        ∷ join (scope.date ∷ scope.region ∷ scope.service ∷ codes "aws4_request" ∷ []) (b'/' ∷ [])
        ∷ canonical_hash
        ∷ [])
      (b'\n' ∷ [])

unfoldable pub signature_is : Bytes → Option Bytes → Bool
signature_is expected none = false
signature_is expected (some provided) = length provided == 32 && bytes_eq expected provided

-- `Verify` from the canonical request to the comparison of the signatures.
unfoldable pub check_signature :
    Platform → Verifier → HttpRequest → Claim → Signed → Bytes → Result SigError (Unit {0})
check_signature p v req claim signed payload_hash = do
  canonical ← build_canonical_request p.sha256 req signed.names payload_hash
  fail_if
      (not (
        signature_is
          (signing_key p v.fake.secret_access_key claim.scope
            (string_to_sign p claim.scope signed.time canonical.hash))
          (hex_decode claim.authorization.signature)))
      (new_error invalid_signature "request signature is invalid")

-- `req.Header.Get` of a canonical name.
unfoldable pub header_get : Header → Bytes → Bytes
header_get [] name = []
header_get ((key, values) ∷ header) name =
    let rest = header_get header name in
    if bytes_eq key name then elim values [ [] ↦ [] | value ∷ more ↦ value ] else rest

-- `inferProtocol`.
unfoldable pub infer_protocol : HttpRequest → AwsProtocol
infer_protocol req =
    let content_type = to_lower (media_type (header_get req.header (codes "Content-Type"))) in
    if bytes_eq content_type (codes "application/x-amz-json-1.0")
    then AwsProtocol.json10
    else if bytes_eq content_type (codes "application/x-amz-json-1.1")
    then AwsProtocol.json11
    else if bytes_eq content_type (codes "application/x-www-form-urlencoded")
    then AwsProtocol.query
    else if bytes_eq content_type (codes "application/xml")
        || bytes_eq content_type (codes "text/xml")
    then AwsProtocol.rest_xml
    else AwsProtocol.rest_json

abbrev pub verified_request :
    Inbound → AwsEndpoint → CredentialScope → PayloadHashMode → VerifiedRequest Inbound
verified_request i endpoint scope mode = record {
  request = some i;
  endpoint = endpoint;
  protocol = infer_protocol i.request;
  signing_scheme = SigningScheme.header_v4;
  signing_region = scope.region;
  signing_service = scope.service;
  payload_mode = mode;
}

abbrev pub body_options : Verifier → BodyOptions
body_options v = record {
  max_in_memory_bytes = some v.options.max_in_memory_body_bytes;
  max_spool_bytes = some v.options.max_spool_body_bytes;
}

-- What `Verify` checks before it reads the body.
pub record Head : Type 0 where
  pub claim : Claim
  pub signed : Signed

unfoldable pub verify_head :
    Platform → Verifier → Bool → ℕ → HttpRequest → AwsEndpoint → Result SigError Head
verify_head p v cancelled now req endpoint = do
  check_target p cancelled req endpoint
  claim ← authenticate v req endpoint
  signed ← check_signed p v now req endpoint claim
  ok (record { claim = claim; signed = signed })

-- The deferred function of `Verify`: the body of a request that is not verified is closed. The closes
-- of the body on the way change nothing that this one does not change.
unfoldable pub reject :
    Platform → SigError → Inbound → Result SigError (VerifiedRequest Inbound) × Inbound
reject p e i = (err e, close_request_body p.disk i)

unfoldable pub verify_payload :
    Platform
    → Verifier
    → AwsEndpoint
    → Head
    → Result SigError Payload × Inbound
    → Result SigError (VerifiedRequest Inbound) × Inbound
verify_payload p v endpoint head (err e, i) = reject p e i
verify_payload p v endpoint head (ok payload, i) =
    elim (check_signature p v i.request head.claim head.signed payload.hash) [
      | err e ↦ reject p e i
      | ok _ ↦
          let i' = record i { payload_mode = some payload.mode } in
          (ok (verified_request i' endpoint head.claim.scope payload.mode), i')
    ]

-- `Verify` of a request, and the request afterwards.
unfoldable pub verify :
    Platform
    → Verifier
    → (cancelled : Bool) → (now : ℕ) → Inbound
    → AwsEndpoint
    → Result SigError (VerifiedRequest Inbound) × Inbound
verify p v cancelled now i endpoint = elim (verify_head p v cancelled now i.request endpoint) [
  | err e ↦ reject p e i
  | ok head ↦
      verify_payload p v endpoint head
        (payload p.sha256 p.disk (body_options v) v.options.allow_unsigned_payload i)
]
