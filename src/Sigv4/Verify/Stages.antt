-- ===== src/Sigv4/Verify/Stages.antt =====
-- internal/sigv4/verify.go: what each stage of Verify has checked when it passes.
use kordn.Base.{
  ℕ, ◌+◌, ◌-◌, ◌≡◌, ◌≤◌, List, true, not, Option, none, some, Bytes, codes, arith, bytes_eq→eq,
  contains, ltb→le, Result, ok, ok_of_chain, ◌>>=◌, ◌>>◌, fail_if,
}
use kordn.AwsRequest.Endpoint.{AwsEndpoint}
use kordn.Sigv4.Request.{
  SigError, HttpRequest, Lookup, absent, found, duplicated, request_header, new_error,
  invalid_signature,
}
use kordn.Sigv4.Authorization.{CredentialScope, parse_signed_headers}
use kordn.Sigv4.Canonical.{Canonical, build_canonical_request}
use kordn.Sigv4.Inbound.{hex_decode}
use kordn.Sigv4.Verifier.{Platform, Verifier}
use kordn.Sigv4.Claims.{
  Claim, token_is, authenticate, verify_signing_scope, expected_service, expected_region,
  valid_scope_region, valid_scope_service, read_claim, check_claim,
}
use kordn.Sigv4.Dates.{Signed, check_time, check_signed, verify_signed_host, request_signing_time}
use kordn.Sigv4.Verify.{signature_is, signing_key, string_to_sign, check_signature}

-- The credential that Verify was made for, with its token, for the endpoint's signing identity.
pub record IsClaimed (v : Verifier) (req : HttpRequest) (endpoint : AwsEndpoint)
    (scope : CredentialScope) : Type 0 where
  pub key_known : scope.access_key ≡ v.fake.access_key_id
  pub token_known :
      request_header req.header (codes "x-amz-security-token") ≡ found v.fake.session_token
  pub region_expected : scope.region ≡ expected_region endpoint
  pub service_expected : scope.service ≡ expected_service endpoint
  pub region_valid : valid_scope_region scope.region ≡ true
  pub service_valid : valid_scope_service scope.service ≡ true

token_is-found :
    (expected : Bytes) (lookup : Lookup) → token_is expected lookup ≡ true → lookup ≡ found expected
unfolding token_is
token_is-found expected absent h = ground arith
token_is-found expected duplicated h = ground arith
token_is-found expected (found value) h = ground (arith, bytes_eq→eq value expected)

verify_signing_scope-eq :
    (endpoint : AwsEndpoint) (region service : Bytes)
    → verify_signing_scope endpoint region service ≡ ok tt
    → (region ≡ expected_region endpoint) × (service ≡ expected_service endpoint)
unfolding verify_signing_scope
verify_signing_scope-eq endpoint region service h = ground (
  arith,
  bytes_eq→eq region (expected_region endpoint),
  bytes_eq→eq service (expected_service endpoint),
)

check_claim-ok :
    (v : Verifier) (req : HttpRequest) (endpoint : AwsEndpoint) (scope : CredentialScope)
    → check_claim v req endpoint scope ≡ ok tt
    → IsClaimed v req endpoint scope
unfolding check_claim
check_claim-ok v req endpoint scope h = ground (
  arith,
  bytes_eq→eq scope.access_key v.fake.access_key_id,
  token_is-found v.fake.session_token (request_header req.header (codes "x-amz-security-token")),
  verify_signing_scope-eq endpoint scope.region scope.service,
)

pub authenticate-IsClaimed :
    (v : Verifier) (req : HttpRequest) (endpoint : AwsEndpoint) (claim : Claim)
    → authenticate v req endpoint ≡ ok claim
    → (read_claim req ≡ ok claim) × IsClaimed v req endpoint claim.scope
unfolding authenticate
authenticate-IsClaimed v req endpoint claim h =
    let (read, e, h1) =
      ok_of_chain (read_claim req) (λ c. check_claim v req endpoint c.scope >> ok c) h in
    let (_, checked, h2) = ok_of_chain (check_claim v req endpoint read.scope) (λ _. ok read) h1 in
    ground (arith, e, h2, check_claim-ok v req endpoint read.scope checked)

-- A request that is fresh, with its date and its token signed.
pub record IsFresh (p : Platform) (v : Verifier) (now : ℕ) (claim : Claim) (signed : Signed)
    : Type 0 where
  pub dated : p.date_text signed.time ≡ claim.scope.date
  pub not_late : now ≤ signed.time + v.options.max_clock_skew
  pub not_early : signed.time ≤ now + v.options.max_clock_skew
  pub token_signed : contains signed.names (codes "x-amz-security-token") ≡ true

check_time-IsFresh :
    (p : Platform) (v : Verifier) (now : ℕ) (claim : Claim) (names : List Bytes) (date_name : Bytes)
    (time : ℕ)
    → check_time p v now claim.scope.date names date_name time ≡ ok tt
    → IsFresh p v now claim (record { names = names; time = time })
unfolding check_time
check_time-IsFresh p v now claim names date_name time h = ground (
  arith,
  bytes_eq→eq (p.date_text time) claim.scope.date,
  ltb→le v.options.max_clock_skew (now - time),
  ltb→le v.options.max_clock_skew (time - now),
)

pub check_signed-IsFresh :
    (p : Platform) (v : Verifier) (now : ℕ) (req : HttpRequest) (endpoint : AwsEndpoint)
    (claim : Claim) (signed : Signed)
    → check_signed p v now req endpoint claim ≡ ok signed
    → (parse_signed_headers claim.authorization.signed_headers ≡ ok signed.names)
      × IsFresh p v now claim signed
      × (verify_signed_host p req signed.names endpoint ≡ ok tt)
unfolding check_signed
check_signed-IsFresh p v now req endpoint claim signed h =
    let (names, e1, h1) =
      ok_of_chain (parse_signed_headers claim.authorization.signed_headers)
        (λ names. request_signing_time p req.header >>= λ dated.
          check_time p v now claim.scope.date names dated.0 dated.1
          >> (verify_signed_host p req names endpoint
              >> ok (record { names = names; time = dated.1 })))
        h in
    let (dated, e2, h2) =
      ok_of_chain (request_signing_time p req.header)
        (λ dated.
          check_time p v now claim.scope.date names dated.0 dated.1
          >> (verify_signed_host p req names endpoint
              >> ok (record { names = names; time = dated.1 })))
        h1 in
    let end : Result SigError Signed =
      verify_signed_host p req names endpoint >> ok (record { names = names; time = dated.1 }) in
    let (_, e3, h3) =
      ok_of_chain (check_time p v now claim.scope.date names dated.0 dated.1) (λ _. end) h2 in
    let (_, e4, h4) =
      ok_of_chain (verify_signed_host p req names endpoint)
        (λ _. ok (record { names = names; time = dated.1 })) h3 in
    ground (arith, e1, e4, h4, check_time-IsFresh p v now claim names dated.0 dated.1 e3)

-- What the signature is compared with.
abbrev pub expected_signature : Platform → Verifier → Claim → Signed → Canonical → Bytes
expected_signature p v claim signed canonical =
    signing_key p v.fake.secret_access_key claim.scope
      (string_to_sign p claim.scope signed.time canonical.hash)

signature_is-some :
    (expected : Bytes) (provided : Option Bytes)
    → signature_is expected provided ≡ true
    → provided ≡ some expected
unfolding signature_is
signature_is-some expected none h = ground arith
signature_is-some expected (some provided) h = ground (arith, bytes_eq→eq expected provided)

pub check_signature-some :
    (p : Platform) (v : Verifier) (req : HttpRequest) (claim : Claim) (signed : Signed)
    (payload_hash : Bytes)
    → check_signature p v req claim signed payload_hash ≡ ok tt
    → (canonical : Canonical) × (build_canonical_request p.sha256 req signed.names payload_hash
        ≡ ok canonical)
      × (hex_decode claim.authorization.signature
          ≡ some (expected_signature p v claim signed canonical))
unfolding check_signature
check_signature-some p v req claim signed payload_hash h =
    let compare = λ (canonical : Canonical).
      fail_if
        (not (
          signature_is (expected_signature p v claim signed canonical)
            (hex_decode claim.authorization.signature)))
        (new_error invalid_signature "request signature is invalid") in
    let (canonical, built, h1) =
      ok_of_chain (build_canonical_request p.sha256 req signed.names payload_hash) compare h in
    (
      canonical,
      built,
      signature_is-some (expected_signature p v claim signed canonical)
          (hex_decode claim.authorization.signature) (ground (arith, h1)),
    )
