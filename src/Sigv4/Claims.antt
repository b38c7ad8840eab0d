-- ===== src/Sigv4/Claims.antt =====
-- internal/sigv4/verify.go: the credential of a request, and its scope.
use kordn.Base.{
  [], ◌∷◌, Bool, true, false, not, ◌&&◌, ◌||◌, none, some, Bytes, codes, length, leb, ltb,
  if◌then◌else◌, bytes_eq, contains_any, has_prefix, cut, all_runes, Result, ok, err, ◌>>=◌, ◌>>◌,
  fail_if,
}
use kordn.AwsRequest.Endpoint.{
  AwsEndpoint, is_empty, is_global, is_dns_rune, validate_signing_service,
}
use kordn.Sigv4.Request.{
  SigError, new_error, malformed_authorization, malformed_credential, invalid_credential,
  unsupported_signing, endpoint_mismatch, HttpRequest, Lookup, absent, found, duplicated,
  request_header,
}
use kordn.Sigv4.Authorization.{
  Authorization, CredentialScope, parse_authorization, parse_credential,
}
use kordn.Sigv4.Verifier.{Verifier}

abbrev pub sigv4_algorithm : Bytes
sigv4_algorithm = codes "AWS4-HMAC-SHA256"

-- What stands in front of the first space is another algorithm. A text that starts with the space
-- is left to `parseAuthorization`.
unfoldable pub other_algorithm : Bytes → Bool
other_algorithm authorization = elim (cut authorization b' ') [
  | none ↦ not (has_prefix authorization sigv4_algorithm)
  | some (algorithm, rest) ↦ not (is_empty algorithm) && not (bytes_eq algorithm sigv4_algorithm)
]

abbrev pub unsupported_algorithm : SigError
unsupported_algorithm = new_error unsupported_signing "request signing algorithm is unsupported"

unfoldable pub authorization_field : Lookup → Result SigError Bytes
authorization_field duplicated =
    err (new_error malformed_authorization "authorization is duplicated")
authorization_field absent =
    err (new_error unsupported_signing "request authentication is unsupported")
authorization_field (found value) = do
  fail_if (is_empty value) (new_error unsupported_signing "request authentication is unsupported")
  ok value

unfoldable pub token_is : Bytes → Lookup → Bool
token_is expected (found value) = not (is_empty value) && bytes_eq value expected
token_is expected _ = false

unfoldable pub valid_scope_region : Bytes → Bool
valid_scope_region region =
    if is_empty region
      || ltb 64 (length region)
      || contains_any region (b'/' ∷ 0 ∷ 13 ∷ 10 ∷ b' ' ∷ [])
    then false
    else all_runes is_dns_rune region

unfoldable pub valid_scope_service : Bytes → Bool
valid_scope_service service =
    leb (length service) 128
    && elim (validate_signing_service service) [ ok _ ↦ true | err _ ↦ false ]

abbrev pub expected_service : AwsEndpoint → Bytes
expected_service e = if is_empty e.signing_service then e.service else e.signing_service

abbrev pub expected_region : AwsEndpoint → Bytes
expected_region e =
    if is_empty e.signing_region && not (is_global e) then e.region else e.signing_region

-- `verifySigningScope`.
unfoldable pub verify_signing_scope : AwsEndpoint → Bytes → Bytes → Result SigError (Unit {0})
verify_signing_scope endpoint region service = do
  fail_if (not (bytes_eq service (expected_service endpoint)))
      (new_error endpoint_mismatch "credential service does not match endpoint signing identity")
  fail_if (is_empty (expected_region endpoint) || not (bytes_eq region (expected_region endpoint)))
      (new_error endpoint_mismatch "credential Region does not match endpoint signing identity")

-- The values that the next steps of `Verify` use.
pub record Claim : Type 0 where
  pub authorization : Authorization
  pub scope : CredentialScope

-- `Verify` from the authentication header to the credential.
unfoldable pub read_claim : HttpRequest → Result SigError Claim
read_claim req = do
  value ← authorization_field (request_header req.header (codes "authorization"))
  fail_if (other_algorithm value) unsupported_algorithm
  authorization ← parse_authorization value
  fail_if (not (bytes_eq authorization.algorithm sigv4_algorithm)) unsupported_algorithm
  scope ← parse_credential authorization.credential
  ok (record { authorization = authorization; scope = scope })

-- The credential is the one that was given out, for the endpoint.
unfoldable pub check_claim :
    Verifier → HttpRequest → AwsEndpoint → CredentialScope → Result SigError (Unit {0})
check_claim v req endpoint scope = do
  fail_if (not (bytes_eq scope.access_key v.fake.access_key_id))
      (new_error invalid_credential "fake access key is invalid")
  fail_if
      (not
        (token_is v.fake.session_token (request_header req.header (codes "x-amz-security-token"))))
      (new_error invalid_credential "fake session token is invalid")
  fail_if (not (valid_scope_region scope.region) || not (valid_scope_service scope.service))
      (new_error malformed_credential "credential scope is malformed")
  verify_signing_scope endpoint scope.region scope.service

-- `Verify` from the authentication header to the scope.
unfoldable pub authenticate : Verifier → HttpRequest → AwsEndpoint → Result SigError Claim
authenticate v req endpoint = do
  claim ← read_claim req
  check_claim v req endpoint claim.scope
  ok claim
