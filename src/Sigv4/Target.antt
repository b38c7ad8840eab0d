-- ===== src/Sigv4/Target.antt =====
-- internal/sigv4/verify.go: the endpoint and the query of a request.
use kordn.Base.{
  List, [], ◌∷◌, Bool, true, false, not, ◌&&◌, Option, none, some, Bytes, codes, ◌==◌,
  if◌then◌else◌, bytes_eq, contains, split, to_lower, Result, ok, err, ◌>>=◌, ◌>>◌, fail_if,
}
use kordn.AwsRequest.Endpoint.{AwsEndpoint, is_empty, validate_endpoint}
use kordn.AwsRequest.Authority.{normalize_endpoint_host}
use kordn.Sigv4.Escape.{percent_decode_query}
use kordn.Sigv4.Query.{cut_part}
use kordn.Sigv4.Request.{
  SigError, new_error, malformed_request, unsupported_signing, endpoint_mismatch, Url, HttpRequest,
}
use kordn.Sigv4.Canonical.{or_malformed, no_url, url_host}
use kordn.Sigv4.Verifier.{Platform}

abbrev pub or_host : Bytes → Bytes → Bytes
or_host [] url_host = url_host
or_host (c ∷ host) url_host = c ∷ host

-- `normalizeErr != nil || port != 443 || name != expected`, negated.
unfoldable pub names_host : Platform → Bytes → Bytes → Bool
names_host p authority expected = elim (normalize_endpoint_host p.to_ascii authority) [
  | err e ↦ false
  | ok (name, port) ↦ port == 443 && bytes_eq name expected
]

-- `verifyRequestEndpoint`. The name of the host is the endpoint's when the URL's is compared.
unfoldable pub verify_request_endpoint :
    Platform → HttpRequest → Url → AwsEndpoint → Result SigError (Unit {0})
verify_request_endpoint p req url endpoint = do
  fail_if url.has_user (new_error endpoint_mismatch "request authority contains user information")
  fail_if (is_empty (or_host req.host url.host))
      (new_error endpoint_mismatch "request host is unavailable")
  fail_if (not (names_host p (or_host req.host url.host) endpoint.host))
      (new_error endpoint_mismatch "request host does not match endpoint")
  fail_if
      (not (is_empty req.host)
        && not (is_empty url.host)
        && not (names_host p url.host endpoint.host))
      (new_error endpoint_mismatch "request URL authority does not match host")
  ok tt

abbrev pub presigning_names : List Bytes
presigning_names =
    codes "x-amz-algorithm"
    ∷ codes "x-amz-credential"
    ∷ codes "x-amz-signature"
    ∷ codes "x-amz-signedheaders"
    ∷ codes "x-amz-expires"
    ∷ codes "x-amz-date"
    ∷ codes "x-amz-security-token"
    ∷ []

-- The loop of `querySigningPresent`; `none` is the error.
unfoldable pub parts_presigned : List Bytes → Option Bool
parts_presigned [] = some false
parts_presigned (part ∷ parts) =
    let rest = parts_presigned parts in
    elim (percent_decode_query (cut_part part).key) [
      | none ↦ none
      | some decoded ↦ if contains presigning_names (to_lower decoded) then some true else rest
    ]

-- `querySigningPresent`.
unfoldable pub query_signing_present : Bytes → Option Bool
query_signing_present raw = if is_empty raw then some false else parts_presigned (split raw b'&')

abbrev pub or_bad_endpoint : AwsEndpoint → Result SigError (Unit {0})
or_bad_endpoint endpoint = elim (validate_endpoint endpoint) [
  | ok _ ↦ ok tt
  | err _ ↦ err (new_error endpoint_mismatch "endpoint metadata is invalid")
]

-- `Verify` up to the authentication header.
unfoldable pub check_target :
    Platform → Bool → HttpRequest → AwsEndpoint → Result SigError (Unit {0})
check_target p cancelled req endpoint = do
  fail_if cancelled (new_error malformed_request "verification was cancelled")
  url ← or_malformed req.url no_url
  or_bad_endpoint endpoint
  verify_request_endpoint p req url endpoint
  presigned ←
      or_malformed (query_signing_present url.raw_query)
        (new_error malformed_request "request query is malformed")
  fail_if presigned (new_error unsupported_signing "query presigning is unsupported")
