-- ===== src/Sigv4/Dates.antt =====
-- internal/sigv4/verify.go: the date, the signed names and the signed host.
use kordn.Base.{
  ℕ, ◌-◌, List, Bool, not, ◌||◌, Bytes, codes, ◌==◌, ltb, bytes_eq, contains, trim_space, Result,
  ok, err, ◌>>=◌, ◌>>◌, fail_if,
}
use kordn.AwsRequest.Endpoint.{AwsEndpoint, is_empty}
use kordn.Sigv4.Request.{
  SigError, new_error, malformed_authorization, malformed_credential, invalid_timestamp,
  stale_timestamp, endpoint_mismatch, HttpRequest, Header, Lookup, absent, found, duplicated,
  request_header,
}
use kordn.Sigv4.Authorization.{parse_signed_headers}
use kordn.Sigv4.Canonical.{signed_header_value, or_malformed}
use kordn.Sigv4.Verifier.{Verifier, Platform}
use kordn.Sigv4.Target.{names_host}
use kordn.Sigv4.Claims.{Claim}

-- `requestSigningTime`: the name of the header and the instant.
unfoldable pub http_date : Platform → Lookup → Result SigError (Bytes × ℕ)
http_date p (found value) = do
  fail_if (is_empty value) (new_error invalid_timestamp "request date is unavailable")
  parsed ←
      or_malformed (p.parse_http_date (trim_space value))
        (new_error invalid_timestamp "request date is malformed")
  ok (codes "date", parsed)
http_date p _ = err (new_error invalid_timestamp "request date is unavailable")

unfoldable pub signing_time_of : Platform → Lookup → Lookup → Result SigError (Bytes × ℕ)
signing_time_of p duplicated date = err (new_error invalid_timestamp "x-amz-date is duplicated")
signing_time_of p (found value) date = do
  fail_if (is_empty value) (new_error invalid_timestamp "x-amz-date is empty")
  parsed ←
      or_malformed (p.parse_amz_date (trim_space value))
        (new_error invalid_timestamp "x-amz-date is malformed")
  ok (codes "x-amz-date", parsed)
signing_time_of p absent date = http_date p date

abbrev pub request_signing_time : Platform → Header → Result SigError (Bytes × ℕ)
request_signing_time p header =
    signing_time_of p (request_header header (codes "x-amz-date"))
      (request_header header (codes "date"))

-- `delta > skew || delta < -skew`.
abbrev pub outside_skew : ℕ → ℕ → ℕ → Bool
outside_skew skew now time = ltb skew (now - time) || ltb skew (time - now)

pub record Signed : Type 0 where
  pub names : List Bytes
  pub time : ℕ

-- `verifySignedHost`.
unfoldable pub verify_signed_host :
    Platform → HttpRequest → List Bytes → AwsEndpoint → Result SigError (Unit {0})
verify_signed_host p req signed endpoint = do
  fail_if (not (contains signed (codes "host")))
      (new_error malformed_authorization "signed host header is missing")
  value ← signed_header_value req (codes "host")
  fail_if (not (names_host p value endpoint.host))
      (new_error endpoint_mismatch "signed host does not match endpoint")

-- The checks of the date and of the signed names; `now` is what the clock says.
unfoldable pub check_time :
    Platform → Verifier → ℕ → Bytes → List Bytes → Bytes → ℕ → Result SigError (Unit {0})
check_time p v now scope_date names date_name time = do
  fail_if (not (bytes_eq (p.date_text time) scope_date))
      (new_error malformed_credential "credential date does not match request date")
  fail_if (now == p.zero_time) (new_error invalid_timestamp "verification clock is invalid")
  fail_if (outside_skew v.options.max_clock_skew now time)
      (new_error stale_timestamp "request timestamp is outside the allowed skew")
  fail_if (not (contains names date_name))
      (new_error malformed_authorization "request date is not signed")
  fail_if (not (contains names (codes "x-amz-security-token")))
      (new_error malformed_authorization "session token is not signed")

-- `Verify` from the signed headers to the signed host.
unfoldable pub check_signed :
    Platform → Verifier → ℕ → HttpRequest → AwsEndpoint → Claim → Result SigError Signed
check_signed p v now req endpoint claim = do
  names ← parse_signed_headers claim.authorization.signed_headers
  dated ← request_signing_time p req.header
  check_time p v now claim.scope.date names dated.0 dated.1
  verify_signed_host p req names endpoint
  ok (record { names = names; time = dated.1 })
