-- ===== src/AwsRequest/Verified.antt =====
-- internal/awsrequest/types.go: VerifiedRequest. `R` stands for the http.Request that it points to.
use kordn.Base.{
  Bool, true, false, not, ◌&&◌, ◌||◌, Option, none, some, Bytes, bytes_eq, Result, ok, err, ◌>>◌,
  fail_if,
}
use kordn.AwsRequest.Protocol.{
  AwsProtocol, SigningScheme, PayloadHashMode, protocol_supported, scheme_supported,
  payload_mode_supported,
}
use kordn.AwsRequest.Endpoint.{AwsEndpoint, EndpointError, validate_endpoint, is_empty}

pub record VerifiedRequest (R : Type 0) : Type 0 where
  pub request : Option R
  pub endpoint : AwsEndpoint
  pub protocol : AwsProtocol
  pub signing_scheme : SigningScheme
  pub signing_region : Bytes
  pub signing_service : Bytes
  pub payload_mode : PayloadHashMode

pub data VerifiedError : Type 0 where
  nil_request bad_protocol bad_scheme no_signing_identity other_identity bad_payload : VerifiedError
  bad_endpoint : EndpointError → VerifiedError

abbrev pub is_nil : {R : Type 0} → Option R → Bool
is_nil none = true
is_nil (some r) = false

unfoldable pub check_endpoint : AwsEndpoint → Result VerifiedError (Unit {0})
check_endpoint e = elim (validate_endpoint e) [ ok _ ↦ ok tt | err why ↦ err (bad_endpoint why) ]

-- `Validate` of a VerifiedRequest.
unfoldable pub validate_verified :
    {R : Type 0} → VerifiedRequest R → Result VerifiedError (Unit {0})
validate_verified r = do
  fail_if (is_nil r.request) nil_request
  check_endpoint r.endpoint
  fail_if (not (protocol_supported r.protocol)) bad_protocol
  fail_if (not (scheme_supported r.signing_scheme)) bad_scheme
  fail_if (is_empty r.signing_region || is_empty r.signing_service) no_signing_identity
  fail_if
      (not (is_empty r.endpoint.signing_service)
        && (not (bytes_eq r.signing_service r.endpoint.signing_service)
            || not (bytes_eq r.signing_region r.endpoint.signing_region)))
      other_identity
  fail_if (not (payload_mode_supported r.payload_mode)) bad_payload
  ok tt
