-- ===== src/AwsRequest/Request.antt =====
-- internal/awsrequest/types.go: the decoded request.
use kordn.Base.{
  List, [], ◌∷◌, Bool, not, ◌||◌, Bytes, codes, length, ◌==◌, if◌then◌else◌, contains, to_upper,
  all, is_digit, is_blank, Result, ok, err, ◌>>◌, fail_if,
}
use kordn.AwsRequest.Protocol.{
  AwsProtocol, PayloadHashMode, protocol_supported, payload_mode_supported,
}
use kordn.AwsRequest.Endpoint.{
  AwsEndpoint, EndpointScope, EndpointError, is_empty, starts_with_byte, validate_endpoint,
}
use kordn.AwsRequest.Value.{Value, ValueError, validate_value}

-- `DecodedAWSRequest`, without the query and the headers, which no function here reads.
-- `payload_negative` is the sign of `PayloadBytes`.
pub record DecodedAwsRequest : Type 0 where
  pub partition : Bytes
  pub endpoint_host : Bytes
  pub service : Bytes
  pub signing_service : Bytes
  pub signing_region : Bytes
  pub region : Bytes
  pub scope : EndpointScope
  pub fips : Bool
  pub dual_stack : Bool
  pub account_id : Bytes
  pub caller_account_id : Bytes
  pub protocol : AwsProtocol
  pub operation : Bytes
  pub method : Bytes
  pub canonical_path : Bytes
  pub parameters : List (Bytes × Value)
  pub payload_hash_mode : PayloadHashMode
  pub payload_negative : Bool

pub data RequestError : Type 0 where
  bad_caller_account missing_identity bad_protocol bad_method bad_path bad_payload_mode :
      RequestError
  negative_payload empty_parameter : RequestError
  bad_endpoint : EndpointError → RequestError
  bad_parameter : ValueError → RequestError

-- `validateCallerAccountID`: the loop is over bytes.
unfoldable pub validate_caller_account_id : Bytes → Result RequestError (Unit {0})
validate_caller_account_id account = if is_empty account then ok tt else (do
  fail_if (not (length account == 12)) bad_caller_account
  fail_if (not (all is_digit account)) bad_caller_account
  ok tt)

-- The endpoint that the request's own fields describe.
unfoldable pub request_endpoint : DecodedAwsRequest → AwsEndpoint
request_endpoint r = record {
  partition = r.partition;
  host = r.endpoint_host;
  service = r.service;
  signing_service = r.signing_service;
  signing_region = r.signing_region;
  region = r.region;
  global = is_empty r.region;
  scope = r.scope;
  fips = r.fips;
  dual_stack = r.dual_stack;
  account_id = r.account_id;
}

abbrev pub methods : List Bytes
methods =
    codes "GET"
    ∷ codes "POST"
    ∷ codes "PUT"
    ∷ codes "PATCH"
    ∷ codes "DELETE"
    ∷ codes "HEAD"
    ∷ codes "OPTIONS"
    ∷ []

-- The conversions of the inner errors, as `fmt.Errorf("…: %w", err)` makes them.
unfoldable pub endpoint_part : Result EndpointError (Unit {0}) → Result RequestError (Unit {0})
endpoint_part (ok _) = ok tt
endpoint_part (err e) = err (bad_endpoint e)

unfoldable pub parameter_part : Result ValueError (Unit {0}) → Result RequestError (Unit {0})
parameter_part (ok _) = ok tt
parameter_part (err e) = err (bad_parameter e)

unfoldable pub check_parameters : List (Bytes × Value) → Result RequestError (Unit {0})
check_parameters [] = ok tt
check_parameters ((key, value) ∷ parameters) =
    let rest = check_parameters parameters in
    do fail_if (is_blank key) empty_parameter; parameter_part (validate_value value); rest

unfoldable pub validate_request : DecodedAwsRequest → Result RequestError (Unit {0})
validate_request r = do
  validate_caller_account_id r.caller_account_id
  fail_if
      (is_blank r.partition
        || is_blank r.endpoint_host
        || is_blank r.service
        || is_blank r.operation)
      missing_identity
  endpoint_part (validate_endpoint (request_endpoint r))
  fail_if (not (protocol_supported r.protocol)) bad_protocol
  fail_if (not (contains methods (to_upper r.method))) bad_method
  fail_if (not (starts_with_byte r.canonical_path b'/')) bad_path
  fail_if (not (payload_mode_supported r.payload_hash_mode)) bad_payload_mode
  fail_if r.payload_negative negative_payload
  check_parameters r.parameters
