-- ===== src/Proxy/Failures.antt =====
-- internal/proxy/server.go: what is told of a pipeline that fails.
use kordn.Base.{
  [], ◌∷◌, ◌++◌, false, not, ◌&&◌, ◌||◌, Option, none, some, Bytes, codes, if◌then◌else◌, bytes_eq,
  is_ok,
}
use kordn.AwsRequest.Endpoint.{AwsEndpoint, is_empty, EndpointScope}
use kordn.AwsRequest.Protocol.{AwsProtocol, PayloadHashMode, protocol_text}
use kordn.AwsRequest.Evidence.{
  DecodeFailureEvidence, GoError, validate_evidence, has_protocol, has_operation,
  evidence_from_error,
}
use kordn.AwsRequest.Request.{DecodedAwsRequest}
use kordn.AwsRequest.Mapping.{MappingResult, ScopeKind, MappingConfidence}
use kordn.AwsError.Reason.{ReasonCode}
use kordn.Policy.Decision.{Decision, DecisionResult}

-- `safeDecodeFailureEvidence`; `none` is the empty evidence.
unfoldable pub safe_decode_failure_evidence :
    Option GoError → AwsEndpoint → AwsProtocol → Option DecodeFailureEvidence
safe_decode_failure_evidence e endpoint claimed = elim (evidence_from_error e) [
  | none ↦ none
  | some evidence ↦
      if not (is_ok (validate_evidence evidence))
        || not (bytes_eq evidence.service endpoint.service)
        || (evidence.protocol_available
            && not (bytes_eq (protocol_text evidence.protocol) (protocol_text claimed)))
      then none
      else some evidence
]

-- Evidence that may be told at this endpoint.
unfoldable pub usable_evidence :
    AwsEndpoint → Option DecodeFailureEvidence → Option DecodeFailureEvidence
usable_evidence endpoint none = none
usable_evidence endpoint (some evidence) =
    if not (is_ok (validate_evidence evidence))
      || (not (is_empty evidence.service) && not (bytes_eq evidence.service endpoint.service))
    then none
    else some evidence

abbrev pub or_text : Bytes → Bytes → Bytes
or_text value fallback = if is_empty value then fallback else value

unfoldable pub failure_protocol : Option DecodeFailureEvidence → AwsProtocol
failure_protocol none = AwsProtocol.json11
failure_protocol (some e) = if has_protocol e then e.protocol else AwsProtocol.json11

unfoldable pub failure_operation : Option DecodeFailureEvidence → Bytes
failure_operation none = codes "Unknown"
failure_operation (some e) = if has_operation e then e.operation else codes "Unknown"

-- `failureDecoded`; the fields that it does not set are empty.
unfoldable pub failure_decoded :
    Bytes → AwsEndpoint → Option DecodeFailureEvidence → DecodedAwsRequest
failure_decoded method endpoint evidence =
    let usable = usable_evidence endpoint evidence in
    record {
      partition = endpoint.partition;
      endpoint_host = endpoint.host;
      service = or_text endpoint.service (codes "unknown");
      signing_service = [];
      signing_region = [];
      region = endpoint.region;
      scope = EndpointScope.no_scope;
      fips = false;
      dual_stack = false;
      account_id = [];
      caller_account_id = [];
      protocol = failure_protocol usable;
      operation = failure_operation usable;
      method = or_text method (codes "POST");
      canonical_path = codes "/";
      parameters = [];
      payload_hash_mode = PayloadHashMode.empty_payload;
      payload_negative = false;
    }

-- `failureMapping`.
unfoldable pub failure_mapping : DecodedAwsRequest → Bytes → MappingResult
failure_mapping d stage =
    let service = or_text d.service (codes "unknown") in
    record {
      service = service;
      operation = d.operation;
      requirements =
          record {
            action = service ++ codes ":Unknown";
            resources = codes "unknown" ∷ [];
            scope_kind = ScopeKind.unresolved;
            dependent = false;
            condition_hint = [];
          }
          ∷ [];
      mapper_version = codes "kordn/unknown";
      iam_live_version = [];
      authorization_data_version = [];
      confidence = MappingConfidence.unknown;
      evidence = record { source = stage; field = codes "status"; value = codes "rejected" } ∷ [];
    }

abbrev pub fail_closed : ReasonCode → Decision
fail_closed reason = record {
  result = DecisionResult.deny;
  reason_code = reason;
  matched_rule_ids = [];
}
