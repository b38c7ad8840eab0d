-- ===== src/Policy/Decision.antt =====
-- internal/policy/decision.go: the input and the result of one policy evaluation.
use kordn.Base.{
  List, Bool, true, false, not, ◌||◌, Option, some, Bytes, if◌then◌else◌, bytes_eq, Result, ok, err,
  ◌>>◌, fail_if,
}
use kordn.AwsError.Reason.{ReasonCode, reason_valid, is_allowed}
use kordn.AwsRequest.Endpoint.{AwsEndpoint, EndpointError, is_empty, validate_endpoint}
use kordn.AwsRequest.Mapping.{MappingResult, MappingError, validate_mapping}
use kordn.AwsRequest.Request.{DecodedAwsRequest, RequestError, validate_request}

pub data DecisionResult : Type 0 where
  allow deny : DecisionResult
  other_result : Bytes → DecisionResult

unfoldable pub result_valid : DecisionResult → Bool
result_valid (other_result _) = false
result_valid _ = true

-- The request and the mapping are pointers.
pub record DecisionInput : Type 0 where
  pub run_id : Bytes
  pub endpoint : AwsEndpoint
  pub request : Option DecodedAwsRequest
  pub mapping : Option MappingResult
  pub policy_hash : Bytes
  pub mapper_version : Bytes

pub data InputError : Type 0 where
  missing_identity missing_parts endpoint_mismatch operation_mismatch version_mismatch : InputError
  bad_endpoint : EndpointError → InputError
  bad_request : RequestError → InputError
  bad_mapping : MappingError → InputError

abbrev pub part {ℓ} :
    {E : Type 0} {A : Type ℓ} → (E → InputError) → Result E A → Result InputError A
part f (ok a) = ok a
part f (err e) = err (f e)

-- `Validate` after the nil checks.
unfoldable pub validate_parts :
    DecisionInput → DecodedAwsRequest → MappingResult → Result InputError (Unit {0})
validate_parts i request mapping = do
  part bad_request (validate_request request)
  part bad_mapping (validate_mapping mapping)
  fail_if
      (not (bytes_eq request.partition i.endpoint.partition)
        || not (bytes_eq request.endpoint_host i.endpoint.host)
        || not (bytes_eq request.service i.endpoint.service))
      endpoint_mismatch
  fail_if
      (not (bytes_eq mapping.service request.service)
        || not (bytes_eq mapping.operation request.operation))
      operation_mismatch
  fail_if (not (bytes_eq mapping.mapper_version i.mapper_version)) version_mismatch
  ok tt

unfoldable pub present_parts :
    DecisionInput → Option DecodedAwsRequest → Option MappingResult → Result InputError (Unit {0})
present_parts i (some request) (some mapping) = validate_parts i request mapping
present_parts i _ _ = err missing_parts

unfoldable pub validate_input : DecisionInput → Result InputError (Unit {0})
validate_input i = do
  fail_if (is_empty i.run_id || is_empty i.policy_hash || is_empty i.mapper_version)
      missing_identity
  part bad_endpoint (validate_endpoint i.endpoint)
  present_parts i i.request i.mapping

pub record Decision : Type 0 where
  pub result : DecisionResult
  pub reason_code : ReasonCode
  pub matched_rule_ids : List Bytes

unfoldable pub decision_valid : Decision → Bool
decision_valid d =
    if not (result_valid d.result) || not (reason_valid d.reason_code)
    then false
    else elim d.result [ allow ↦ is_allowed d.reason_code | _ ↦ not (is_allowed d.reason_code) ]
