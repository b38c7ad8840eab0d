-- ===== src/Audit/Validation.antt =====
-- internal/audit/event.go: the validation of the events.
use kordn.Base.{
  ℕ, List, [], ◌∷◌, Bool, true, false, not, ◌&&◌, ◌||◌, Option, none, some, Bytes, codes, length,
  all, drop, ◌==◌, ltb, bytes_eq, has_prefix, is_blank, Result, ok, err, ◌>>◌, fail_if,
}
use kordn.AwsRequest.Protocol.{protocol_supported}
use kordn.AwsRequest.Endpoint.{is_empty}
use kordn.AwsRequest.Mapping.{scope_valid, confidence_valid}
use kordn.Sigv4.Header.{is_lower_hex}
use kordn.Audit.Event.{
  EventType, RootProcess, RequestInfo, Requirement, MappingInfo, DecisionInfo, Event, EventError,
  schema, run_started, run_ended, request_decision, forward_error, authentication_failed,
  unsupported_request, writer_failed, cleanup_failed, other_event, bad_identity, other_fields,
  incomplete, bad_requirement, empty_resource, bad_request, bad_result, bad_policy_hash,
  bad_mapping, bad_root, bad_exit_code, no_profile, unsupported_type,
}

abbrev pub is_set : {A : Type 0} → Option A → Bool
is_set none = false
is_set (some a) = true

abbrev pub is_listed : {A : Type 0} → List A → Bool
is_listed [] = false
is_listed (a ∷ rest) = true

-- The elements of a slice, of which a nil slice has none.
abbrev pub elements : {A : Type 0} → Option (List A) → List A
elements none = []
elements (some xs) = xs

-- `isHex` behind the prefix, and `validHash`.
unfoldable pub valid_hash : Bytes → Bool
valid_hash v =
    length v == 71
    && has_prefix v (codes "sha256:")
    && (length (drop 7 v) == 64 && all is_lower_hex (drop 7 v))

-- `validateRoot`.
unfoldable pub validate_root : Option RootProcess → Result EventError (Unit {0})
validate_root none = err incomplete
validate_root (some r) =
    fail_if
      (ltb r.pid 1
        || is_empty r.argv0
        || ltb 256 (length r.argv0)
        || not (valid_hash r.command_hash))
      bad_root

-- `Validate` of a requirement.
unfoldable pub validate_audit_requirement : Requirement → Result EventError (Unit {0})
validate_audit_requirement r = do
  fail_if (is_empty r.action || not (is_listed r.resources) || not (scope_valid r.scope_kind))
      bad_requirement
  fail_if (not (all (λ x. not (is_empty x)) r.resources)) empty_resource

unfoldable pub validate_audit_requirements : List Requirement → Result EventError (Unit {0})
validate_audit_requirements [] = ok tt
validate_audit_requirements (r ∷ rs) =
    let rest = validate_audit_requirements rs in do validate_audit_requirement r; rest

-- `Validate` of the request's information.
unfoldable pub validate_request_info : Option RequestInfo → Result EventError (Unit {0})
validate_request_info none = err incomplete
validate_request_info (some r) =
    fail_if
      (is_blank r.host
        || is_empty r.partition
        || is_empty r.service
        || is_empty r.operation
        || not (protocol_supported r.protocol)
        || is_empty r.method
        || r.payload_negative)
      bad_request

-- The checks of the decision and of the mapping.
unfoldable pub validate_decision_info :
    Option MappingInfo → Option DecisionInfo → Result EventError (Unit {0})
validate_decision_info (some m) (some d) = do
  fail_if (not (bytes_eq d.result (codes "allow")) && not (bytes_eq d.result (codes "deny")))
      bad_result
  fail_if (not (valid_hash d.policy_hash)) bad_policy_hash
  fail_if (not (confidence_valid m.confidence) || is_empty m.mapper_version) bad_mapping
validate_decision_info _ _ = err incomplete

abbrev pub exit_in_range : Option (Option ℕ) → Bool
exit_in_range (some (some code)) = not (ltb 255 code)
exit_in_range _ = false

-- The fields that only a decision or a forward error has, with a test of the requirements, and those
-- that only a run has.
abbrev pub request_fields : (Option (List Requirement) → Bool) → Event → Bool
request_fields has_requirements e =
    not (is_empty e.connection_id)
    || is_set e.request
    || has_requirements e.iam_requirements
    || is_set e.mapping
    || is_set e.decision
    || e.timing

abbrev pub run_fields : Event → Bool
run_fields e =
    is_set e.root_process
    || is_set e.upstream
    || not (is_empty e.status)
    || is_set e.exit_code
    || e.duration
    || e.metrics

unfoldable pub validate_run_started : Event → Result EventError (Unit {0})
validate_run_started e = do
  fail_if
      (request_fields (λ rs. is_listed (elements rs)) e
        || not (is_empty e.status)
        || not (is_empty e.error_code)
        || is_set e.exit_code
        || e.duration
        || e.metrics)
      other_fields
  fail_if (not (is_set e.root_process) || not (is_set e.upstream)) incomplete
  validate_root e.root_process
  fail_if (elim e.upstream [ none ↦ true | some profile ↦ is_empty profile ]) no_profile

unfoldable pub validate_run_ended : Event → Result EventError (Unit {0})
validate_run_ended e = do
  fail_if
      (request_fields (λ rs. is_listed (elements rs)) e
        || not (is_empty e.error_code)
        || is_set e.upstream
        || not e.metrics)
      other_fields
  fail_if (not (is_set e.root_process) || is_empty e.status || not (is_set e.exit_code)) incomplete
  validate_root e.root_process
  fail_if (not (exit_in_range e.exit_code)) bad_exit_code

unfoldable pub validate_request_decision : Event → Result EventError (Unit {0})
validate_request_decision e = do
  fail_if (run_fields e || not (is_empty e.error_code)) other_fields
  fail_if
      (is_empty e.connection_id
        || not (is_set e.request)
        || not (is_listed (elements e.iam_requirements))
        || not (is_set e.mapping)
        || not (is_set e.decision)
        || not e.timing)
      incomplete
  validate_request_info e.request
  validate_decision_info e.mapping e.decision
  validate_audit_requirements (elements e.iam_requirements)

unfoldable pub validate_forward_error : Event → Result EventError (Unit {0})
validate_forward_error e = do
  fail_if
      (is_set e.root_process
        || is_set e.iam_requirements
        || is_set e.mapping
        || is_set e.decision
        || e.metrics)
      other_fields
  fail_if (is_empty e.connection_id || not (is_set e.request) || is_empty e.error_code) incomplete
  validate_request_info e.request

unfoldable pub validate_proxy_event : Event → Result EventError (Unit {0})
validate_proxy_event e = do
  fail_if
      (run_fields e
        || is_set e.request
        || is_set e.iam_requirements
        || is_set e.mapping
        || is_set e.decision
        || e.timing)
      other_fields
  fail_if (is_empty e.connection_id || is_empty e.error_code) incomplete

unfoldable pub validate_failure_event : Event → Result EventError (Unit {0})
validate_failure_event e = do
  fail_if (run_fields e || request_fields (λ rs. is_set rs) e) other_fields
  fail_if (is_empty e.error_code) incomplete

-- The switch of `Validate`.
unfoldable pub validate_type : EventType → Event → Result EventError (Unit {0})
validate_type run_started e = validate_run_started e
validate_type run_ended e = validate_run_ended e
validate_type request_decision e = validate_request_decision e
validate_type forward_error e = validate_forward_error e
validate_type authentication_failed e = validate_proxy_event e
validate_type unsupported_request e = validate_proxy_event e
validate_type writer_failed e = validate_failure_event e
validate_type cleanup_failed e = validate_failure_event e
validate_type (other_event s) e = err unsupported_type

abbrev pub is_untyped : EventType → Bool
is_untyped (other_event s) = is_empty s
is_untyped _ = false

-- `Validate` of an event.
unfoldable pub validate_event : Event → Result EventError (Unit {0})
validate_event e = do
  fail_if
      (not (bytes_eq e.schema_version schema)
        || is_empty e.event_id
        || ltb 128 (length e.event_id)
        || is_empty e.run_id
        || ltb 128 (length e.run_id)
        || is_untyped e.event_type
        || not e.utc_time)
      bad_identity
  validate_type e.event_type e
