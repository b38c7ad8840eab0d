-- ===== src/AwsRequest/Evidence.antt =====
-- internal/awsrequest/types.go: what a failed decode may tell, and the errors that carry it.
use kordn.Base.{
  [], Bool, true, false, not, ◌&&◌, ◌||◌, Option, none, some, Bytes, length, leb, if◌then◌else◌,
  bytes_eq, all_runes, is_alnum, Result, ◌>>◌, fail_if, is_ok,
}
use kordn.AwsRequest.Protocol.{AwsProtocol, other_protocol, protocol_supported, protocol_text}
use kordn.AwsRequest.Endpoint.{is_empty, validate_endpoint_service}
pub mod Valid
pub mod Merge

-- `EvidenceCertainty`; `no_certainty` is the empty text.
pub data EvidenceCertainty : Type 0 where
  unknown authoritative validated no_certainty : EvidenceCertainty
  other_certainty : Bytes → EvidenceCertainty

abbrev pub is_authoritative : EvidenceCertainty → Bool
is_authoritative authoritative = true
is_authoritative _ = false

abbrev pub is_validated : EvidenceCertainty → Bool
is_validated validated = true
is_validated _ = false

-- `certainty != "" && certainty != EvidenceUnknown`.
abbrev pub is_certain : EvidenceCertainty → Bool
is_certain no_certainty = false
is_certain unknown = false
is_certain _ = true

pub record DecodeFailureEvidence : Type 0 where
  pub service : Bytes
  pub protocol : AwsProtocol
  pub protocol_available : Bool
  pub protocol_certainty : EvidenceCertainty
  pub operation : Bytes
  pub operation_available : Bool
  pub operation_certainty : EvidenceCertainty

unfoldable pub valid_evidence_service : Bytes → Bool
valid_evidence_service value = leb (length value) 128 && is_ok (validate_endpoint_service value)

-- `validOperation`.
unfoldable pub valid_operation : Bytes → Bool
valid_operation s = not (is_empty s) && all_runes is_alnum s

unfoldable pub valid_evidence_operation : Bytes → Bool
valid_evidence_operation value = leb (length value) 128 && valid_operation value

pub data EvidenceError : Type 0 where
  bad_evidence_service not_authoritative protocol_not_empty not_validated operation_not_empty :
      EvidenceError

unfoldable pub check_protocol_evidence : DecodeFailureEvidence → Result EvidenceError (Unit {0})
check_protocol_evidence e =
    if e.protocol_available
    then fail_if
        (is_empty e.service
          || not (protocol_supported e.protocol)
          || not (is_authoritative e.protocol_certainty))
        not_authoritative
    else fail_if (not (is_empty (protocol_text e.protocol)) || is_certain e.protocol_certainty)
        protocol_not_empty

unfoldable pub check_operation_evidence : DecodeFailureEvidence → Result EvidenceError (Unit {0})
check_operation_evidence e =
    if e.operation_available
    then fail_if
        (not e.protocol_available
          || is_empty e.service
          || not (valid_evidence_operation e.operation)
          || not (is_validated e.operation_certainty))
        not_validated
    else fail_if (not (is_empty e.operation) || is_certain e.operation_certainty)
        operation_not_empty

-- `Validate`.
unfoldable pub validate_evidence : DecodeFailureEvidence → Result EvidenceError (Unit {0})
validate_evidence e = do
  fail_if (not (is_empty e.service) && not (valid_evidence_service e.service)) bad_evidence_service
  check_protocol_evidence e
  check_operation_evidence e

unfoldable pub has_protocol : DecodeFailureEvidence → Bool
has_protocol e = e.protocol_available && protocol_supported e.protocol

unfoldable pub has_operation : DecodeFailureEvidence → Bool
has_operation e = e.operation_available && valid_evidence_operation e.operation

-- The errors that a decoder returns: other errors, errors that wrap one, and `DecodeFailureError`.
pub data GoError : Type 0 where
  plain : Bytes → GoError
  wrapped : Bytes → GoError → GoError
  decode_failure : DecodeFailureEvidence → GoError → GoError

abbrev pub unknown_evidence : DecodeFailureEvidence
unknown_evidence = record {
  service = [];
  protocol = other_protocol [];
  protocol_available = false;
  protocol_certainty = unknown;
  operation = [];
  operation_available = false;
  operation_certainty = unknown;
}

abbrev pub is_no_certainty : EvidenceCertainty → Bool
is_no_certainty no_certainty = true
is_no_certainty _ = false

-- The two assignments at the start of `NewDecodeFailureError`.
unfoldable pub name_unknown : DecodeFailureEvidence → DecodeFailureEvidence
name_unknown e = record e {
  protocol_certainty =
      if not e.protocol_available && is_no_certainty e.protocol_certainty
      then unknown
      else e.protocol_certainty;
  operation_certainty =
      if not e.operation_available && is_no_certainty e.operation_certainty
      then unknown
      else e.operation_certainty;
}

unfoldable pub new_decode_failure_error : DecodeFailureEvidence → Option GoError → Option GoError
new_decode_failure_error evidence none = none
new_decode_failure_error evidence (some cause) =
    let e = name_unknown evidence in
    some (decode_failure (if is_ok (validate_evidence e) then e else unknown_evidence) cause)

-- `errors.As` to a `DecodeFailureError`.
unfoldable pub first_failure : GoError → Option DecodeFailureEvidence
first_failure (plain s) = none
first_failure (wrapped s cause) = first_failure cause
first_failure (decode_failure e cause) = some e

abbrev pub if_valid : Option DecodeFailureEvidence → Option DecodeFailureEvidence
if_valid none = none
if_valid (some e) = if is_ok (validate_evidence e) then some e else none

-- `DecodeFailureEvidenceFromError`.
unfoldable pub evidence_from_error : Option GoError → Option DecodeFailureEvidence
evidence_from_error none = none
evidence_from_error (some e) = if_valid (first_failure e)

unfoldable pub conflict : DecodeFailureEvidence → DecodeFailureEvidence → Bool
conflict existing evidence =
    (not (is_empty existing.service)
      && not (is_empty evidence.service)
      && not (bytes_eq existing.service evidence.service))
    || (existing.protocol_available
        && evidence.protocol_available
        && not (bytes_eq (protocol_text existing.protocol) (protocol_text evidence.protocol)))
    || (existing.operation_available
        && evidence.operation_available
        && not (bytes_eq existing.operation evidence.operation))

-- The three assignments to `existing`.
abbrev pub merge_service : DecodeFailureEvidence → DecodeFailureEvidence → DecodeFailureEvidence
merge_service existing evidence =
    if is_empty existing.service then record existing { service = evidence.service } else existing

abbrev pub merge_protocol : DecodeFailureEvidence → DecodeFailureEvidence → DecodeFailureEvidence
merge_protocol existing evidence =
    if not existing.protocol_available && evidence.protocol_available
    then record existing {
      protocol = evidence.protocol;
      protocol_available = true;
      protocol_certainty = evidence.protocol_certainty;
    }
    else existing

abbrev pub merge_operation : DecodeFailureEvidence → DecodeFailureEvidence → DecodeFailureEvidence
merge_operation existing evidence =
    if not existing.operation_available && evidence.operation_available
    then record existing {
      operation = evidence.operation;
      operation_available = true;
      operation_certainty = evidence.operation_certainty;
    }
    else existing

unfoldable pub merge : DecodeFailureEvidence → DecodeFailureEvidence → DecodeFailureEvidence
merge existing evidence =
    merge_operation (merge_protocol (merge_service existing evidence) evidence) evidence

-- `AttachDecodeFailureEvidence`.
unfoldable pub attach_evidence : Option GoError → DecodeFailureEvidence → Option GoError
attach_evidence none evidence = none
attach_evidence (some e) evidence =
    if not (is_ok (validate_evidence evidence))
    then some e
    else elim (evidence_from_error (some e)) [
      | none ↦ new_decode_failure_error evidence (some e)
      | some existing ↦
          if conflict existing evidence
          then new_decode_failure_error unknown_evidence (some e)
          else new_decode_failure_error (merge existing evidence) (some e)
    ]
