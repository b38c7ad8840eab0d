-- ===== src/AwsError/Reason.antt =====
-- internal/awserror/reasons.go: the closed set of reasons.
use kordn.Base.{List, [], ◌∷◌, Bool, true, false, Bytes, codes, if◌then◌else◌, bytes_eq}

-- `ReasonCode` is a string type; `other_reason` holds a text that is none of the constants.
pub data ReasonCode : Type 0 where
  explicit_deny policy_no_matching_allow aws_required_wildcard_not_approved : ReasonCode
  unknown_endpoint unsupported_partition unknown_operation mapping_low_confidence : ReasonCode
  resource_unresolved dependent_permission_unresolved invalid_inbound_signature : ReasonCode
  unsupported_signing_scheme unsupported_payload_mode request_too_large : ReasonCode
  audit_unavailable upstream_credential_unavailable upstream_transport_error : ReasonCode
  internal_fail_closed all_requirements_allowed : ReasonCode
  other_reason : Bytes → ReasonCode

-- The text of a reason.
unfoldable pub text : ReasonCode → Bytes
text explicit_deny = codes "explicit_deny"
text policy_no_matching_allow = codes "policy_no_matching_allow"
text aws_required_wildcard_not_approved = codes "aws_required_wildcard_not_approved"
text unknown_endpoint = codes "unknown_endpoint"
text unsupported_partition = codes "unsupported_partition"
text unknown_operation = codes "unknown_operation"
text mapping_low_confidence = codes "mapping_low_confidence"
text resource_unresolved = codes "resource_unresolved"
text dependent_permission_unresolved = codes "dependent_permission_unresolved"
text invalid_inbound_signature = codes "invalid_inbound_signature"
text unsupported_signing_scheme = codes "unsupported_signing_scheme"
text unsupported_payload_mode = codes "unsupported_payload_mode"
text request_too_large = codes "request_too_large"
text audit_unavailable = codes "audit_unavailable"
text upstream_credential_unavailable = codes "upstream_credential_unavailable"
text upstream_transport_error = codes "upstream_transport_error"
text internal_fail_closed = codes "internal_fail_closed"
text all_requirements_allowed = codes "all_requirements_allowed"
text (other_reason s) = s

-- `allReasonCodes`.
unfoldable pub all_reason_codes : List ReasonCode
all_reason_codes =
    explicit_deny ∷ policy_no_matching_allow ∷ aws_required_wildcard_not_approved ∷ unknown_endpoint
    ∷ unsupported_partition ∷ unknown_operation ∷ mapping_low_confidence ∷ resource_unresolved
    ∷ dependent_permission_unresolved ∷ invalid_inbound_signature ∷ unsupported_signing_scheme
    ∷ unsupported_payload_mode ∷ request_too_large ∷ audit_unavailable
    ∷ upstream_credential_unavailable ∷ upstream_transport_error ∷ internal_fail_closed
    ∷ all_requirements_allowed ∷ []

unfoldable pub reason_in : List ReasonCode → ReasonCode → Bool
reason_in [] r = false
reason_in (candidate ∷ candidates) r =
    if bytes_eq (text r) (text candidate) then true else reason_in candidates r

-- `Valid`: the reason is one of the constants.
unfoldable pub reason_valid : ReasonCode → Bool
reason_valid r = reason_in all_reason_codes r

abbrev pub is_allowed : ReasonCode → Bool
is_allowed r = bytes_eq (text r) (text all_requirements_allowed)
