-- ===== src/AwsRequest/Evidence/Valid.antt =====
-- Errors carry only evidence that validates.
use kordn.Base.{Bool, true, some, ◌≡◌, refl, arith, is_ok}
use kordn.AwsRequest.Protocol.{protocol_text}
use kordn.AwsRequest.Evidence.{
  DecodeFailureEvidence, GoError, check_protocol_evidence, check_operation_evidence,
  validate_evidence, unknown_evidence, name_unknown, new_decode_failure_error, first_failure,
  evidence_from_error,
}

abbrev pub is_valid : DecodeFailureEvidence → Bool
is_valid e = is_ok (validate_evidence e)

pub unknown_evidence-valid : is_valid unknown_evidence ≡ true
unfolding validate_evidence check_protocol_evidence check_operation_evidence protocol_text
unknown_evidence-valid = refl

-- To name an unknown certainty keeps evidence valid.
pub name_unknown-valid :
    (e : DecodeFailureEvidence) → is_valid e ≡ true → is_valid (name_unknown e) ≡ true
unfolding validate_evidence check_protocol_evidence check_operation_evidence name_unknown
name_unknown-valid e h = ground arith

pub evidence-new_valid :
    (e : DecodeFailureEvidence) (cause : GoError)
    → is_valid e ≡ true
    → evidence_from_error (new_decode_failure_error e (some cause)) ≡ some (name_unknown e)
unfolding new_decode_failure_error evidence_from_error first_failure
evidence-new_valid e cause h = ground (arith, name_unknown-valid e h)
