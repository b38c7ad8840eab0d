-- ===== src/Proxy/Replies/Events.antt =====
-- internal/proxy/server.go and internal/audit/event.go: the audit log takes the events of decisions.
use kordn.Base.{
  ℕ, ◌+◌, ◌≡◌, refl, List, [], ◌∷◌, Bool, true, false, not, ◌&&◌, Bytes, codes, arith, length, ◌==◌,
  ltb, bytes_eq, is_blank, ok,
}
use kordn.AwsRequest.Endpoint.{is_empty}
use kordn.AwsRequest.Request.{DecodedAwsRequest, validate_request}
use kordn.AwsRequest.Mapping.{
  MappingResult, IamRequirement, validate_mapping, check_requirements, confidence_valid,
}
use kordn.Policy.Decision.{Decision, DecisionResult, decision_valid, result_valid}
use kordn.Audit.Event.{new_event}
use kordn.Audit.Validation.{
  is_listed, valid_hash, validate_audit_requirements, validate_decision_info,
  validate_request_decision, validate_type, validate_event,
}
use kordn.Audit.Redact.{ResourceMode, requirements, requirements_for_run}
use kordn.Proxy.Server.{Server}
use kordn.Proxy.Replies.{decision_event, result_text, valid_policy_hash, run_of}
use kordn.Proxy.Replies.Recorded.{
  is_empty-is_blank, validate_request-request_info, check_requirements-audited, all_listed,
}

-- A text that may name an event or a run.
abbrev pub names_event : Bytes → Bool
names_event s = not (is_empty s) && not (ltb 128 (length s))

record IsAnnotated (m : MappingResult) : Type 0 where
  confidence : confidence_valid m.confidence ≡ true
  version : is_blank m.mapper_version ≡ false
  listed : is_listed m.requirements ≡ true
  checked : check_requirements m.requirements ≡ ok tt

is_listed-length : (rs : List IamRequirement) → (length rs == 0) ≡ false → is_listed rs ≡ true
is_listed-length [] h = absurd (ground arith)
is_listed-length (r ∷ rs) h = refl

validate_mapping-IsAnnotated : (m : MappingResult) → validate_mapping m ≡ ok tt → IsAnnotated m
unfolding validate_mapping
validate_mapping-IsAnnotated m h = record {
  confidence = ground arith;
  version = ground arith;
  listed = is_listed-length m.requirements (ground arith);
  checked = ground arith;
}

is_listed-requirements :
    (hmac_sha256 : Bytes → Bytes → Bytes) (run_id : Bytes) (mode : ResourceMode)
    (rs : List IamRequirement)
    → is_listed rs ≡ true
    → is_listed (requirements_for_run hmac_sha256 run_id mode rs) ≡ true
unfolding requirements_for_run requirements
is_listed-requirements hmac_sha256 run_id mode [] h = h
is_listed-requirements hmac_sha256 run_id mode (r ∷ rs) h = refl

valid_policy_hash-valid_hash : (v : Bytes) → valid_hash v ≡ true → valid_policy_hash v ≡ v
unfolding valid_hash valid_policy_hash
valid_policy_hash-valid_hash v h = ground arith

names_event-parts :
    (s : Bytes) → names_event s ≡ true → (is_empty s ≡ false) × (ltb 128 (length s) ≡ false)
names_event-parts s h = (ground arith, ground arith)

result_text-valid :
    (r : DecisionResult)
    → result_valid r ≡ true
    → (not (bytes_eq (result_text r) (codes "allow"))
        && not (bytes_eq (result_text r) (codes "deny")))
      ≡ false
unfolding result_valid result_text bytes_eq
result_text-valid DecisionResult.allow h = refl
result_text-valid DecisionResult.deny h = refl
result_text-valid (DecisionResult.other_result s) h = absurd (ground arith)

decision_valid-result : (d : Decision) → decision_valid d ≡ true → result_valid d.result ≡ true
unfolding decision_valid
decision_valid-result d h = ground arith

-- The event of a decision passes the Validate of the audit log, if the request and the mapping pass
-- theirs and every requirement lists a resource, the decision is valid, the policy hash is one, and
-- the identifiers of the event, the run and the connection are names of at most 128 bytes.
pub validate_event-decision_event :
    {R : Type 0}
    → (srv : Server R) (ids : ℕ) (id : Bytes) (d : DecodedAwsRequest) (m : MappingResult)
      (decision : Decision)
    → validate_request d ≡ ok tt
    → validate_mapping m ≡ ok tt
    → all_listed m.requirements ≡ true
    → decision_valid decision ≡ true
    → valid_hash srv.policy_hash ≡ true
    → names_event (run_of srv.run_id) ≡ true
    → names_event id ≡ true
    → names_event (srv.new_id (ids + 1)) ≡ true
    → validate_event (decision_event srv ids id d m decision) ≡ ok tt
unfolding decision_event new_event validate_event validate_type validate_request_decision
    validate_decision_info bytes_eq
validate_event-decision_event srv ids id d m decision request mapping listed known hash run name
      connection =
    let m_ok = validate_mapping-IsAnnotated m mapping in
    let (run_set, run_short) = names_event-parts (run_of srv.run_id) run in
    let (id_set, id_short) = names_event-parts id name in
    let (connection_set, _) = names_event-parts (srv.new_id (ids + 1)) connection in
    let redacted =
      requirements_for_run srv.hmac_sha256 (run_of srv.run_id) srv.mode m.requirements in
    let recorded : validate_audit_requirements redacted ≡ ok tt =
      check_requirements-audited srv.hmac_sha256 (run_of srv.run_id) srv.mode m.requirements
        m_ok.checked listed in
    rw
      (
        id_set,
        id_short,
        run_set,
        run_short,
        connection_set,
        is_listed-requirements srv.hmac_sha256 (run_of srv.run_id) srv.mode m.requirements
            m_ok.listed,
        validate_request-request_info d request,
        result_text-valid decision.result (decision_valid-result decision known),
        valid_policy_hash-valid_hash srv.policy_hash hash,
        hash,
        m_ok.confidence,
        is_empty-is_blank m.mapper_version m_ok.version,
        recorded,
      )
      refl
