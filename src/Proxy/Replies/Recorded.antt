-- ===== src/Proxy/Replies/Recorded.antt =====
-- internal/proxy/server.go and internal/audit/event.go: the audit log takes the requests and the
-- requirements that pass their own validation.
use kordn.Base.{
  ℕ, ◌≡◌, ◌∙◌, refl, sym, List, [], ◌∷◌, map, Bool, true, false, not, ◌||◌, some, Bytes, arith,
  length, all, ◌==◌, bytes_eq, is_blank, all_runes, any_rune, any_value, runes_from, to_upper,
  contains, ok, ok_of_chain,
}
use kordn.AwsRequest.Protocol.{protocol_supported}
use kordn.AwsRequest.Endpoint.{is_empty}
use kordn.AwsRequest.Request.{DecodedAwsRequest, methods, validate_request}
use kordn.AwsRequest.Mapping.{IamRequirement, check_requirements, validate_requirement, scope_valid}
use kordn.AwsRequest.Mapping.Scope.{validate_requirement-IsShaped}
use kordn.Audit.Event.{Requirement}
use kordn.Audit.Validation.{
  is_listed, validate_audit_requirement, validate_audit_requirements, validate_request_info,
}
use kordn.Audit.Redact.{
  ResourceMode, hash_resource_for_run, redact_for_run, requirements, requirements_for_run,
}
use kordn.Proxy.Replies.{request_info}

is_empty-∷ : (c : ℕ) (s : Bytes) → is_empty (c ∷ s) ≡ false
is_empty-∷ c s = ground arith

is_blank-[] : is_blank [] ≡ true
unfolding is_blank all_runes any_rune any_value runes_from
is_blank-[] = refl

pub is_empty-is_blank : (s : Bytes) → is_blank s ≡ false → is_empty s ≡ false
is_empty-is_blank [] h = ground (arith, is_blank-[], h)
is_empty-is_blank (c ∷ s) h = is_empty-∷ c s

methods-[] : contains methods (to_upper []) ≡ false
unfolding contains to_upper bytes_eq
methods-[] = refl

is_empty-methods : (s : Bytes) → contains methods (to_upper s) ≡ true → is_empty s ≡ false
is_empty-methods [] h = absurd (ground (arith, sym methods-[] ∙ h))
is_empty-methods (c ∷ s) h = is_empty-∷ c s

or-false : (p q : Bool) → (p || q) ≡ false → (p ≡ false) × (q ≡ false)
or-false p q h = (ground arith, ground arith)

-- What the audit log asks of a request.
record IsInformed (d : DecodedAwsRequest) : Type 0 where
  partition : is_blank d.partition ≡ false
  host : is_blank d.endpoint_host ≡ false
  service : is_blank d.service ≡ false
  operation : is_blank d.operation ≡ false
  protocol : protocol_supported d.protocol ≡ true
  method : contains methods (to_upper d.method) ≡ true
  negative : d.payload_negative ≡ false

validate_request-IsInformed : (d : DecodedAwsRequest) → validate_request d ≡ ok tt → IsInformed d
unfolding validate_request
validate_request-IsInformed d h = record {
  partition = ground arith;
  host = ground arith;
  service = ground arith;
  operation = ground arith;
  protocol = ground arith;
  method = ground arith;
  negative = ground arith;
}

pub validate_request-request_info :
    (d : DecodedAwsRequest)
    → validate_request d ≡ ok tt
    → validate_request_info (some (request_info d)) ≡ ok tt
unfolding validate_request_info
validate_request-request_info d h =
    let i = validate_request-IsInformed d h in
    rw
      (
        i.host,
        is_empty-is_blank d.partition i.partition,
        is_empty-is_blank d.service i.service,
        is_empty-is_blank d.operation i.operation,
        i.protocol,
        is_empty-methods d.method i.method,
        i.negative,
      )
      refl

redact_for_run-filled :
    (hmac_sha256 : Bytes → Bytes → Bytes) (run_id : Bytes) (mode : ResourceMode)
    (r : IamRequirement) (resource : Bytes)
    → not (length resource == 0) ≡ true
    → not (is_empty (redact_for_run hmac_sha256 run_id mode r resource)) ≡ true
unfolding redact_for_run hash_resource_for_run
redact_for_run-filled hmac_sha256 run_id mode r resource h = ground arith

all-redacted :
    (hmac_sha256 : Bytes → Bytes → Bytes) (run_id : Bytes) (mode : ResourceMode)
    (r : IamRequirement) (resources : List Bytes)
    → all (λ s. not (length s == 0)) resources ≡ true
    → all (λ s. not (is_empty s)) (map (redact_for_run hmac_sha256 run_id mode r) resources) ≡ true
all-redacted hmac_sha256 run_id mode r [] h = refl
all-redacted hmac_sha256 run_id mode r (s ∷ resources) h = ground (
  arith,
  redact_for_run-filled hmac_sha256 run_id mode r s (ground arith),
  all-redacted hmac_sha256 run_id mode r resources (ground arith),
)

is_listed-map :
    (f : Bytes → Bytes) (resources : List Bytes)
    → is_listed resources ≡ true
    → is_listed (map f resources) ≡ true
is_listed-map f [] h = h
is_listed-map f (s ∷ resources) h = refl

-- What the audit log asks of a requirement.
record IsRecorded (r : IamRequirement) : Type 0 where
  action : is_blank r.action ≡ false
  scope : scope_valid r.scope_kind ≡ true

validate_requirement-IsRecorded :
    (r : IamRequirement) → validate_requirement r ≡ ok tt → IsRecorded r
unfolding validate_requirement
validate_requirement-IsRecorded r h = record { action = ground arith; scope = ground arith }

abbrev audited : (Bytes → Bytes) → IamRequirement → Requirement
audited redact r = record {
  action = r.action;
  resources = map redact r.resources;
  scope_kind = r.scope_kind;
  dependent = r.dependent;
}

validate_requirement-audited :
    (hmac_sha256 : Bytes → Bytes → Bytes) (run_id : Bytes) (mode : ResourceMode)
    (r : IamRequirement)
    → validate_requirement r ≡ ok tt
    → is_listed r.resources ≡ true
    → validate_audit_requirement (audited (redact_for_run hmac_sha256 run_id mode r) r) ≡ ok tt
unfolding validate_audit_requirement
validate_requirement-audited hmac_sha256 run_id mode r valid listed =
    let recorded = validate_requirement-IsRecorded r valid in
    let shaped = validate_requirement-IsShaped r valid in
    rw
      (
        is_empty-is_blank r.action recorded.action,
        is_listed-map (redact_for_run hmac_sha256 run_id mode r) r.resources listed,
        recorded.scope,
        all-redacted hmac_sha256 run_id mode r r.resources shaped.present,
      )
      refl

-- Every requirement lists a resource.
abbrev pub all_listed : List IamRequirement → Bool
all_listed rs = all (λ r. is_listed r.resources) rs

pub check_requirements-audited :
    (hmac_sha256 : Bytes → Bytes → Bytes) (run_id : Bytes) (mode : ResourceMode)
    (rs : List IamRequirement)
    → check_requirements rs ≡ ok tt
    → all_listed rs ≡ true
    → validate_audit_requirements (requirements_for_run hmac_sha256 run_id mode rs) ≡ ok tt
unfolding check_requirements validate_audit_requirements requirements requirements_for_run
check_requirements-audited hmac_sha256 run_id mode [] h listed = refl
check_requirements-audited hmac_sha256 run_id mode (r ∷ rs) h listed =
    let (_, valid, rest) = ok_of_chain (validate_requirement r) (λ _. check_requirements rs) h in
    let head = validate_requirement-audited hmac_sha256 run_id mode r valid (ground arith) in
    let tail = check_requirements-audited hmac_sha256 run_id mode rs rest (ground arith) in
    rw (head, tail) refl
