-- ===== src/Proxy/Server.antt =====
-- internal/proxy/server.go: the parts of the server that the pipeline calls, and what a request does.
use kordn.Base.{
  ℕ, ◌+◌, List, [], ◌∷◌, ◌++◌, Bool, true, false, ◌||◌, Option, some, Bytes, codes, map, any, ◌==◌,
  if◌then◌else◌, is_alnum, Result, runes,
}
use kordn.AwsRequest.Endpoint.{AwsEndpoint}
use kordn.AwsRequest.Evidence.{GoError}
use kordn.AwsRequest.Request.{DecodedAwsRequest}
use kordn.AwsRequest.Mapping.{MappingResult}
use kordn.AwsRequest.Verified.{VerifiedRequest}
use kordn.AwsError.Reason.{
  ReasonCode, mapping_low_confidence, resource_unresolved, dependent_permission_unresolved,
  invalid_inbound_signature, unsupported_signing_scheme, unsupported_payload_mode,
  request_too_large,
}
use kordn.AwsError.Denial.{Body, Response}
use kordn.Policy.Decision.{Decision, DecisionInput}
use kordn.Cache.Lru.{Lru}
use kordn.Sigv4.Request.{Code, unsupported_signing, unsupported_payload, oversized_body}
use kordn.Audit.Event.{Event}
use kordn.Audit.Redact.{ResourceMode}

-- What is written to the client: a denial, a plain error, or the upstream's response.
pub data Reply : Type 0 where
  denial : Response → Reply
  plain_error upstream_status : ℕ → Reply

-- `R` is the type of requests. What a request makes the server do, besides its caches: metrics, whose
-- amounts are left out, events given to the audit writer with its answer, a request sent upstream, a
-- body closed, and a reply.
pub data Effect (R : Type 0) : Type 0 where
  counted observed gauged : Bytes → Effect R
  wrote : Event → Bool → Effect R
  forwarded : R → Effect R
  closed : Option R → Effect R
  replied : Reply → Effect R

-- The sentinel errors of a mapper's error chain.
pub data MapFault : Type 0 where
  unresolved_dependency unresolved_primary_resource unknown_wire_operation : MapFault
  ambiguous_wire_operation other_fault : MapFault

pub data AuditFault : Type 0 where
  backpressure write_failed : AuditFault

-- A round trip that gives no response, with an error or without one; `canceled` holds for a
-- cancellation, a deadline or a context that has ended.
pub record UpstreamFault : Type 0 where
  pub canceled : Bool

-- The configuration, with the parts that a handler calls; a part that is nil is `none`. The writer of
-- the audit log answers from all that has happened, newest first. `marshal` and the three texts of
-- keys are the encodings of JSON; `digest` is SHA-256 in hexadecimal.
-- The three versions are the configuration's, or else the mapper's.
pub record Server (R : Type 0) : Type 0 where
  pub run_id : Bytes
  pub policy_hash : Bytes
  pub mode : ResourceMode
  pub authenticator : Option (R → AwsEndpoint → Result (Option Code) (Option (VerifiedRequest R)))
  pub decoder : Option (VerifiedRequest R → AwsEndpoint → Result GoError (Option DecodedAwsRequest))
  pub mapper : Option (DecodedAwsRequest → Result (List MapFault) (Option MappingResult))
  pub policy : Option (DecisionInput → Option Decision)
  pub audit : Option (List (Effect R) → Event → Result AuditFault (Unit {0}))
  pub audit_failed : List (Effect R) → Bool
  pub has_queue : Bool
  pub resigner : Option (R → AwsEndpoint → Option R)
  pub upstream : Option (R → Result UpstreamFault ℕ)
  pub method_of : R → Bytes
  pub is_spooled : R → Bool
  pub new_id : ℕ → Bytes
  pub hmac_sha256 : Bytes → Bytes → Bytes
  pub marshal : Body → Option Bytes
  pub digest : Bytes → Bytes
  pub request_text : DecodedAwsRequest → Bytes
  pub policy_request_text : DecodedAwsRequest → Bytes
  pub metadata_text : MappingResult → Bytes
  pub mapper_version : Bytes
  pub adapter_version : Bytes
  pub data_version : Bytes

-- The caches of the run, the identifiers that were made, and the effects, newest first.
pub record State (R : Type 0) : Type 0 where
  pub caches : Option (Lru Bytes MappingResult × Lru Bytes Decision)
  pub ids : ℕ
  pub effects : List (Effect R)

module _ {R : Type 0} where
  abbrev pub emit : Effect R → State R → State R
  emit e st = record st { effects = e ∷ st.effects }

  abbrev pub count : Bytes → State R → State R
  count label st = emit (counted label) st

  abbrev pub take_ids : ℕ → State R → State R
  take_ids n st = record st { ids = st.ids + n }

-- A byte that a metric's label keeps.
abbrev pub is_label_byte : ℕ → Bool
is_label_byte c = is_alnum c || c == b'_' || c == b'-'

abbrev pub label_byte : ℕ → ℕ
label_byte c = if is_label_byte c then c else b'_'

-- `safeMetricLabel`, rune by rune.
unfoldable pub safe_metric_label : Bytes → Bytes
safe_metric_label [] = codes "unknown"
safe_metric_label (c ∷ s) = map (λ r. label_byte r.value) (runes (c ∷ s))

-- `safeLabel`, byte by byte.
unfoldable pub safe_label : Bytes → Bytes
safe_label [] = codes "unknown"
safe_label (c ∷ s) = map label_byte (c ∷ s)

-- `DecisionCounter`.
abbrev pub decision_counter : Bytes → Bytes → Bytes → Bytes
decision_counter service operation reason =
    codes "decision."
    ++ (safe_label service ++ (b'.' ∷ (safe_label operation ++ (b'.' ∷ safe_label reason))))

-- `errors.Is` along a chain.
abbrev pub is_dependency : MapFault → Bool
is_dependency unresolved_dependency = true
is_dependency _ = false

abbrev pub is_primary : MapFault → Bool
is_primary unresolved_primary_resource = true
is_primary _ = false

abbrev pub is_wire : MapFault → Bool
is_wire unknown_wire_operation = true
is_wire ambiguous_wire_operation = true
is_wire _ = false

-- `mapReason`; the chain of no error is empty.
unfoldable pub map_reason : List MapFault → ReasonCode
map_reason chain =
    if any is_dependency chain
    then dependent_permission_unresolved
    else if any is_primary chain
    then resource_unresolved
    else if any is_wire chain
    then ReasonCode.unknown_operation
    else mapping_low_confidence

-- `verifyReason`, of the code of an error that has one.
unfoldable pub verify_reason : Option Code → ReasonCode
verify_reason (some unsupported_signing) = unsupported_signing_scheme
verify_reason (some unsupported_payload) = unsupported_payload_mode
verify_reason (some oversized_body) = request_too_large
verify_reason _ = invalid_inbound_signature
