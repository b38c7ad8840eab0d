-- ===== src/Proxy/Replies.antt =====
-- internal/proxy/server.go: audit events, denials, and how a pipeline that fails ends.
use kordn.Base.{
  ℕ, ◌+◌, [], ◌∷◌, ◌++◌, Bool, true, false, ◌&&◌, Option, none, some, Bytes, codes, length,
  replicate, ◌==◌, if◌then◌else◌, has_prefix, ok, err,
}
use kordn.AwsRequest.Endpoint.{AwsEndpoint}
use kordn.AwsRequest.Protocol.{AwsProtocol}
use kordn.AwsRequest.Request.{DecodedAwsRequest}
use kordn.AwsRequest.Mapping.{MappingResult}
use kordn.AwsError.Reason.{
  ReasonCode, text, audit_unavailable, invalid_inbound_signature, other_reason,
}
use kordn.AwsError.Denial.{Denial, Response, encode, local_deny}
use kordn.Policy.Decision.{Decision, DecisionResult}
use kordn.Audit.Event.{Event, EventType, RequestInfo, new_event}
use kordn.Audit.Redact.{requirements_for_run}
use kordn.Proxy.Server.{
  Server, State, gauged, wrote, replied, Reply, denial, plain_error, AuditFault, backpressure,
  write_failed, emit, count, take_ids, safe_metric_label,
}
use kordn.Proxy.Failures.{or_text, failure_mapping, fail_closed}
pub mod Recorded
pub mod Events

-- `validPolicyHash`.
unfoldable pub valid_policy_hash : Bytes → Bytes
valid_policy_hash value =
    if length value == 71 && has_prefix value (codes "sha256:")
    then value
    else codes "sha256:" ++ replicate 64 b'0'

unfoldable pub result_text : DecisionResult → Bytes
result_text DecisionResult.allow = codes "allow"
result_text DecisionResult.deny = codes "deny"
result_text (DecisionResult.other_result s) = s

abbrev pub request_info : DecodedAwsRequest → RequestInfo
request_info d = record {
  host = d.endpoint_host;
  partition = d.partition;
  service = d.service;
  operation = d.operation;
  region = d.region;
  protocol = d.protocol;
  method = d.method;
  payload_negative = d.payload_negative;
}

-- The run that a handler names.
abbrev pub run_of : Bytes → Bytes
run_of run_id = or_text run_id (codes "run-unknown")

-- What the reply names: the decoded request, or the request of the client.
pub data Subject : Type 0 where
  of_decoded : DecodedAwsRequest → Subject
  of_request : Subject

unfoldable pub subject_service : AwsEndpoint → Subject → Bytes
subject_service endpoint (of_decoded d) = d.service
subject_service endpoint of_request = endpoint.service

unfoldable pub subject_operation : Subject → Bytes
subject_operation (of_decoded d) = d.operation
subject_operation of_request = codes "Unknown"

unfoldable pub subject_protocol : Subject → AwsProtocol
subject_protocol (of_decoded d) = d.protocol
subject_protocol of_request = AwsProtocol.json11

abbrev pub denial_of : AwsEndpoint → Subject → ReasonCode → Bytes → Denial
denial_of endpoint subject reason id = record {
  service = subject_service endpoint subject;
  operation = subject_operation subject;
  reason_code = reason;
  reason = other_reason [];
  event_id = id;
  request_id = [];
  classification = local_deny;
  upstream_response = none;
}

abbrev pub reply_of : Option Response → Reply
reply_of none = plain_error 403
reply_of (some r) = denial r

module _ {R : Type 0} (srv : Server R) where
  -- `decisionEvent`. NewEvent makes an identifier, which `id` replaces; the next one is the
  -- connection's.
  unfoldable pub decision_event : ℕ → Bytes → DecodedAwsRequest → MappingResult → Decision → Event
  decision_event ids id d m decision =
      record (new_event (run_of srv.run_id) id EventType.request_decision) {
        connection_id = srv.new_id (ids + 1);
        request = some (request_info d);
        iam_requirements =
            some (requirements_for_run srv.hmac_sha256 (run_of srv.run_id) srv.mode m.requirements);
        mapping = some (record {
          confidence = m.confidence;
          mapper_version = m.mapper_version;
          iam_live_version = m.iam_live_version;
          authorization_data_version = m.authorization_data_version;
        });
        decision = some (record {
          result = result_text decision.result;
          reason_code = text decision.reason_code;
          matched_rule_ids = decision.matched_rule_ids;
          policy_hash = valid_policy_hash srv.policy_hash;
        });
        timing = true;
      }

  -- `forwardEvent`.
  unfoldable pub forward_event : ℕ → DecodedAwsRequest → Event
  forward_event ids d =
      record (new_event (run_of srv.run_id) (srv.new_id ids) EventType.forward_error) {
        connection_id = srv.new_id (ids + 1);
        request = some (request_info d);
        error_code = codes "upstream_transport_error";
      }

  unfoldable pub authentication_event : ℕ → ReasonCode → Event
  authentication_event ids code =
      record (new_event (run_of srv.run_id) (srv.new_id ids) EventType.authentication_failed) {
        connection_id = srv.new_id (ids + 1);
        error_code = text code;
      }

  abbrev pub gauge_queue : State R → State R
  gauge_queue st = if srv.has_queue then emit (gauged (codes "audit_queue_depth")) st else st

  abbrev pub audit_fault : AuditFault → State R → State R
  audit_fault backpressure st = count (codes "audit_backpressure") st
  audit_fault write_failed st = st

  -- `acceptAudit`: whether the writer accepts the event.
  unfoldable pub accept_audit : Event → State R → Bool × State R
  accept_audit e st = elim srv.audit [
    | none ↦ (false, count (codes "audit_writer_failures") st)
    | some write ↦ elim (write st.effects e) [
      | ok _ ↦ (true, gauge_queue (emit (wrote e true) st))
      | err fault ↦ (
        false,
        gauge_queue
            (audit_fault fault (count (codes "audit_writer_failures") (emit (wrote e false) st))),
      )
    ]
  ]

  -- `respondPipelineDeny`.
  unfoldable pub respond_pipeline_deny :
      AwsEndpoint → Subject → ReasonCode → Bytes → State R → State R
  respond_pipeline_deny endpoint subject reason id st =
      emit
        (replied (
          reply_of
            (encode srv.marshal (subject_protocol subject) (denial_of endpoint subject reason id))))
        st

  -- The write of `finishAuthenticationFailure`.
  unfoldable pub write_authentication_event : ReasonCode → State R → State R
  write_authentication_event code st = elim srv.audit [
    | none ↦ st
    | some write ↦
        let e = authentication_event st.ids code in
        elim (write st.effects e) [
          | ok _ ↦ take_ids 2 (emit (wrote e true) st)
          | err _ ↦ take_ids 2 (count (codes "audit_writer_failures") (emit (wrote e false) st))
        ]
  ]

  -- `finishAuthenticationFailure`.
  unfoldable pub finish_authentication_failure : AwsEndpoint → ReasonCode → State R → State R
  finish_authentication_failure endpoint code st =
      let counted_st = count (codes "auth.failure." ++ safe_metric_label (text code)) st in
      let written =
        count (codes "authentication_failures") (write_authentication_event code counted_st) in
      respond_pipeline_deny endpoint of_request invalid_inbound_signature (srv.new_id written.ids)
        (take_ids 1 written)

  -- The end of `finishFailedPipeline`, with the answer of the audit writer.
  unfoldable pub answer_failure :
      AwsEndpoint → DecodedAwsRequest → ReasonCode → Bytes → Bool × State R → State R
  answer_failure endpoint d reason id (false, st) =
      respond_pipeline_deny endpoint (of_decoded d) audit_unavailable id st
  answer_failure endpoint d reason id (true, st) =
      respond_pipeline_deny endpoint (of_decoded d) reason id (count (codes "requests_denied") st)

  -- `finishFailedPipeline`, for the request that is named.
  unfoldable pub finish_failed_pipeline :
      AwsEndpoint → ReasonCode → Bytes → DecodedAwsRequest → State R → State R
  finish_failed_pipeline endpoint reason stage d st =
      let label =
        codes "pipeline."
        ++ (safe_metric_label stage ++ (b'.' ∷ safe_metric_label (text reason))) in
      let e =
        decision_event (st.ids + 1) (srv.new_id st.ids) d (failure_mapping d stage)
          (fail_closed reason) in
      answer_failure endpoint d reason (srv.new_id st.ids)
        (accept_audit e (take_ids 3 (count label st)))
