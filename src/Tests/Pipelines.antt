-- ===== src/Tests/Pipelines.antt =====
-- The pipeline of a server whose parts are written down.
use kordn.Base.{
  Result, Option, Bytes, ℕ, suc, ◌≡◌, refl, [], ◌∷◌, true, false, none, some, codes, replicate, ok,
  err, List, map, ◌++◌,
}
use kordn.AwsRequest.Protocol.{AwsProtocol, SigningScheme, PayloadHashMode}
use kordn.AwsRequest.Verified.{VerifiedRequest, check_endpoint, validate_verified}
use kordn.AwsError.Reason.{all_requirements_allowed}
use kordn.AwsRequest.Mapping.{IamRequirement, validate_mapping}
use kordn.AwsRequest.Request.{validate_request}
use kordn.Policy.Decision.{Decision, DecisionResult, decision_valid}
use kordn.Tests.Program.{engines, wires, caches}
use kordn.Tests.Engines.{endpoint, request, mapping}
use kordn.Sigv4.Request.{Code}
use kordn.AwsRequest.Endpoint.{AwsEndpoint}
use kordn.Proxy.Server.{Server, State, write_failed}
use kordn.Proxy.Replies.Events.{validate_event-decision_event}
use kordn.Proxy.Pipeline.Stages.{AllSent, replies, sent_of}
use kordn.Proxy.Pipeline.Safety.{IsGranted, handle_pipeline-AllSent, replies-handle_pipeline}
use kordn.Sigv4.Header.{is_lower_hex}
use kordn.Audit.Event.{new_event}
use kordn.Audit.Validation.{
  valid_hash, validate_root, validate_audit_requirement, validate_audit_requirements,
  validate_request_info, validate_decision_info, validate_run_started, validate_run_ended,
  validate_request_decision, validate_forward_error, validate_proxy_event, validate_failure_event,
  validate_type, validate_event,
}
use kordn.Audit.Redact.{hash_resource_for_run, redact_for_run, requirements, requirements_for_run}
use kordn.Audit.Redact.Hidden.{hide, requirements_for_run-hide}
use kordn.Proxy.Server.{safe_metric_label, safe_label, map_reason, verify_reason}
use kordn.Proxy.Failures.{
  safe_decode_failure_evidence, usable_evidence, failure_protocol, failure_operation,
  failure_decoded, failure_mapping,
}
use kordn.Proxy.Replies.{
  valid_policy_hash, result_text, subject_service, subject_operation, subject_protocol,
  decision_event, forward_event, authentication_event, accept_audit, respond_pipeline_deny,
  write_authentication_event, finish_authentication_failure, answer_failure, finish_failed_pipeline,
}
use kordn.Proxy.Lookups.{
  mapping_cache_key, decision_cache_key, add_decision, cached_decision, add_mapping, cached_mapping,
}
use kordn.Proxy.Forwarding.{
  status_class, upstream_failed, upstream_answered, round_trip, sign_and_send, forward, after_audit,
  after_decision,
}
use kordn.Proxy.Pipeline.{
  evaluate_policy, decide, after_mapping, check_mapping, find_mapping, after_decode, check_decoded,
  after_verify, check_verified, run_pipeline, handle_pipeline,
}

unfoldable pub pipelines : Unit {0}
unfolding is_lower_hex check_endpoint validate_verified wires caches engines new_event valid_hash
    validate_root validate_audit_requirement validate_audit_requirements validate_request_info
    validate_decision_info validate_run_started validate_run_ended validate_request_decision
    validate_forward_error validate_proxy_event validate_failure_event validate_type validate_event
    hash_resource_for_run redact_for_run requirements requirements_for_run safe_metric_label
    safe_label map_reason verify_reason safe_decode_failure_evidence usable_evidence
    failure_protocol failure_operation failure_decoded failure_mapping valid_policy_hash result_text
    subject_service subject_operation subject_protocol decision_event forward_event
    authentication_event accept_audit respond_pipeline_deny write_authentication_event
    finish_authentication_failure answer_failure finish_failed_pipeline mapping_cache_key
    decision_cache_key add_decision cached_decision add_mapping cached_mapping status_class
    upstream_failed upstream_answered round_trip sign_and_send forward after_audit after_decision
    evaluate_policy decide after_mapping check_mapping find_mapping after_decode check_decoded
    after_verify check_verified run_pipeline handle_pipeline
pipelines = tt

-- Requests are numbers; the one signed again is the successor.
abbrev pub verified : ℕ → VerifiedRequest ℕ
verified r = record {
  request = some r;
  endpoint = endpoint;
  protocol = AwsProtocol.json10;
  signing_scheme = SigningScheme.header_v4;
  signing_region = codes "us-east-1";
  signing_service = codes "dynamodb";
  payload_mode = PayloadHashMode.sha256;
}

abbrev pub allowed : Decision
allowed = record {
  result = DecisionResult.allow;
  reason_code = all_requirements_allowed;
  matched_rule_ids = codes "read" ∷ [];
}

abbrev pub table : Bytes
table = codes "arn:aws:dynamodb:us-east-1:123456789012:table/open"

abbrev pub policy_hash : Bytes
policy_hash = codes "sha256:" ++ replicate 64 b'0'

-- A server over requests of any type, with these two parts.
abbrev pub server_with :
    {R : Type 0}
    → (R → AwsEndpoint → Result (Option Code) (Option (VerifiedRequest R)))
    → (R → R)
    → Server R
server_with verify resign = record {
  run_id = codes "r";
  policy_hash = policy_hash;
  mode = record { log_arns = false; hash_names = false };
  authenticator = some verify;
  decoder = some (λ v e. ok (some request));
  mapper = some (λ d. ok (some (mapping table)));
  policy = some (λ input. some allowed);
  audit = some (λ happened e. elim (validate_event e) [ ok _ ↦ ok tt | err _ ↦ err write_failed ]);
  audit_failed = λ happened. false;
  has_queue = true;
  resigner = some (λ r e. some (resign r));
  upstream = some (λ r. ok 200);
  method_of = λ r. codes "POST";
  is_spooled = λ r. false;
  new_id = λ n. codes "evt";
  hmac_sha256 = λ key value. replicate 32 0;
  marshal = λ body. some [];
  digest = λ text. text;
  request_text = λ d. d.operation;
  policy_request_text = λ d. d.method;
  metadata_text = λ m. m.mapper_version;
  mapper_version = codes "1";
  adapter_version = [];
  data_version = [];
}

abbrev pub server : Server ℕ
server = server_with (λ r e. ok (some (verified r))) (λ r. suc r)

abbrev start : State ℕ
start = record { caches = none; ids = 0; effects = [] }

permitted_sends : sent_of (handle_pipeline server 7 endpoint start).effects ≡ 8 ∷ []
unfolding pipelines
permitted_sends = refl

-- Without an audit writer nothing is sent.
unaudited_sends :
    sent_of (handle_pipeline (record server { audit = none }) 7 endpoint start).effects ≡ []
unfolding pipelines
unaudited_sends = refl

handle_pipeline-AllSent_example :
    AllSent (IsGranted server 7 endpoint) (handle_pipeline server 7 endpoint start).effects
handle_pipeline-AllSent_example = handle_pipeline-AllSent server 7 endpoint start tt

replies-handle_pipeline_example : replies (handle_pipeline server 7 endpoint start).effects ≡ 1
replies-handle_pipeline_example = replies-handle_pipeline server 7 endpoint start

abbrev table_requirements : List IamRequirement
table_requirements = (mapping table).requirements

requirements_for_run-hide_example :
    requirements_for_run server.hmac_sha256 (codes "r") server.mode table_requirements
    ≡ requirements_for_run server.hmac_sha256 (codes "r") server.mode (map hide table_requirements)
requirements_for_run-hide_example =
    requirements_for_run-hide server.hmac_sha256 (codes "r") server.mode table_requirements refl
      refl

request_passes : validate_request request ≡ ok tt
unfolding pipelines
request_passes = refl

mapping_passes : validate_mapping (mapping table) ≡ ok tt
unfolding pipelines
mapping_passes = refl

allowed_valid : decision_valid allowed ≡ true
unfolding pipelines
allowed_valid = refl

policy_hash_valid : valid_hash policy_hash ≡ true
unfolding pipelines
policy_hash_valid = refl

validate_event-decision_event_example :
    validate_event (decision_event server 4 (codes "evt_1") request (mapping table) allowed) ≡ ok tt
validate_event-decision_event_example =
    validate_event-decision_event server 4 (codes "evt_1") request (mapping table) allowed
      request_passes mapping_passes refl allowed_valid policy_hash_valid refl refl refl
