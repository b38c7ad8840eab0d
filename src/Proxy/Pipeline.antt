-- ===== src/Proxy/Pipeline.antt =====
-- internal/proxy/server.go: handlePipeline, stage by stage, from the last to the first.
use kordn.Base.{
  List, [], Bool, not, ◌&&◌, Option, none, some, Bytes, codes, if◌then◌else◌, bytes_eq, Result, ok,
  err, is_ok,
}
use kordn.AwsRequest.Endpoint.{AwsEndpoint, endpoint_identity_equal}
use kordn.AwsRequest.Evidence.{GoError}
use kordn.AwsRequest.Request.{DecodedAwsRequest, validate_request, request_endpoint}
use kordn.AwsRequest.Mapping.{MappingResult, validate_mapping}
use kordn.AwsRequest.Verified.{VerifiedRequest, validate_verified}
use kordn.AwsError.Reason.{unknown_operation, mapping_low_confidence, invalid_inbound_signature}
use kordn.Policy.Decision.{Decision, DecisionInput, validate_input, decision_valid}
use kordn.Sigv4.Request.{Code}
use kordn.Proxy.Server.{
  Server, State, observed, closed, MapFault, emit, count, map_reason, verify_reason,
}
use kordn.Proxy.Replies.{finish_authentication_failure, finish_failed_pipeline, run_of}
use kordn.Proxy.Failures.{failure_decoded, safe_decode_failure_evidence, fail_closed}
use kordn.Proxy.Lookups.{
  mapping_cache_key, decision_cache_key, add_decision, cached_decision, add_mapping, cached_mapping,
}
use kordn.Proxy.Forwarding.{internal, after_decision}
pub mod Safety
pub mod Watch
pub mod Stages
pub mod Caching
pub mod Decided
pub mod Sending
pub mod Deciding
pub mod Mapped
pub mod Verified
pub mod Coherent
pub mod Enforced
pub mod Secured

abbrev pub Mapper : Type 0
Mapper = DecodedAwsRequest → Result (List MapFault) (Option MappingResult)

module _ {R : Type 0} (srv : Server R) where
  -- `safeEvaluate`, and the replacement of a decision that is not valid.
  unfoldable pub evaluate_policy :
      (DecisionInput → Option Decision) → DecisionInput → Bytes → State R → Decision × State R
  evaluate_policy policy input key st =
      let st' = emit (observed (codes "policy_latency_ms")) st in
      elim (policy input) [
        | none ↦ (fail_closed internal, add_decision srv key (fail_closed internal) st')
        | some decision ↦
            if decision_valid decision
            then (decision, add_decision srv key decision st')
            else (fail_closed internal, st')
      ]

  unfoldable pub decide :
      (DecisionInput → Option Decision)
      → DecisionInput
      → Bytes
      → Option Decision × State R
      → Decision × State R
  decide policy input key (some decision, st) = (decision, st)
  decide policy input key (none, st) = evaluate_policy policy input key st

  abbrev pub input_of : AwsEndpoint → DecodedAwsRequest → MappingResult → DecisionInput
  input_of endpoint d m = record {
    run_id = run_of srv.run_id;
    endpoint = endpoint;
    request = some d;
    mapping = some m;
    policy_hash = srv.policy_hash;
    mapper_version = m.mapper_version;
  }

  -- From the mapping to the decision.
  unfoldable pub after_mapping :
      AwsEndpoint → VerifiedRequest R → DecodedAwsRequest → MappingResult → State R → State R
  after_mapping endpoint v d m st = elim srv.policy [
    | none ↦ finish_failed_pipeline srv endpoint internal (codes "policy") d st
    | some policy ↦
        if not (is_ok (validate_input (input_of endpoint d m)))
        then finish_failed_pipeline srv endpoint internal (codes "policy") d st
        else (let key = decision_cache_key srv endpoint d m in
            let (decision, st') =
              decide policy (input_of endpoint d m) key (cached_decision srv key st) in
            after_decision srv endpoint v d m decision st')
  ]

  abbrev pub maps_request : DecodedAwsRequest → MappingResult → Bool
  maps_request d m =
      is_ok (validate_mapping m) && bytes_eq m.service d.service && bytes_eq m.operation d.operation

  -- The checks of a mapping, from the cache or from the mapper.
  unfoldable pub check_mapping :
      AwsEndpoint
      → VerifiedRequest R
      → DecodedAwsRequest
      → Bytes
      → Result (List MapFault) (Option MappingResult) × State R
      → State R
  check_mapping endpoint v d key (err faults, st) =
      finish_failed_pipeline srv endpoint (map_reason faults) (codes "map") d st
  check_mapping endpoint v d key (ok none, st) =
      finish_failed_pipeline srv endpoint (map_reason []) (codes "map") d st
  check_mapping endpoint v d key (ok (some m), st) =
      if not (maps_request d m)
      then finish_failed_pipeline srv endpoint mapping_low_confidence (codes "map") d st
      else after_mapping endpoint v d m (add_mapping srv key m st)

  unfoldable pub find_mapping :
      (DecodedAwsRequest → Result (List MapFault) (Option MappingResult))
      → DecodedAwsRequest
      → Option MappingResult × State R
      → Result (List MapFault) (Option MappingResult) × State R
  find_mapping mapper d (some m, st) = (ok (some m), st)
  find_mapping mapper d (none, st) = (mapper d, emit (observed (codes "map_latency_ms")) st)

  -- From the decoded request to its mapping.
  unfoldable pub after_decode :
      AwsEndpoint → VerifiedRequest R → DecodedAwsRequest → State R → State R
  after_decode endpoint v d st = elim srv.mapper [
    | none ↦ finish_failed_pipeline srv endpoint internal (codes "map") d st
    | some mapper ↦
        let key = mapping_cache_key srv endpoint d in
        check_mapping endpoint v d key (find_mapping mapper d (cached_mapping srv key st))
  ]

  -- `decoded.Validate()`, and the comparison of its endpoint.
  abbrev pub decodes_at : AwsEndpoint → DecodedAwsRequest → Bool
  decodes_at endpoint d =
      is_ok (validate_request d) && endpoint_identity_equal (request_endpoint d) endpoint

  unfoldable pub check_decoded :
      R
      → AwsEndpoint
      → VerifiedRequest R
      → Result GoError (Option DecodedAwsRequest)
      → State R
      → State R
  check_decoded req endpoint v (err e) st =
      finish_failed_pipeline srv endpoint unknown_operation (codes "decode")
        (failure_decoded (srv.method_of req) endpoint
          (safe_decode_failure_evidence (some e) endpoint v.protocol))
        st
  check_decoded req endpoint v (ok none) st =
      finish_failed_pipeline srv endpoint unknown_operation (codes "decode")
        (failure_decoded (srv.method_of req) endpoint none) st
  check_decoded req endpoint v (ok (some d)) st =
      if not (decodes_at endpoint d)
      then finish_failed_pipeline srv endpoint internal (codes "decode")
          (failure_decoded (srv.method_of req) endpoint none) st
      else after_decode endpoint v d st

  -- From the verified request on.
  unfoldable pub after_verify : R → AwsEndpoint → VerifiedRequest R → State R → State R
  after_verify req endpoint v st = elim srv.decoder [
    | none ↦
        finish_failed_pipeline srv endpoint internal (codes "decode")
          (failure_decoded (srv.method_of req) endpoint none) st
    | some decode ↦
        check_decoded req endpoint v (decode v endpoint)
          (emit (observed (codes "decode_latency_ms")) st)
  ]

  abbrev pub is_verified : AwsEndpoint → VerifiedRequest R → Bool
  is_verified endpoint v =
      is_ok (validate_verified v) && endpoint_identity_equal v.endpoint endpoint

  -- The answer of the authenticator. The body is closed when the rest has returned.
  unfoldable pub check_verified :
      R → AwsEndpoint → Result (Option Code) (Option (VerifiedRequest R)) → State R → State R
  check_verified req endpoint (err code) st =
      finish_authentication_failure srv endpoint (verify_reason code) st
  check_verified req endpoint (ok none) st =
      finish_authentication_failure srv endpoint invalid_inbound_signature st
  check_verified req endpoint (ok (some v)) st =
      if not (is_verified endpoint v)
      then finish_authentication_failure srv endpoint invalid_inbound_signature st
      else emit (closed v.request) (after_verify req endpoint v st)

  unfoldable pub run_pipeline : R → AwsEndpoint → State R → State R
  run_pipeline req endpoint st = elim srv.authenticator [
    | none ↦ finish_authentication_failure srv endpoint internal st
    | some verify ↦ check_verified req endpoint (verify req endpoint) st
  ]

  -- `handlePipeline`; the latency is observed when the handler returns.
  unfoldable pub handle_pipeline : R → AwsEndpoint → State R → State R
  handle_pipeline req endpoint st =
      emit (observed (codes "local_latency_ms"))
        (run_pipeline req endpoint (count (codes "requests_intercepted") st))
