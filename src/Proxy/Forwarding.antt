-- ===== src/Proxy/Forwarding.antt =====
-- internal/proxy/server.go: handlePipeline from a decision to the response.
use kordn.Base.{
  ℕ, ◌+◌, ◌++◌, Bool, true, false, not, ◌&&◌, ◌||◌, Option, none, some, Bytes, codes, itoa, ◌==◌,
  leb, ltb, if◌then◌else◌, Result, ok, err,
}
use kordn.AwsRequest.Endpoint.{AwsEndpoint, endpoint_identity_equal}
use kordn.AwsRequest.Request.{DecodedAwsRequest, request_endpoint}
use kordn.AwsRequest.Mapping.{MappingResult}
use kordn.AwsRequest.Verified.{VerifiedRequest}
use kordn.AwsError.Reason.{
  ReasonCode, text, internal_fail_closed, audit_unavailable, upstream_credential_unavailable,
}
use kordn.Policy.Decision.{Decision, DecisionResult}
use kordn.Proxy.Server.{
  Server, State, observed, forwarded, replied, plain_error, upstream_status, UpstreamFault, emit,
  count, take_ids, decision_counter,
}
use kordn.Proxy.Replies.{
  decision_event, forward_event, accept_audit, respond_pipeline_deny, finish_failed_pipeline,
  of_decoded,
}

abbrev pub internal : ReasonCode
internal = internal_fail_closed

abbrev pub is_denial : DecisionResult → Bool
is_denial DecisionResult.deny = true
is_denial _ = false

-- The counter of a class of statuses.
unfoldable pub status_class : ℕ → Option Bytes
status_class status =
    if status == 401 || status == 403
    then some (codes "upstream.401_403")
    else if status == 429
    then some (codes "upstream.429")
    else if leb 400 status && ltb status 500
    then some (codes "upstream.other_4xx")
    else if leb 500 status
    then some (codes "upstream.5xx")
    else none

module _ {R : Type 0} (srv : Server R) where
  -- The end of a handler with no response from upstream.
  unfoldable pub upstream_failed : Bool → DecodedAwsRequest → State R → State R
  upstream_failed canceled d st =
      let kind = if canceled then codes "upstream.cancel" else codes "upstream.transport" in
      let counted_st = count kind (count (codes "upstream_errors") st) in
      let (accepted, st') =
        accept_audit srv (forward_event srv counted_st.ids d) (take_ids 2 counted_st) in
      emit (replied (plain_error 502)) st'

  abbrev pub count_class : Option Bytes → State R → State R
  count_class none st = st
  count_class (some label) st = count label st

  unfoldable pub upstream_answered : ℕ → State R → State R
  upstream_answered status st =
      emit (replied (upstream_status status))
        (count_class (status_class status) (count (codes "upstream.status." ++ itoa status) st))

  -- The request is counted and sent, and the latency observed.
  abbrev pub sent_state : R → State R → State R
  sent_state outgoing st =
      emit (observed (codes "upstream_latency_ms"))
        (emit (forwarded outgoing) (count (codes "requests_allowed") st))

  -- The round trip of a request that is signed again.
  unfoldable pub round_trip :
      (R → Result UpstreamFault ℕ) → DecodedAwsRequest → R → State R → State R
  round_trip send d outgoing st =
      let sent = sent_state outgoing st in
      elim (send outgoing) [
        | err fault ↦ upstream_failed fault.canceled d sent
        | ok status ↦ upstream_answered status sent
      ]

  abbrev pub deny_credentials : AwsEndpoint → DecodedAwsRequest → Bytes → State R → State R
  deny_credentials endpoint d id st =
      respond_pipeline_deny srv endpoint (of_decoded d) upstream_credential_unavailable id
        (count (codes "upstream.credential_failure") st)

  -- The identities of the decoded and of the verified request, compared once more.
  abbrev pub is_bound : AwsEndpoint → VerifiedRequest R → DecodedAwsRequest → Bool
  is_bound endpoint v d =
      endpoint_identity_equal (request_endpoint d) endpoint
      && endpoint_identity_equal v.endpoint endpoint

  abbrev pub resigned : (R → AwsEndpoint → Option R) → VerifiedRequest R → AwsEndpoint → Option R
  resigned resign v endpoint = elim v.request [ none ↦ none | some r ↦ resign r endpoint ]

  -- From the signing to the response.
  unfoldable pub sign_and_send :
      (R → AwsEndpoint → Option R)
      → (R → Result UpstreamFault ℕ)
      → AwsEndpoint
      → VerifiedRequest R
      → DecodedAwsRequest
      → Bytes
      → State R
      → State R
  sign_and_send resign send endpoint v d id st = elim (resigned resign v endpoint) [
    | none ↦ deny_credentials endpoint d id st
    | some outgoing ↦
        if srv.audit_failed st.effects
        then respond_pipeline_deny srv endpoint (of_decoded d) audit_unavailable id st
        else round_trip send d outgoing st
  ]

  unfoldable pub forward :
      AwsEndpoint → VerifiedRequest R → DecodedAwsRequest → Bytes → State R → State R
  forward endpoint v d id st = elim srv.resigner [
    | none ↦ deny_credentials endpoint d id st
    | some resign ↦ elim srv.upstream [
      | none ↦ deny_credentials endpoint d id st
      | some send ↦
          if not (is_bound endpoint v d)
          then finish_failed_pipeline srv endpoint internal (codes "forward") d st
          else sign_and_send resign send endpoint v d id st
    ]
  ]

  -- What follows the audit of a decision.
  unfoldable pub after_audit :
      AwsEndpoint
      → VerifiedRequest R
      → DecodedAwsRequest
      → Decision
      → Bytes
      → Bool × State R
      → State R
  after_audit endpoint v d decision id (false, st) =
      respond_pipeline_deny srv endpoint (of_decoded d) audit_unavailable id st
  after_audit endpoint v d decision id (true, st) =
      if is_denial decision.result
      then respond_pipeline_deny srv endpoint (of_decoded d) decision.reason_code id
          (count (codes "requests_denied") st)
      else forward endpoint v d id st

  abbrev pub count_spool : VerifiedRequest R → State R → State R
  count_spool v st = elim v.request [
    | none ↦ st
    | some r ↦ if srv.is_spooled r then count (codes "spool_bytes") st else st
  ]

  -- From the decision to its audit.
  unfoldable pub after_decision :
      AwsEndpoint
      → VerifiedRequest R
      → DecodedAwsRequest
      → MappingResult
      → Decision
      → State R
      → State R
  after_decision endpoint v d m decision st =
      let label = decision_counter d.service d.operation (text decision.reason_code) in
      let counted_st = count_spool v (count (codes "payload_bytes") (count label st)) in
      let id = srv.new_id counted_st.ids in
      after_audit endpoint v d decision id (
        accept_audit srv (decision_event srv (counted_st.ids + 1) id d m decision)
          (take_ids 3 counted_st))
