-- ===== src/Proxy/Pipeline/Sending.antt =====
-- internal/proxy/server.go: from a mapped request to the response, and what each step sends.
use kordn.Base.{
  ℕ, ◌≡◌, Bool, if◌then◌else◌, Bool-cases, Option, some, Option-cases, inl, inr, Bytes, codes,
  arith, Result, Result-cases,
}
use kordn.AwsRequest.Endpoint.{AwsEndpoint}
use kordn.AwsRequest.Request.{DecodedAwsRequest}
use kordn.AwsRequest.Verified.{VerifiedRequest}
use kordn.AwsError.Reason.{audit_unavailable, upstream_credential_unavailable}
use kordn.Proxy.Pipeline.Watch.{Watch}
use kordn.Proxy.Server.{Server, State, UpstreamFault, count, take_ids}
use kordn.Proxy.Replies.{forward_event, of_decoded}
use kordn.Proxy.Forwarding.{
  upstream_failed, upstream_answered, status_class, round_trip, sent_state, deny_credentials,
  is_bound, resigned, sign_and_send, forward, internal,
}
use kordn.Proxy.Pipeline.Stages.{
  Adds, accept_audit-Adds, respond_pipeline_deny-Adds, finish_failed_pipeline-Adds,
}

-- The request `out` was signed again from the verified one.
abbrev pub Resigns : {R : Type 0} → Server R → VerifiedRequest R → AwsEndpoint → R → Type 0
Resigns {R} srv v endpoint out =
    (resign : R → AwsEndpoint → Option R) × (srv.resigner ≡ some resign)
    × (resigned srv resign v endpoint ≡ some out)

module _ {R : Type 0} {srv : Server R} (P : Watch srv) where
  upstream_failed-Adds :
      (canceled : Bool) (d : DecodedAwsRequest) (st : State R)
      → Adds P 1 st (upstream_failed srv canceled d st)
  unfolding upstream_failed
  upstream_failed-Adds canceled d st =
      let kind = if canceled then codes "upstream.cancel" else codes "upstream.transport" in
      let counted_st = count kind (count (codes "upstream_errors") st) in
      let audited =
        accept_audit-Adds P (forward_event srv counted_st.ids d) (take_ids 2 counted_st) in
      record { adds = omega (arith, audited.adds); keeps = λ h. audited.keeps h }

  upstream_answered-Adds :
      (status : ℕ) (st : State R) → Adds P 1 st (upstream_answered srv status st)
  unfolding upstream_answered
  upstream_answered-Adds status st = elim (Option-cases (status_class status)) [
    | inl e ↦ rw (e, upstream_answered) (record { adds = omega arith; keeps = λ h. h })
    | inr (label, e) ↦ rw (e, upstream_answered) (record { adds = omega arith; keeps = λ h. h })
  ]

  -- What follows the sending of a request that may be sent.
  after_sending :
      (out : R) (st st' : State R)
      → P.sent out (count (codes "requests_allowed") st).effects
      → Adds P 1 (sent_state srv out st) st'
      → Adds P 1 st st'
  after_sending out st st' granted h = record {
    adds = omega (arith, h.adds);
    keeps = λ g. h.keeps (g.0, (granted, g.1));
  }

  round_trip-Adds :
      (send : R → Result UpstreamFault ℕ) (d : DecodedAwsRequest) (out : R) (st : State R)
      → P.sent out (count (codes "requests_allowed") st).effects
      → Adds P 1 st (round_trip srv send d out st)
  unfolding round_trip
  round_trip-Adds send d out st granted = elim (Result-cases (send out)) [
    | inl (fault, e) ↦
        rw (e, round_trip)
          (after_sending out st (upstream_failed srv fault.canceled d (sent_state srv out st))
            granted (upstream_failed-Adds fault.canceled d (sent_state srv out st)))
    | inr (status, e) ↦
        rw (e, round_trip)
          (after_sending out st (upstream_answered srv status (sent_state srv out st)) granted
            (upstream_answered-Adds status (sent_state srv out st)))
  ]

  deny_credentials-Adds :
      (endpoint : AwsEndpoint) (d : DecodedAwsRequest) (id : Bytes) (st : State R)
      → Adds P 1 st (deny_credentials srv endpoint d id st)
  deny_credentials-Adds endpoint d id st =
      let denied =
        respond_pipeline_deny-Adds P endpoint (of_decoded d) upstream_credential_unavailable id
          (count (codes "upstream.credential_failure") st) in
      record { adds = omega (arith, denied.adds); keeps = λ h. denied.keeps h }

  sign_and_send-Adds :
      (resign : R → AwsEndpoint → Option R) (send : R → Result UpstreamFault ℕ)
      (endpoint : AwsEndpoint) (v : VerifiedRequest R) (d : DecodedAwsRequest) (id : Bytes)
      (st : State R)
      → ((out : R)
          → resigned srv resign v endpoint ≡ some out
          → P.sent out (count (codes "requests_allowed") st).effects)
      → Adds P 1 st (sign_and_send srv resign send endpoint v d id st)
  unfolding sign_and_send
  sign_and_send-Adds resign send endpoint v d id st granted =
      elim (Option-cases (resigned srv resign v endpoint)) [
        | inl e ↦ rw (e, sign_and_send) (deny_credentials-Adds endpoint d id st)
        | inr (out, e) ↦ elim (Bool-cases (srv.audit_failed st.effects)) [
          | inl failed ↦
              rw (e, failed, sign_and_send)
                (respond_pipeline_deny-Adds P endpoint (of_decoded d) audit_unavailable id st)
          | inr working ↦
              rw (e, working, sign_and_send) (round_trip-Adds send d out st (granted out e))
        ]
      ]

  pub forward-Adds :
      (endpoint : AwsEndpoint) (v : VerifiedRequest R) (d : DecodedAwsRequest) (id : Bytes)
      (st : State R)
      → ((out : R)
          → Resigns srv v endpoint out
          → P.sent out (count (codes "requests_allowed") st).effects)
      → Adds P 1 st (forward srv endpoint v d id st)
  unfolding forward
  forward-Adds endpoint v d id st granted = elim (Option-cases srv.resigner) [
    | inl e ↦ rw (e, forward) (deny_credentials-Adds endpoint d id st)
    | inr (resign, e) ↦ elim (Option-cases srv.upstream) [
      | inl e' ↦ rw (e, e', forward) (deny_credentials-Adds endpoint d id st)
      | inr (send, e') ↦ elim (Bool-cases (is_bound srv endpoint v d)) [
        | inl bound ↦
            rw (e, e', bound, forward)
              (sign_and_send-Adds resign send endpoint v d id st
                (λ out signed. granted out (resign, e, signed)))
        | inr unbound ↦
            rw (e, e', unbound, forward)
              (finish_failed_pipeline-Adds P endpoint internal (codes "forward") d st)
      ]
    ]
  ]
