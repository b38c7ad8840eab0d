-- ===== src/Proxy/Pipeline/Deciding.antt =====
-- internal/proxy/server.go: from a decoded request to its audited decision, and what each step sends.
use kordn.Base.{
  ℕ, ◌+◌, ◌≡◌, List, Bool, true, false, Bool-cases, Option-cases, inl, inr, Bytes, codes, arith,
  is_ok, there,
}
use kordn.AwsRequest.Endpoint.{AwsEndpoint}
use kordn.AwsRequest.Request.{DecodedAwsRequest}
use kordn.AwsRequest.Mapping.{MappingResult}
use kordn.AwsRequest.Verified.{VerifiedRequest}
use kordn.AwsError.Reason.{audit_unavailable, text}
use kordn.Policy.Decision.{Decision, validate_input, decision_valid}
use kordn.Audit.Event.{Event}
use kordn.Proxy.Pipeline.Watch.{Watch, unwatched}
use kordn.Proxy.Server.{Server, State, Effect, count, take_ids, decision_counter}
use kordn.Proxy.Replies.{accept_audit, decision_event, of_decoded}
use kordn.Proxy.Forwarding.{after_audit, count_spool, after_decision, is_denial, internal}
use kordn.Proxy.Pipeline.{input_of, after_mapping, decide}
use kordn.Proxy.Lookups.{cached_decision, decision_cache_key}
use kordn.Proxy.Pipeline.Stages.{
  Adds, Adds-after, Written, Accepted, accept_audit-Adds, accept_audit-Accepted,
  respond_pipeline_deny-Adds, finish_failed_pipeline-Adds,
}
use kordn.Proxy.Pipeline.Decided.{decision-Decides}
use kordn.Proxy.Pipeline.Sending.{Resigns, forward-Adds}

module _ {R : Type 0} {srv : Server R} (P : Watch srv) where
  -- With the event accepted and the decision no denial, a request signed again may be sent.
  abbrev GrantsAudited : AwsEndpoint → VerifiedRequest R → Decision → Event → Type 0
  GrantsAudited endpoint v decision e =
      (out : R) (before : List (Effect R))
      → Resigns srv v endpoint out
      → is_denial decision.result ≡ false
      → Written e before
      → P.sent out before

  after_audit-Adds :
      (endpoint : AwsEndpoint) (v : VerifiedRequest R) (d : DecodedAwsRequest) (decision : Decision)
      (id : Bytes) (e : Event) (answer : Bool × State R)
      → Accepted e answer
      → GrantsAudited endpoint v decision e
      → Adds P 1 answer.1 (after_audit srv endpoint v d decision id answer)
  unfolding after_audit
  after_audit-Adds endpoint v d decision id e (false, st) accepted grants =
      respond_pipeline_deny-Adds P endpoint (of_decoded d) audit_unavailable id st
  after_audit-Adds endpoint v d decision id e (true, st) accepted grants =
      elim (Bool-cases (is_denial decision.result)) [
        | inl denied ↦
            (let answered =
                respond_pipeline_deny-Adds P endpoint (of_decoded d) decision.reason_code id
                  (count (codes "requests_denied") st) in
              rw (denied, after_audit)
                (record { adds = omega (arith, answered.adds); keeps = λ h. answered.keeps h }))
        | inr permitted ↦
            rw (permitted, after_audit)
              (forward-Adds P endpoint v d id st (λ out signed.
                grants out (count (codes "requests_allowed") st).effects signed permitted
                  (there accepted)))
      ]

  count_spool-Adds : (v : VerifiedRequest R) (st : State R) → Adds P 0 st (count_spool srv v st)
  count_spool-Adds v st = elim (Option-cases v.request) [
    | inl e ↦ rw e (record { adds = omega arith; keeps = λ h. h })
    | inr (r, e) ↦ elim (Bool-cases (srv.is_spooled r)) [
      | inl spooled ↦ rw (e, spooled) (record { adds = omega arith; keeps = λ h. h })
      | inr held ↦ rw (e, held) (record { adds = omega arith; keeps = λ h. h })
    ]
  ]

  -- With any event of this decision accepted, a request signed again may be sent.
  abbrev GrantsDecided :
      AwsEndpoint → VerifiedRequest R → DecodedAwsRequest → MappingResult → Decision → Type 0
  GrantsDecided endpoint v d m decision =
      (ids : ℕ) (id : Bytes)
      → GrantsAudited endpoint v decision (decision_event srv ids id d m decision)

  after_decision-Adds :
      (endpoint : AwsEndpoint) (v : VerifiedRequest R) (d : DecodedAwsRequest) (m : MappingResult)
      (decision : Decision) (st : State R)
      → GrantsDecided endpoint v d m decision
      → Adds P 1 st (after_decision srv endpoint v d m decision st)
  unfolding after_decision
  after_decision-Adds endpoint v d m decision st grants =
      let label = decision_counter d.service d.operation (text decision.reason_code) in
      let labelled = count (codes "payload_bytes") (count label st) in
      let spool = count_spool-Adds v labelled in
      let counted_st = count_spool srv v labelled in
      let id = srv.new_id counted_st.ids in
      let e = decision_event srv (counted_st.ids + 1) id d m decision in
      let audited = accept_audit-Adds P e (take_ids 3 counted_st) in
      let answered =
        after_audit-Adds endpoint v d decision id e (accept_audit srv e (take_ids 3 counted_st))
          (accept_audit-Accepted P e (take_ids 3 counted_st)) (grants (counted_st.ids + 1) id) in
      record {
        adds = omega (arith, spool.adds, audited.adds, answered.adds);
        keeps = λ h. answered.keeps (audited.keeps (spool.keeps h));
      }

  -- With a valid decision that is known, a request signed again may be sent.
  abbrev pub GrantsMapped :
      AwsEndpoint → VerifiedRequest R → DecodedAwsRequest → MappingResult → Type 0
  GrantsMapped endpoint v d m =
      (decision : Decision)
      → decision_valid decision ≡ true
      → P.decides (decision_cache_key srv endpoint d m) decision
      → GrantsDecided endpoint v d m decision

module _ {R : Type 0} {srv : Server R} (P : Watch srv) where
  pub after_mapping-Adds :
      (endpoint : AwsEndpoint) (v : VerifiedRequest R) (d : DecodedAwsRequest) (m : MappingResult)
      (st : State R)
      → GrantsMapped P endpoint v d m
      → Adds P 1 st (after_mapping srv endpoint v d m st)
  unfolding after_mapping
  after_mapping-Adds endpoint v d m st grants = elim (Option-cases srv.policy) [
    | inl e ↦
        rw (e, after_mapping)
          (finish_failed_pipeline-Adds P endpoint internal (codes "policy") d st)
    | inr (policy, e) ↦ elim (Bool-cases (is_ok (validate_input (input_of srv endpoint d m)))) [
      | inr bad ↦
          rw (e, bad, after_mapping)
            (finish_failed_pipeline-Adds P endpoint internal (codes "policy") d st)
      | inl good ↦
          (let key = decision_cache_key srv endpoint d m in
            let decided =
              decide srv policy (input_of srv endpoint d m) key (cached_decision srv key st) in
            let decides = decision-Decides P policy e endpoint d m st in
            rw (e, good, after_mapping)
              (Adds-after P st decided.1 (after_decision srv endpoint v d m decided.0 decided.1)
                decides.added
                (after_decision-Adds (unwatched srv) endpoint v d m decided.0 decided.1
                  (λ ids id out before signed permitted accepted. tt))
                (λ held.
                  after_decision-Adds P endpoint v d m decided.0 decided.1
                    (grants decided.0 decides.valid (decides.known held)))))
    ]
  ]
