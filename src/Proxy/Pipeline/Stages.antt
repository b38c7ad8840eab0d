-- ===== src/Proxy/Pipeline/Stages.antt =====
-- internal/proxy/server.go: what each stage does, in what it sends upstream and in its replies.
use kordn.Base.{
  ℕ, ◌+◌, ◌≡◌, refl, List, [], ◌∷◌, ◌++◌, Bool, true, false, Bool-cases, Option-cases, inl, inr,
  Bytes, codes, arith, Result-cases, Some, here, there,
}
use kordn.AwsRequest.Endpoint.{AwsEndpoint}
use kordn.AwsRequest.Request.{DecodedAwsRequest}
use kordn.AwsError.Reason.{ReasonCode, text}
use kordn.Audit.Event.{Event}
use kordn.Proxy.Replies.{
  accept_audit, respond_pipeline_deny, Subject, write_authentication_event,
  finish_authentication_failure, finish_failed_pipeline, answer_failure, decision_event,
  authentication_event, gauge_queue,
}
use kordn.Proxy.Failures.{failure_mapping, fail_closed}
use kordn.Proxy.Pipeline.Watch.{Watch, unwatched}
use kordn.Proxy.Server.{
  Server, State, Effect, wrote, forwarded, replied, emit, count, take_ids, safe_metric_label,
}

module _ {R : Type 0} where
  abbrev is_reply : Effect R → ℕ
  is_reply (replied r) = 1
  is_reply _ = 0

  -- The replies of a handler.
  abbrev pub replies : List (Effect R) → ℕ
  replies [] = 0
  replies (e ∷ es) = is_reply e + replies es

  -- The requests that were sent upstream, newest first.
  abbrev pub sent_of : List (Effect R) → List R
  sent_of [] = []
  sent_of (forwarded out ∷ es) = out ∷ sent_of es
  sent_of (_ ∷ es) = sent_of es

  -- Every request that was sent upstream was sent with `P`, which tells of what happened before.
  abbrev pub AllSent : (R → List (Effect R) → Type 0) → List (Effect R) → Type 0
  AllSent P [] = Unit
  AllSent P (forwarded out ∷ es) = P out es × AllSent P es
  AllSent P (_ ∷ es) = AllSent P es

  -- The event was given to the audit writer, which accepted it.
  abbrev pub Written : Event → List (Effect R) → Type 0
  Written e es = Some (λ x. x ≡ wrote e true) es

  abbrev pub Accepted : Event → Bool × State R → Type 0
  Accepted e (false, st) = Unit
  Accepted e (true, st) = Written e st.effects

module _ {R : Type 0} {srv : Server R} where
  abbrev pub Good : Watch srv → State R → Type 0
  Good P st = P.held st.caches × AllSent P.sent st.effects

  -- The step from `st` to `st'` makes `n` replies, and keeps what is watched.
  pub record Adds (P : Watch srv) (n : ℕ) (st st' : State R) : Type 0 where
    pub adds : replies st'.effects ≡ n + replies st.effects
    pub keeps : Good P st → Good P st'

  pub Adds-step :
      (P : Watch srv) (st st' st'' : State R)
      → Adds P 0 st st'
      → Adds P 1 st' st''
      → Adds P 1 st st''
  Adds-step P st st' st'' first then = record {
    adds = omega (arith, first.adds, then.adds);
    keeps = λ h. then.keeps (first.keeps h);
  }

  pub Adds-both :
      (P : Watch srv) (st st' st'' : State R)
      → Adds P 0 st st'
      → Adds P 0 st' st''
      → Adds P 0 st st''
  Adds-both P st st' st'' first then = record {
    adds = omega (arith, first.adds, then.adds);
    keeps = λ h. then.keeps (first.keeps h);
  }

  pub Adds-none : (P : Watch srv) (st : State R) → Adds P 0 st st
  Adds-none P st = record { adds = omega arith; keeps = λ h. h }

-- The last of two steps may need what is held before the first.
pub Adds-after :
    {R : Type 0} {srv : Server R}
    → (P : Watch srv) (st st' st'' : State R) → Adds P 0 st st'
    → Adds (unwatched srv) 1 st' st''
    → (P.held st.caches → Adds P 1 st' st'')
    → Adds P 1 st st''
Adds-after P st st' st'' first counted then = record {
  adds = omega (arith, first.adds, counted.adds);
  keeps = λ g. (then g.0).keeps (first.keeps g);
}

module _ {R : Type 0} {srv : Server R} (P : Watch srv) where
  pub accept_audit-Adds : (e : Event) (st : State R) → Adds P 0 st (accept_audit srv e st).1
  unfolding accept_audit
  accept_audit-Adds e st = elim (Option-cases srv.audit) [
    | inl none_there ↦ rw (none_there, accept_audit) (record { adds = omega arith; keeps = λ h. h })
    | inr (write, there_is) ↦ elim (Result-cases (write st.effects e)) [
      | inl (fault, bad) ↦
          rw (there_is, bad, accept_audit)
            (record { adds = ground arith; keeps = λ h. ground (arith, h) })
      | inr (_, good) ↦
          rw (there_is, good, accept_audit)
            (record { adds = ground arith; keeps = λ h. ground (arith, h) })
    ]
  ]

  gauge_queue-Written :
      (e : Event) (st : State R) → Written e st.effects → Written e (gauge_queue srv st).effects
  gauge_queue-Written e st h = elim (Bool-cases srv.has_queue) [
    | inl queued ↦ rw queued (there h)
    | inr plain ↦ rw plain h
  ]

  pub accept_audit-Accepted : (e : Event) (st : State R) → Accepted e (accept_audit srv e st)
  unfolding accept_audit
  accept_audit-Accepted e st = elim (Option-cases srv.audit) [
    | inl none_there ↦ rw (none_there, accept_audit) tt
    | inr (write, there_is) ↦ elim (Result-cases (write st.effects e)) [
      | inl (fault, bad) ↦ rw (there_is, bad, accept_audit) tt
      | inr (_, good) ↦
          rw (there_is, good, accept_audit)
            (gauge_queue-Written e (emit (wrote e true) st) (here refl))
    ]
  ]

  pub respond_pipeline_deny-Adds :
      (endpoint : AwsEndpoint) (subject : Subject) (reason : ReasonCode) (id : Bytes) (st : State R)
      → Adds P 1 st (respond_pipeline_deny srv endpoint subject reason id st)
  unfolding respond_pipeline_deny
  respond_pipeline_deny-Adds endpoint subject reason id st = record {
    adds = omega arith;
    keeps = λ h. h;
  }

  write_authentication_event-Adds :
      (code : ReasonCode) (st : State R) → Adds P 0 st (write_authentication_event srv code st)
  unfolding write_authentication_event
  write_authentication_event-Adds code st = elim (Option-cases srv.audit) [
    | inl none_there ↦
        rw (none_there, write_authentication_event) (record { adds = omega arith; keeps = λ h. h })
    | inr (write, there_is) ↦
        elim (Result-cases (write st.effects (authentication_event srv st.ids code))) [
          | inl (fault, bad) ↦
              rw (there_is, bad, write_authentication_event)
                (record { adds = omega arith; keeps = λ h. h })
          | inr (_, good) ↦
              rw (there_is, good, write_authentication_event)
                (record { adds = omega arith; keeps = λ h. h })
        ]
  ]

  pub finish_authentication_failure-Adds :
      (endpoint : AwsEndpoint) (code : ReasonCode) (st : State R)
      → Adds P 1 st (finish_authentication_failure srv endpoint code st)
  unfolding finish_authentication_failure respond_pipeline_deny
  finish_authentication_failure-Adds endpoint code st =
      let label = codes "auth.failure." ++ safe_metric_label (text code) in
      let written = write_authentication_event-Adds code (count label st) in
      record { adds = omega (arith, written.adds); keeps = λ h. written.keeps h }

  answer_failure-Adds :
      (endpoint : AwsEndpoint) (d : DecodedAwsRequest) (reason : ReasonCode) (id : Bytes)
      (answer : Bool × State R)
      → Adds P 1 answer.1 (answer_failure srv endpoint d reason id answer)
  unfolding answer_failure respond_pipeline_deny
  answer_failure-Adds endpoint d reason id (false, st) = record {
    adds = omega arith;
    keeps = λ h. h;
  }
  answer_failure-Adds endpoint d reason id (true, st) = record {
    adds = omega arith;
    keeps = λ h. h;
  }

  pub finish_failed_pipeline-Adds :
      (endpoint : AwsEndpoint) (reason : ReasonCode) (stage : Bytes) (d : DecodedAwsRequest)
      (st : State R)
      → Adds P 1 st (finish_failed_pipeline srv endpoint reason stage d st)
  unfolding finish_failed_pipeline
  finish_failed_pipeline-Adds endpoint reason stage d st =
      let label =
        codes "pipeline."
        ++ (safe_metric_label stage ++ (b'.' ∷ safe_metric_label (text reason))) in
      let e =
        decision_event srv (st.ids + 1) (srv.new_id st.ids) d (failure_mapping d stage)
          (fail_closed reason) in
      let st' = take_ids 3 (count label st) in
      let audited = accept_audit-Adds e st' in
      let answered =
        answer_failure-Adds endpoint d reason (srv.new_id st.ids) (accept_audit srv e st') in
      record {
        adds = omega (arith, audited.adds, answered.adds);
        keeps = λ h. answered.keeps (audited.keeps h);
      }
