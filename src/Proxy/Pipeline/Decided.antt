-- ===== src/Proxy/Pipeline/Decided.antt =====
-- internal/proxy/server.go: the decision that is found or made.
use mathlib.Core.Path.{subst}
use kordn.Base.{
  ◌∙◌, ℕ, ◌≡◌, refl, ap, List, true, false, Bool-cases, Option, none, some, Option-cases, inl, inr,
  Bytes, codes, arith, bytes_eq,
}
use kordn.AwsRequest.Mapping.{MappingResult}
use kordn.Policy.Decision.{Decision, DecisionInput, decision_valid, result_valid}
use kordn.AwsError.Reason.{reason_valid, reason_in, all_reason_codes, text}
use kordn.Cache.Lru.{get_locked}
use kordn.Proxy.Pipeline.Watch.{Watch, settled}
use kordn.Cache.Lru.Kept.{Found}
use kordn.Proxy.Server.{Server, State, Effect, observed, emit}
use kordn.Proxy.Failures.{fail_closed}
use kordn.Proxy.Lookups.{bytes_discrete, add_decision, cached_decision, decision_cache_key}
use kordn.AwsRequest.Endpoint.{AwsEndpoint}
use kordn.AwsRequest.Request.{DecodedAwsRequest}
use kordn.Proxy.Pipeline.{input_of, evaluate_policy, decide}
use kordn.Proxy.Forwarding.{internal}
use kordn.Proxy.Pipeline.Stages.{Adds, Adds-both}
use kordn.Proxy.Pipeline.Caching.{
  Looks, Caches, at, counted-Looks, no_caches-Looks, add_decision-Adds,
}

pub settled-valid : (d : Decision) → decision_valid d ≡ true → settled (some d) ≡ d
settled-valid d good = rw good refl

settled-invalid :
    (d : Decision) → decision_valid d ≡ false → settled (some d) ≡ fail_closed internal
settled-invalid d bad = rw bad refl

module _ {R : Type 0} {srv : Server R} (P : Watch srv) where
  cached_decision-at :
      (key : Bytes) (caches : Caches P) (ids : ℕ) (effects : List (Effect R))
      → Looks P
          (P.decides key)
          (at P caches ids effects)
          (cached_decision srv key (at P caches ids effects))
        × Found
            (λ decision. decision_valid decision ≡ true)
            (cached_decision srv key (at P caches ids effects)).0
  unfolding cached_decision
  cached_decision-at key none ids effects =
      (no_caches-Looks P (P.decides key) (at P none ids effects), tt)
  cached_decision-at key (some (operations, decisions)) ids effects =
      let st = at P (some (operations, decisions)) ids effects in
      let looked = get_locked bytes_discrete decisions key in
      let found = P.finds_decision key operations decisions in
      let misses =
        counted-Looks P (P.decides key) (codes "cache_decision_misses") none st
          (some (operations, looked.0)) (λ h. ((found h).0, tt)) in
      elim (Option-cases looked.1) [
        | inl miss ↦ rw (miss, cached_decision) (misses, tt)
        | inr (decision, there) ↦ elim (Bool-cases (decision_valid decision)) [
          | inl good ↦
              rw (there, good, cached_decision)
                (
                  counted-Looks P (P.decides key) (codes "cache_decision_hits") (some decision) st
                      (some (operations, looked.0))
                      (λ h. ((found h).0, subst (Found (P.decides key)) there (found h).1)),
                  good,
                )
          | inr bad ↦ rw (there, bad, cached_decision) (misses, tt)
        ]
      ]

  -- What is decided is valid, and it is known as what is held says.
  pub record Decides (key : Bytes) (st : State R) (r : Decision × State R) : Type 0 where
    pub added : Adds P 0 st r.1
    pub valid : decision_valid r.0 ≡ true
    pub known : P.held st.caches → P.decides key r.0

  fail_closed-valid : decision_valid (fail_closed internal) ≡ true
  unfolding decision_valid result_valid reason_valid reason_in all_reason_codes text bytes_eq
  fail_closed-valid = refl

  -- A decision is added after the evaluation was observed.
  observed_add :
      (key : Bytes) (decision : Decision) (st : State R)
      → P.decides key decision
      → Adds P 0 st (add_decision srv key decision (emit (observed (codes "policy_latency_ms")) st))
  observed_add key decision st known =
      let added =
        add_decision-Adds P key decision (emit (observed (codes "policy_latency_ms")) st) known in
      record { adds = omega (arith, added.adds); keeps = λ g. added.keeps g }

  module _ (policy : DecisionInput → Option Decision) (there_is : srv.policy ≡ some policy)
      (endpoint : AwsEndpoint) (d : DecodedAwsRequest) (m : MappingResult) where
    abbrev key : Bytes
    key = decision_cache_key srv endpoint d m

    evaluate_policy-Decides :
        (st : State R)
        → Decides key st (evaluate_policy srv policy (input_of srv endpoint d m) key st)
    unfolding evaluate_policy
    evaluate_policy-Decides st =
        let known = P.policy_decides policy endpoint d m there_is in
        elim (Option-cases (policy (input_of srv endpoint d m))) [
          | inl e ↦
              (let failed = subst (λ answer. P.decides key (settled answer)) e known in
                rw (e, evaluate_policy)
                  (record {
                    added = observed_add key (fail_closed internal) st failed;
                    valid = fail_closed-valid;
                    known = λ h. failed;
                  }))
          | inr (decision, e) ↦ elim (Bool-cases (decision_valid decision)) [
            | inl good ↦
                (let made =
                    subst (P.decides key) (ap settled e ∙ settled-valid decision good) known in
                  rw (e, good, evaluate_policy)
                    (record {
                      added = observed_add key decision st made;
                      valid = good;
                      known = λ h. made;
                    }))
            | inr bad ↦
                (let replaced =
                    subst (P.decides key) (ap settled e ∙ settled-invalid decision bad) known in
                  rw (e, bad, evaluate_policy)
                    (record {
                      added = record { adds = omega arith; keeps = λ g. g };
                      valid = fail_closed-valid;
                      known = λ h. replaced;
                    }))
          ]
        ]

    decide-Decides :
        (st : State R) (found : Option Decision × State R)
        → Looks P (P.decides key) st found
        → Found (λ decision. decision_valid decision ≡ true) found.0
        → Decides key st (decide srv policy (input_of srv endpoint d m) key found)
    unfolding decide
    decide-Decides st (some decision, st') looks valid = record {
      added = looks.added;
      valid = valid;
      known = looks.hit;
    }
    decide-Decides st (none, st') looks valid =
        let decided = evaluate_policy-Decides st' in
        record {
          added =
              Adds-both P st st' (evaluate_policy srv policy (input_of srv endpoint d m) key st').1
                looks.added decided.added;
          valid = decided.valid;
          known = λ h. decided.known (looks.held h);
        }

    pub decision-Decides :
        (st : State R)
        → Decides key st
            (decide srv policy (input_of srv endpoint d m) key (cached_decision srv key st))
    decision-Decides st =
        let found = cached_decision-at key st.caches st.ids st.effects in
        decide-Decides st (cached_decision srv key st) found.0 found.1
