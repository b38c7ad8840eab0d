-- ===== src/Proxy/Pipeline/Verified.antt =====
-- internal/proxy/server.go: from the request of a client to its decoding, and what each step sends.
use kordn.Base.{
  ◌≡◌, refl, true, Bool-cases, Option, none, some, Option-cases, inl, inr, codes, arith, Result, ok,
  err,
}
use kordn.AwsRequest.Endpoint.{AwsEndpoint}
use kordn.AwsRequest.Evidence.{GoError}
use kordn.AwsRequest.Request.{DecodedAwsRequest}
use kordn.AwsRequest.Verified.{VerifiedRequest}
use kordn.AwsError.Reason.{unknown_operation, invalid_inbound_signature}
use kordn.Sigv4.Request.{Code}
use kordn.Proxy.Pipeline.Watch.{Watch}
use kordn.Proxy.Server.{Server, State, emit, count, verify_reason, observed}
use kordn.Proxy.Failures.{failure_decoded, safe_decode_failure_evidence}
use kordn.Proxy.Forwarding.{internal}
use kordn.Proxy.Pipeline.{
  decodes_at, check_decoded, after_verify, is_verified, check_verified, run_pipeline,
  handle_pipeline,
}
use kordn.Proxy.Pipeline.Stages.{
  Adds, finish_authentication_failure-Adds, finish_failed_pipeline-Adds,
}
use kordn.Proxy.Pipeline.Mapped.{GrantsDecoded, after_decode-Adds}

module _ {R : Type 0} {srv : Server R} (P : Watch srv) where
  abbrev GrantsDecoding :
      AwsEndpoint → VerifiedRequest R → Result GoError (Option DecodedAwsRequest) → Type 0
  GrantsDecoding endpoint v answer =
      (d : DecodedAwsRequest)
      → answer ≡ ok (some d)
      → decodes_at srv endpoint d ≡ true
      → GrantsDecoded P endpoint v d

  abbrev GrantsVerified : AwsEndpoint → VerifiedRequest R → Type 0
  GrantsVerified endpoint v =
      (decode : VerifiedRequest R → AwsEndpoint → Result GoError (Option DecodedAwsRequest))
      → srv.decoder ≡ some decode
      → GrantsDecoding endpoint v (decode v endpoint)

  check_decoded-Adds :
      (req : R) (endpoint : AwsEndpoint) (v : VerifiedRequest R)
      (decoded : Result GoError (Option DecodedAwsRequest)) (st : State R)
      → GrantsDecoding endpoint v decoded
      → Adds P 1 st (check_decoded srv req endpoint v decoded st)
  unfolding check_decoded
  check_decoded-Adds req endpoint v (err e) st grants =
      finish_failed_pipeline-Adds P endpoint unknown_operation (codes "decode")
        (failure_decoded (srv.method_of req) endpoint
          (safe_decode_failure_evidence (some e) endpoint v.protocol))
        st
  check_decoded-Adds req endpoint v (ok none) st grants =
      finish_failed_pipeline-Adds P endpoint unknown_operation (codes "decode")
        (failure_decoded (srv.method_of req) endpoint none) st
  check_decoded-Adds req endpoint v (ok (some d)) st grants =
      elim (Bool-cases (decodes_at srv endpoint d)) [
        | inr bad ↦
            rw (bad, check_decoded)
              (finish_failed_pipeline-Adds P endpoint internal (codes "decode")
                (failure_decoded (srv.method_of req) endpoint none) st)
        | inl good ↦
            rw (good, check_decoded) (after_decode-Adds P endpoint v d st (grants d refl good))
      ]

  after_verify-Adds :
      (req : R) (endpoint : AwsEndpoint) (v : VerifiedRequest R) (st : State R)
      → GrantsVerified endpoint v
      → Adds P 1 st (after_verify srv req endpoint v st)
  unfolding after_verify
  after_verify-Adds req endpoint v st grants = elim (Option-cases srv.decoder) [
    | inl e ↦
        rw (e, after_verify)
          (finish_failed_pipeline-Adds P endpoint internal (codes "decode")
            (failure_decoded (srv.method_of req) endpoint none) st)
    | inr (decode, e) ↦
        (let checked =
            check_decoded-Adds req endpoint v (decode v endpoint)
              (emit (observed (codes "decode_latency_ms")) st) (grants decode e) in
          rw (e, after_verify)
            (record { adds = omega (arith, checked.adds); keeps = λ h. checked.keeps h }))
  ]

  abbrev GrantsAnswer : AwsEndpoint → Result (Option Code) (Option (VerifiedRequest R)) → Type 0
  GrantsAnswer endpoint answer =
      (v : VerifiedRequest R)
      → answer ≡ ok (some v)
      → is_verified srv endpoint v ≡ true
      → GrantsVerified endpoint v

  check_verified-Adds :
      (req : R) (endpoint : AwsEndpoint)
      (answer : Result (Option Code) (Option (VerifiedRequest R))) (st : State R)
      → GrantsAnswer endpoint answer
      → Adds P 1 st (check_verified srv req endpoint answer st)
  unfolding check_verified
  check_verified-Adds req endpoint (err code) st grants =
      finish_authentication_failure-Adds P endpoint (verify_reason code) st
  check_verified-Adds req endpoint (ok none) st grants =
      finish_authentication_failure-Adds P endpoint invalid_inbound_signature st
  check_verified-Adds req endpoint (ok (some v)) st grants =
      elim (Bool-cases (is_verified srv endpoint v)) [
        | inr bad ↦
            rw (bad, check_verified)
              (finish_authentication_failure-Adds P endpoint invalid_inbound_signature st)
        | inl good ↦
            (let verified = after_verify-Adds req endpoint v st (grants v refl good) in
              rw (good, check_verified)
                (record { adds = omega (arith, verified.adds); keeps = λ h. verified.keeps h }))
      ]

  -- What the parts of the server must have done for a request to be sent.
  abbrev pub Grants : R → AwsEndpoint → Type 0
  Grants req endpoint =
      (verify : R → AwsEndpoint → Result (Option Code) (Option (VerifiedRequest R)))
      → srv.authenticator ≡ some verify
      → GrantsAnswer endpoint (verify req endpoint)

  run_pipeline-Adds :
      (req : R) (endpoint : AwsEndpoint) (st : State R)
      → ((verify : R → AwsEndpoint → Result (Option Code) (Option (VerifiedRequest R)))
          → srv.authenticator ≡ some verify
          → GrantsAnswer endpoint (verify req endpoint))
      → Adds P 1 st (run_pipeline srv req endpoint st)
  unfolding run_pipeline
  run_pipeline-Adds req endpoint st grants = elim (Option-cases srv.authenticator) [
    | inl e ↦ rw (e, run_pipeline) (finish_authentication_failure-Adds P endpoint internal st)
    | inr (verify, e) ↦
        rw (e, run_pipeline)
          (check_verified-Adds req endpoint (verify req endpoint) st (grants verify e))
  ]

  pub handle_pipeline-Adds :
      (req : R) (endpoint : AwsEndpoint) (st : State R)
      → Grants req endpoint
      → Adds P 1 st (handle_pipeline srv req endpoint st)
  unfolding handle_pipeline
  handle_pipeline-Adds req endpoint st grants =
      let ran = run_pipeline-Adds req endpoint (count (codes "requests_intercepted") st) grants in
      record { adds = omega (arith, ran.adds); keeps = λ h. ran.keeps h }
