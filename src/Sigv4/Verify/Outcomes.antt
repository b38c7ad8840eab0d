-- ===== src/Sigv4/Verify/Outcomes.antt =====
-- internal/sigv4/verify.go: the body of a request after Verify, and the request that it returns.
use kordn.Base.{
  ℕ, ◌≡◌, refl, Bool, true, [], Option, none, some, Option-cases, inl, inr, arith, Result, ok, err,
  Result-cases,
}
use kordn.AwsRequest.Endpoint.{AwsEndpoint}
use kordn.AwsRequest.Verified.{VerifiedRequest}
use kordn.Sigv4.Request.{SigError}
use kordn.Sigv4.Body.{Body, Disk}
use kordn.Sigv4.Body.Captured.{is_rid, removed-is_rid}
use kordn.Sigv4.Inbound.{Inbound, no_source, Payload, payload, close_body, close_request_body}
use kordn.Sigv4.Inbound.Closed.{HoldsPayload, payload-HoldsPayload}
use kordn.Sigv4.Verifier.{Platform, Verifier}
use kordn.Sigv4.Verify.{
  Head, check_signature, verify_head, verify_payload, verify, reject, body_options,
}

-- A body that is closed, with no memory, and with no file unless it could not be removed.
pub record IsClosed (disk : Disk) (b : Body) : Type 0 where
  pub closed : b.closed ≡ true
  pub no_memory : b.memory ≡ []
  pub no_file : is_rid disk b.spool ≡ true

-- A body that is not there, or that is closed.
abbrev IsGone : Disk → Option Body → Type 0
IsGone disk none = Unit
IsGone disk (some b) = IsClosed disk b

-- No reader is left open, and no body.
pub record IsReleased (disk : Disk) (i : Inbound) : Type 0 where
  pub no_reader : i.source ≡ no_source
  pub body_gone : IsGone disk i.captured

close_request_body-IsReleased :
    (disk : Disk) (i : Inbound) → IsReleased disk (close_request_body disk i)
unfolding close_request_body close_body
close_request_body-IsReleased disk i = elim (Option-cases i.captured) [
  | inl e ↦ ground (arith, e)
  | inr (b, e) ↦ ground (arith, e, removed-is_rid disk b.spool)
]

-- An accepted request holds its body; any other is released.
abbrev pub Disposes : Disk → Result SigError (VerifiedRequest Inbound) × Inbound → Type 0
Disposes disk (err e, i) = IsReleased disk i
Disposes disk (ok r, i) = (r.request ≡ some i) × ((b : Body) × (i.captured ≡ some b))

reject-Disposes : (p : Platform) (e : SigError) (i : Inbound) → Disposes p.disk (reject p e i)
unfolding reject
reject-Disposes p e i = close_request_body-IsReleased p.disk i

verify_payload-Disposes :
    (p : Platform) (v : Verifier) (endpoint : AwsEndpoint) (head : Head)
    (paid : Result SigError Payload × Inbound)
    → HoldsPayload paid
    → Disposes p.disk (verify_payload p v endpoint head paid)
unfolding verify_payload
verify_payload-Disposes p v endpoint head (err e, i) h = reject-Disposes p e i
verify_payload-Disposes p v endpoint head (ok body, i) h =
    elim (Result-cases (check_signature p v i.request head.claim head.signed body.hash)) [
      | inl (e, bad) ↦ rw (bad, verify_payload) (reject-Disposes p e i)
      | inr (_, good) ↦ rw (good, verify_payload) (refl, (body.body, h.0))
    ]

-- However Verify ends, the body is accounted for: after a failure, of whatever kind and at whatever
-- stage, the request has no open reader, and its captured body is closed, with no memory, and with no
-- file unless os.Remove fails; after a success the returned request is the one whose body is held.
pub verify-Disposes :
    (p : Platform) (v : Verifier) (cancelled : Bool) (now : ℕ) (i : Inbound)
    (endpoint : AwsEndpoint)
    → Disposes p.disk (verify p v cancelled now i endpoint)
unfolding verify
verify-Disposes p v cancelled now i endpoint =
    elim (Result-cases (verify_head p v cancelled now i.request endpoint)) [
      | inl (e, bad) ↦ rw (bad, verify) (reject-Disposes p e i)
      | inr (head, good) ↦
          rw (good, verify)
            (verify_payload-Disposes p v endpoint head
              (payload p.sha256 p.disk (body_options v) v.options.allow_unsigned_payload i)
              (payload-HoldsPayload p.sha256 p.disk (body_options v)
                v.options.allow_unsigned_payload i))
    ]
