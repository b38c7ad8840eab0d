-- ===== src/Sigv4/Verify/Authentic.antt =====
-- internal/sigv4/verify.go: what a request that Verify accepts has proved.
use mathlib.Core.Path.{subst}
use kordn.Base.{
  ℕ, ◌≡◌, refl, Bool, some, inl, inr, Bytes, arith, Result, ok, err, Result-cases, ok_of_chain,
  ◌>>=◌,
}
use kordn.AwsRequest.Endpoint.{AwsEndpoint}
use kordn.AwsRequest.Verified.{VerifiedRequest}
use kordn.Sigv4.Request.{SigError}
use kordn.Sigv4.Authorization.Names.{IsNameList, parse_signed_headers-IsNameList}
use kordn.Sigv4.Canonical.{Canonical, build_canonical_request}
use kordn.Sigv4.Inbound.{Inbound, Payload, payload, payload_value, hex_decode}
use kordn.Sigv4.Inbound.Closed.{HoldsPayload, payload-HoldsPayload}
use kordn.Sigv4.Inbound.Taken.{IsTaken, TakesPayload, payload-TakesPayload}
use kordn.Sigv4.Inbound.Covered.{Covers, CoversPayload, payload-CoversPayload}
use kordn.Sigv4.Body.{Body}
use kordn.Sigv4.Verifier.{Platform, Verifier}
use kordn.Sigv4.Claims.{Claim, read_claim, authenticate}
use kordn.Sigv4.Dates.{Signed, check_signed, verify_signed_host}
use kordn.Sigv4.Verify.{
  Head, check_signature, verify_head, verify_payload, verify, reject, body_options,
}
use kordn.Sigv4.Target.{check_target}
use kordn.Sigv4.Verify.Stages.{
  IsClaimed, IsFresh, expected_signature, authenticate-IsClaimed, check_signed-IsFresh,
  check_signature-some,
}

-- The header of a request with the credential of the verifier, and its signature: the keyed hash of
-- the request that was read, its date and its scope. The hash in the request that was signed stands
-- for the body that the request holds, which was captured before or is hashed here; the request differs
-- from the client's at most in its Content-Length.
pub record IsAuthentic (p : Platform) (v : Verifier) (now : ℕ) (i i' : Inbound)
    (endpoint : AwsEndpoint) (r : VerifiedRequest Inbound) : Type 0 where
  pub claim : Claim
  pub signed : Signed
  pub canonical : Canonical
  pub body : Body
  pub declared_hash : Bytes
  pub payload_hash : Bytes
  pub body_taken : IsTaken p.sha256 i i' body
  pub body_held : i'.captured ≡ some body
  pub hash_declared :
      payload_value v.options.allow_unsigned_payload i.request.header ≡ ok declared_hash
  pub body_covered : Covers v.options.allow_unsigned_payload declared_hash body payload_hash
  pub claim_read : read_claim i.request ≡ ok claim
  pub claimed : IsClaimed v i.request endpoint claim.scope
  pub names_listed : IsNameList claim.authorization.signed_headers signed.names
  pub fresh : IsFresh p v now claim signed
  pub host_signed : verify_signed_host p i.request signed.names endpoint ≡ ok tt
  pub built : build_canonical_request p.sha256 i'.request signed.names payload_hash ≡ ok canonical
  pub signature_matches :
      hex_decode claim.authorization.signature
      ≡ some (expected_signature p v claim signed canonical)
  pub request_kept : r.request ≡ some i'
  pub endpoint_kept : r.endpoint ≡ endpoint
  pub region_kept : r.signing_region ≡ claim.scope.region
  pub service_kept : r.signing_service ≡ claim.scope.service

-- The facts that `verify_head` has checked.
pub record IsChecked (p : Platform) (v : Verifier) (now : ℕ) (i : Inbound) (endpoint : AwsEndpoint)
    (head : Head) : Type 0 where
  pub claim_read : read_claim i.request ≡ ok head.claim
  pub claimed : IsClaimed v i.request endpoint head.claim.scope
  pub names_listed : IsNameList head.claim.authorization.signed_headers head.signed.names
  pub fresh : IsFresh p v now head.claim head.signed
  pub host_signed : verify_signed_host p i.request head.signed.names endpoint ≡ ok tt

pub verify_head-IsChecked :
    (p : Platform) (v : Verifier) (cancelled : Bool) (now : ℕ) (i : Inbound)
    (endpoint : AwsEndpoint) (head : Head)
    → verify_head p v cancelled now i.request endpoint ≡ ok head
    → (check_target p cancelled i.request endpoint ≡ ok tt) × IsChecked p v now i endpoint head
unfolding verify_head
verify_head-IsChecked p v cancelled now i endpoint head h =
    let finish : Claim → Signed → Result SigError Head =
      λ c s. ok (record { claim = c; signed = s }) in
    let rest : Result SigError Head = authenticate v i.request endpoint >>= λ c.
    check_signed p v now i.request endpoint c >>= finish c in
    let (_, e0, h0) = ok_of_chain (check_target p cancelled i.request endpoint) (λ _. rest) h in
    let (claim, e1, h1) =
      ok_of_chain (authenticate v i.request endpoint)
        (λ c. check_signed p v now i.request endpoint c >>= finish c) h0 in
    let (signed, e2, h2) =
      ok_of_chain (check_signed p v now i.request endpoint claim) (finish claim) h1 in
    let (read, claimed) = authenticate-IsClaimed v i.request endpoint claim e1 in
    let (names, fresh, host) = check_signed-IsFresh p v now i.request endpoint claim signed e2 in
    let listed =
      parse_signed_headers-IsNameList claim.authorization.signed_headers signed.names names in
    ground (arith, e0, h2, read, claimed, listed, fresh, host)

-- The result of Verify, if there is one, is authentic.
abbrev Accepts :
    Platform
    → Verifier
    → ℕ
    → Inbound
    → AwsEndpoint
    → Result SigError (VerifiedRequest Inbound) × Inbound
    → Type 0
Accepts p v now i endpoint (err e, i') = Unit
Accepts p v now i endpoint (ok r, i') = IsAuthentic p v now i i' endpoint r

verify_payload-Accepts :
    (p : Platform) (v : Verifier) (now : ℕ) (endpoint : AwsEndpoint) (head : Head) (i : Inbound)
    (paid : Result SigError Payload × Inbound)
    → IsChecked p v now i endpoint head
    → HoldsPayload paid
    → CoversPayload v.options.allow_unsigned_payload i.request.header paid
    → TakesPayload p.sha256 i paid
    → Accepts p v now i endpoint (verify_payload p v endpoint head paid)
unfolding verify_payload reject
verify_payload-Accepts p v now endpoint head i (err e, j) checked held covered taken = tt
verify_payload-Accepts p v now endpoint head i (ok body, j) checked held (declared, read, covered)
      taken =
    elim (Result-cases (check_signature p v j.request head.claim head.signed body.hash)) [
      | inl (e, bad) ↦ rw (bad, verify_payload) tt
      | inr (_, good) ↦
          (let (canonical, built, matches) =
              check_signature-some p v j.request head.claim head.signed body.hash good in
            rw (good, verify_payload)
              (record {
                claim = head.claim;
                signed = head.signed;
                canonical = canonical;
                body = body.body;
                declared_hash = declared;
                payload_hash = body.hash;
                body_taken = record { hashed = taken.hashed; request_same = taken.request_same };
                body_held = held.0;
                hash_declared = read;
                body_covered = covered;
                claim_read = checked.claim_read;
                claimed = checked.claimed;
                names_listed = checked.names_listed;
                fresh = checked.fresh;
                host_signed = checked.host_signed;
                built = built;
                signature_matches = matches;
                request_kept = refl;
                endpoint_kept = refl;
                region_kept = refl;
                service_kept = refl;
              }))
    ]

verify-Accepts :
    (p : Platform) (v : Verifier) (cancelled : Bool) (now : ℕ) (i : Inbound)
    (endpoint : AwsEndpoint)
    → Accepts p v now i endpoint (verify p v cancelled now i endpoint)
unfolding verify reject
verify-Accepts p v cancelled now i endpoint =
    elim (Result-cases (verify_head p v cancelled now i.request endpoint)) [
      | inl (e, bad) ↦ rw (bad, verify) tt
      | inr (head, good) ↦
          rw (good, verify)
            (verify_payload-Accepts p v now endpoint head i
              (payload p.sha256 p.disk (body_options v) v.options.allow_unsigned_payload i)
              (verify_head-IsChecked p v cancelled now i endpoint head good).1
              (payload-HoldsPayload p.sha256 p.disk (body_options v)
                v.options.allow_unsigned_payload i)
              (payload-CoversPayload p.sha256 p.disk (body_options v)
                v.options.allow_unsigned_payload i)
              (payload-TakesPayload p.sha256 p.disk (body_options v)
                v.options.allow_unsigned_payload i))
    ]

-- A request that Verify accepts holds the credential that was given out and its token, for the signing
-- identity of the endpoint; is fresh, with its token and its host signed; and carries the signature
-- that the secret gives for its date, scope and canonical request with the hash of its payload: the
-- hash of the captured body that the request holds, which the header's hash is if there is one, or
-- UNSIGNED-PAYLOAD if the header has that and it is allowed; a body that was not captured before has
-- the SHA-256 of what it holds as its hash; what Verify returns names this request, changed at most in
-- its Content-Length, and this endpoint, Region and service.
pub verify-IsAuthentic :
    (p : Platform) (v : Verifier) (cancelled : Bool) (now : ℕ) (i i' : Inbound)
    (endpoint : AwsEndpoint) (r : VerifiedRequest Inbound)
    → verify p v cancelled now i endpoint ≡ (ok r, i')
    → IsAuthentic p v now i i' endpoint r
verify-IsAuthentic p v cancelled now i i' endpoint r h =
    subst (Accepts p v now i endpoint) h (verify-Accepts p v cancelled now i endpoint)
