-- ===== src/Sigv4/Inbound/Taken.antt =====
-- internal/sigv4/payload.go: the capture of a body keeps the request, and hashes what it holds.
use kordn.Base.{
  ℕ, ◌≡◌, ◌∙◌, refl, ap, sym, Bool-cases, none, some, Option, Option-cases, inl, inr, ◌⊎◌, Bytes,
  arith, Result, ok, err, Result-cases, ◌>>=◌, ◌||◌, Bool,
}
use kordn.Sigv4.Request.{SigError}
use kordn.Sigv4.Body.{
  Body, BodyOptions, Disk, Outcome, new_body, or_default, is_negative, default_body_memory,
  default_body_spool,
}
use kordn.Sigv4.Body.Captured.{held}
use kordn.Sigv4.Body.Rounds.{Settles, new_body-Settles}
use kordn.Sigv4.Inbound.{
  Inbound, Payload, payload, payload_value, match_payload, capture_request_body, capture_new,
  is_readable, exceeds, settled, reader_of,
}
use kordn.Sigv4.Inbound.Closed.{match_payload-body}

-- A body that was captured before, or whose hash is that of the bytes it holds; and a request that
-- differs from the one before at most in its Content-Length.
pub record IsTaken (sha256 : Bytes → Bytes) (i i' : Inbound) (b : Body) : Type 0 where
  pub hashed : (i.captured ≡ some b) ⊎ (b.hash ≡ sha256 (held b.spool b.memory))
  pub request_same : i'.request ≡ record i.request { content_length = i'.request.content_length }

abbrev Takes : (Bytes → Bytes) → Inbound → Result SigError Body × Inbound → Type 0
Takes sha256 i (err e, i') = Unit
Takes sha256 i (ok b, i') = IsTaken sha256 i i' b

abbrev pub TakesPayload : (Bytes → Bytes) → Inbound → Result SigError Payload × Inbound → Type 0
TakesPayload sha256 i (err e, i') = Unit
TakesPayload sha256 i (ok paid, i') = IsTaken sha256 i i' paid.body

module _ (sha256 : Bytes → Bytes) (disk : Disk) where
  result-hash :
      (max_memory max_spool : ℕ) (result : Result SigError Body) (file : Option Bytes) (b : Body)
      → Settles sha256 disk max_memory max_spool (some (record { result = result; file = file }))
      → result ≡ ok b
      → b.hash ≡ sha256 (held b.spool b.memory)
  result-hash max_memory max_spool (err e) file b h same = absurd (ground (arith, same))
  result-hash max_memory max_spool (ok b') file b h same =
      let one : b' ≡ b = ground (arith, same) in
      ap (λ (x : Body). x.hash) (sym one)
      ∙ h.hashed
      ∙ ap (λ (x : Body). sha256 (held x.spool x.memory)) one

  settled-hash :
      (max_memory max_spool : ℕ) (outcome : Option Outcome) (b : Body)
      → Settles sha256 disk max_memory max_spool outcome
      → (settled outcome).result ≡ ok b
      → b.hash ≡ sha256 (held b.spool b.memory)
  settled-hash max_memory max_spool none b h same = absurd (ground (arith, h))
  settled-hash max_memory max_spool (some outcome) b h same =
      result-hash max_memory max_spool outcome.result outcome.file b h same

  capture_new-Takes :
      (max_memory max_spool : ℕ) (i : Inbound)
      → Takes sha256 i (capture_new sha256 disk max_memory max_spool i)
  unfolding capture_new
  capture_new-Takes max_memory max_spool i =
      let options : BodyOptions = record {
        max_in_memory_bytes = some max_memory;
        max_spool_bytes = some max_spool;
      } in
      let outcome = new_body sha256 disk options (reader_of i.source) in
      elim (Bool-cases (exceeds i.request.content_length max_spool)) [
        | inl e ↦ rw (e, capture_new) tt
        | inr e ↦ elim (Result-cases (settled outcome).result) [
          | inl (_, bad) ↦ rw (e, bad, capture_new) tt
          | inr (b, good) ↦
              rw (e, good, capture_new)
                (record {
                  hashed = inr (
                      settled-hash (or_default (some max_memory) default_body_memory)
                        (or_default (some max_spool) default_body_spool) outcome b
                        (new_body-Settles sha256 disk options (reader_of i.source)) good);
                  request_same = refl;
                })
        ]
      ]

  capture_request_body-Takes :
      (options : BodyOptions) (before i : Inbound)
      → before ≡ i
      → Takes sha256 before (capture_request_body sha256 disk options i)
  unfolding capture_request_body
  capture_request_body-Takes options before i same = elim (Option-cases i.captured) [
    | inl e ↦
        elim (Bool-cases
          (is_negative options.max_in_memory_bytes || is_negative options.max_spool_bytes)) [
            | inl bad ↦ rw (e, bad, capture_request_body) tt
            | inr good ↦
                rw (e, good, capture_request_body, same)
                  (capture_new-Takes (or_default options.max_in_memory_bytes default_body_memory)
                    (or_default options.max_spool_bytes default_body_spool) i)
          ]
    | inr (b, e) ↦ elim (Bool-cases (is_readable disk b)) [
      | inl readable ↦
          rw (e, readable, capture_request_body)
            (record { hashed = inl (rw same e); request_same = rw same refl })
      | inr closed ↦ rw (e, closed, capture_request_body) tt
    ]
  ]

matched-TakesPayload :
    (sha256 : Bytes → Bytes) (value : Bytes) (i : Inbound)
    (captured : Result SigError Body × Inbound)
    → Takes sha256 i captured
    → TakesPayload sha256 i (captured.0 >>= λ b. match_payload value b, captured.1)
matched-TakesPayload sha256 value i (err e, i') h = tt
matched-TakesPayload sha256 value i (ok b, i') h = elim (Result-cases (match_payload value b)) [
  | inl (_, bad) ↦ rw bad tt
  | inr (paid, good) ↦ rw good (rw (match_payload-body value b paid good).0 h)
]

pub payload-TakesPayload :
    (sha256 : Bytes → Bytes) (disk : Disk) (options : BodyOptions) (allow : Bool) (i : Inbound)
    → TakesPayload sha256 i (payload sha256 disk options allow i)
unfolding payload
payload-TakesPayload sha256 disk options allow i =
    elim (Result-cases (payload_value allow i.request.header)) [
      | inl (_, bad) ↦ rw (bad, payload) tt
      | inr (value, good) ↦
          rw (good, payload)
            (matched-TakesPayload sha256 value i (capture_request_body sha256 disk options i)
              (capture_request_body-Takes sha256 disk options i i refl))
    ]
