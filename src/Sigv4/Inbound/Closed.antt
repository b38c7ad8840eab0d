-- ===== src/Sigv4/Inbound/Closed.antt =====
-- internal/sigv4/payload.go: the request holds the body that its capture returns.
use kordn.Base.{
  ℕ, ◌≡◌, ◌∙◌, refl, ap, sym, Bool, true, Bool-cases, some, Option-cases, inl, inr, Bytes, arith,
  Result, ok, err, Result-cases, ◌>>=◌, ◌||◌,
}
use kordn.AwsRequest.Protocol.{payload_mode_supported}
use kordn.Sigv4.Request.{SigError}
use kordn.Sigv4.Body.{
  Body, BodyOptions, Disk, new_body, or_default, is_negative, default_body_memory,
  default_body_spool,
}
use kordn.Sigv4.Inbound.{
  Inbound, Payload, payload, payload_value, match_payload, capture_request_body, capture_new,
  is_readable, exceeds, settled, reader_of,
}

-- A body that is returned is the one that the request holds; the mode of a payload is supported.
abbrev Holds : Result SigError Body × Inbound → Type 0
Holds (err e, i) = Unit
Holds (ok b, i) = i.captured ≡ some b

abbrev pub HoldsPayload : Result SigError Payload × Inbound → Type 0
HoldsPayload (err e, i) = Unit
HoldsPayload (ok paid, i) =
    (i.captured ≡ some paid.body) × (payload_mode_supported paid.mode ≡ true)

module _ (sha256 : Bytes → Bytes) (disk : Disk) where
  capture_new-Holds :
      (max_memory max_spool : ℕ) (i : Inbound)
      → Holds (capture_new sha256 disk max_memory max_spool i)
  unfolding capture_new
  capture_new-Holds max_memory max_spool i =
      elim (Bool-cases (exceeds i.request.content_length max_spool)) [
        | inl e ↦ rw (e, capture_new) tt
        | inr e ↦
            elim (Result-cases
              (settled (
                new_body sha256 disk
                  (record {
                    max_in_memory_bytes = some max_memory;
                    max_spool_bytes = some max_spool;
                  })
                  (reader_of i.source))).result) [
                    | inl (_, bad) ↦ rw (e, bad, capture_new) tt
                    | inr (b, good) ↦ rw (e, good, capture_new) refl
                  ]
      ]

  capture_request_body-Holds :
      (options : BodyOptions) (i : Inbound) → Holds (capture_request_body sha256 disk options i)
  unfolding capture_request_body
  capture_request_body-Holds options i = elim (Option-cases i.captured) [
    | inl e ↦
        elim (Bool-cases
          (is_negative options.max_in_memory_bytes || is_negative options.max_spool_bytes)) [
            | inl bad ↦ rw (e, bad, capture_request_body) tt
            | inr good ↦
                rw (e, good, capture_request_body)
                  (capture_new-Holds (or_default options.max_in_memory_bytes default_body_memory)
                    (or_default options.max_spool_bytes default_body_spool) i)
          ]
    | inr (b, e) ↦ elim (Bool-cases (is_readable disk b)) [
      | inl readable ↦ rw (e, readable, capture_request_body) e
      | inr closed ↦ rw (e, closed, capture_request_body) tt
    ]
  ]

pub match_payload-body :
    (value : Bytes) (b : Body) (paid : Payload)
    → match_payload value b ≡ ok paid
    → (paid.body ≡ b) × (payload_mode_supported paid.mode ≡ true)
unfolding match_payload payload_mode_supported
match_payload-body value b paid h = ground arith

matched-HoldsPayload :
    (value : Bytes) (captured : Result SigError Body × Inbound)
    → Holds captured
    → HoldsPayload (captured.0 >>= λ b. match_payload value b, captured.1)
matched-HoldsPayload value (err e, i) h = tt
matched-HoldsPayload value (ok b, i) h = elim (Result-cases (match_payload value b)) [
  | inl (_, bad) ↦ rw bad tt
  | inr (paid, good) ↦ rw good (
      let (same, supported) = match_payload-body value b paid good in
      (h ∙ ap some (sym same), supported))
]

pub payload-HoldsPayload :
    (sha256 : Bytes → Bytes) (disk : Disk) (options : BodyOptions) (allow : Bool) (i : Inbound)
    → HoldsPayload (payload sha256 disk options allow i)
unfolding payload
payload-HoldsPayload sha256 disk options allow i =
    elim (Result-cases (payload_value allow i.request.header)) [
      | inl (_, bad) ↦ rw (bad, payload) tt
      | inr (value, good) ↦
          rw (good, payload)
            (matched-HoldsPayload value (capture_request_body sha256 disk options i)
              (capture_request_body-Holds sha256 disk options i))
    ]
