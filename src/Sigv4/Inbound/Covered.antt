-- ===== src/Sigv4/Inbound/Covered.antt =====
-- internal/sigv4/verify.go: the payload hash that a request is signed with stands for its body.
use kordn.Base.{
  ◌≡◌, ◌∙◌, refl, Bool, true, [], ◌∷◌, inl, inr, ◌⊎◌, some, Option-cases, Bytes, arith, bytes_eq,
  bytes_eq→eq, length, codes, trim_space, Result, ok, err, Result-cases, ok_of_chain, ◌>>=◌,
}
use kordn.Sigv4.Request.{SigError, Header, Lookup, absent, found, duplicated, request_header}
use kordn.Sigv4.Canonical.{hex_encode}
use kordn.Sigv4.Body.{Body, BodyOptions, Disk}
use kordn.Sigv4.Inbound.{
  Inbound, Payload, payload, payload_value, payload_hash_of, check_payload_hash, check_content_type,
  match_payload, capture_request_body, unsigned_payload, hex_decode, same_digest, or_actual,
}

-- A hash that writes out the digest of a body, in upper or lower case.
pub record IsDigestOf (b : Body) (hash : Bytes) : Type 0 where
  pub digest : Bytes
  pub written : hex_decode hash ≡ some digest
  pub of_body : hex_decode (hex_encode b.hash) ≡ some digest
  pub sized : length digest ≡ 32

-- The hash for a body and the value of the header, which is empty if there is none: the header's
-- UNSIGNED-PAYLOAD where it is allowed, or the digest of the body, as the header has it if it has one.
abbrev pub Covers : Bool → Bytes → Body → Bytes → Type 0
Covers allow value b hash =
    ((value ≡ unsigned_payload) × (hash ≡ unsigned_payload) × (allow ≡ true))
    ⊎ (((value ≡ []) ⊎ (value ≡ hash)) × IsDigestOf b hash)

-- A payload that is returned has the hash for its body.
abbrev pub CoversPayload : Bool → Header → Result SigError Payload × Inbound → Type 0
CoversPayload allow header (err e, i) = Unit
CoversPayload allow header (ok paid, i) =
    (value : Bytes) × (payload_value allow header ≡ ok value)
    × Covers allow value paid.body paid.hash

check_payload_hash-allowed :
    (allow : Bool) (given value : Bytes)
    → check_payload_hash allow given ≡ ok value
    → bytes_eq value unsigned_payload ≡ true
    → allow ≡ true
unfolding check_payload_hash
check_payload_hash-allowed allow given value h same = ground arith

payload_hash_of-allowed :
    (allow : Bool) (lookup : Lookup) (value : Bytes)
    → payload_hash_of allow lookup ≡ ok value
    → bytes_eq value unsigned_payload ≡ true
    → allow ≡ true
unfolding payload_hash_of
payload_hash_of-allowed allow absent value h same =
    ground (arith, bytes_eq→eq value unsigned_payload)
payload_hash_of-allowed allow duplicated value h same = ground arith
payload_hash_of-allowed allow (found given) value h same =
    check_payload_hash-allowed allow (trim_space given) value h same

payload_value-allowed :
    (allow : Bool) (header : Header) (value : Bytes)
    → payload_value allow header ≡ ok value
    → bytes_eq value unsigned_payload ≡ true
    → allow ≡ true
unfolding payload_value
payload_value-allowed allow header value h same =
    let (_, _, hashed) =
      ok_of_chain (check_content_type (request_header header (codes "content-type")))
        (λ _. payload_hash_of allow (request_header header (codes "x-amz-content-sha256"))) h in
    payload_hash_of-allowed allow (request_header header (codes "x-amz-content-sha256")) value
      hashed same

same_digest-IsDigestOf :
    (b : Body) (hash : Bytes)
    → same_digest (hex_decode hash) (hex_decode (hex_encode b.hash)) ≡ true
    → IsDigestOf b hash
unfolding same_digest
same_digest-IsDigestOf b hash h = elim (Option-cases (hex_decode hash)) [
  | inl e ↦ absurd (ground (arith, e))
  | inr (provided, e) ↦ elim (Option-cases (hex_decode (hex_encode b.hash))) [
    | inl e' ↦ absurd (ground (arith, e, e'))
    | inr (actual, e') ↦ ground (arith, e, e', bytes_eq→eq provided actual)
  ]
]

match_payload-hash :
    (value : Bytes) (b : Body) (paid : Payload)
    → match_payload value b ≡ ok paid
    → ((bytes_eq value unsigned_payload ≡ true) × (paid.hash ≡ value))
      ⊎ ((paid.hash ≡ or_actual value (hex_encode b.hash))
          × (same_digest (hex_decode paid.hash) (hex_decode (hex_encode b.hash)) ≡ true)
          × (paid.body ≡ b))
unfolding match_payload
match_payload-hash value b paid h = ground arith

or_actual-cases : (value actual : Bytes) → ((value ≡ []) ⊎ (value ≡ or_actual value actual))
or_actual-cases [] actual = inl refl
or_actual-cases (c ∷ value) actual = inr refl

match_payload-Covers :
    (allow : Bool) (value : Bytes) (b : Body) (paid : Payload)
    → (bytes_eq value unsigned_payload ≡ true → allow ≡ true)
    → match_payload value b ≡ ok paid
    → Covers allow value paid.body paid.hash
match_payload-Covers allow value b paid allowed h = elim (match_payload-hash value b paid h) [
  | inl (same, selected) ↦
      (let e = bytes_eq→eq value unsigned_payload same in inl (e, selected ∙ e, allowed same))
  | inr (selected, digest, body) ↦ inr (
    rw selected (or_actual-cases value (hex_encode b.hash)),
    rw body (same_digest-IsDigestOf b paid.hash digest),
  )
]

matched-CoversPayload :
    (allow : Bool) (header : Header) (value : Bytes) (captured : Result SigError Body × Inbound)
    → payload_value allow header ≡ ok value
    → CoversPayload allow header (captured.0 >>= λ b. match_payload value b, captured.1)
matched-CoversPayload allow header value (err e, i) read = tt
matched-CoversPayload allow header value (ok b, i) read =
    elim (Result-cases (match_payload value b)) [
      | inl (_, bad) ↦ rw bad tt
      | inr (paid, good) ↦ rw good (
        value,
        read,
        match_payload-Covers allow value b paid (payload_value-allowed allow header value read)
            good,
      )
    ]

pub payload-CoversPayload :
    (sha256 : Bytes → Bytes) (disk : Disk) (options : BodyOptions) (allow : Bool) (i : Inbound)
    → CoversPayload allow i.request.header (payload sha256 disk options allow i)
unfolding payload
payload-CoversPayload sha256 disk options allow i =
    elim (Result-cases (payload_value allow i.request.header)) [
      | inl (_, bad) ↦ rw (bad, payload) tt
      | inr (value, good) ↦
          rw (good, payload)
            (matched-CoversPayload allow i.request.header value
              (capture_request_body sha256 disk options i) good)
    ]
