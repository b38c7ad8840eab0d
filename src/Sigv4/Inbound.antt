-- ===== src/Sigv4/Inbound.antt =====
-- internal/sigv4: a request with its body while it is verified: CaptureRequestBody and
-- closeRequestBody of payload.go, and the payload check of verify.go.
use kordn.Base.{
  ℕ, ◌+◌, ◌*◌, List, [], ◌∷◌, Bool, true, false, not, ◌&&◌, ◌||◌, Option, none, some, Bytes, codes,
  length, ◌==◌, ltb, if◌then◌else◌, bytes_eq, contains, split_n, trim_space, equal_fold, Result, ok,
  err, ◌>>=◌, ◌>>◌, fail_if,
}
use kordn.AwsRequest.Protocol.{PayloadHashMode}
use kordn.Sigv4.Escape.{hex_value}
use kordn.Sigv4.Header.{valid_payload_hash}
use kordn.Sigv4.Request.{
  SigError, new_error, malformed_request, unsupported_payload, invalid_signature, body_read_failure,
  HttpRequest, Header, Lookup, absent, found, duplicated, request_header,
}
use kordn.Sigv4.Canonical.{hex_encode}
use kordn.Sigv4.Body.{
  Body, BodyOptions, Disk, Reader, Outcome, no_body, new_body, or_default, is_negative, bad_limits,
  removed, too_large, read_failure, default_body_memory, default_body_spool,
}
pub mod Closed
pub mod Covered
pub mod Taken

-- `req.Body`: nil or http.NoBody, the connection's stream, or a reader of the captured body.
pub data Source : Type 0 where
  no_source view : Source
  stream : Reader → Source

-- A request with the body and the payload mode that its context holds.
pub record Inbound : Type 0 where
  pub request : HttpRequest
  pub source : Source
  pub captured : Option Body
  pub payload_mode : Option PayloadHashMode

-- `Body.Close`: the file is removed, unless os.Remove fails, and the memory dropped. A second close
-- changes nothing.
unfoldable pub close_body : Disk → Body → Body
close_body disk b = record b { memory = []; spool = removed disk b.spool; closed = true }

abbrev pub close_captured : Disk → Option Body → Option Body
close_captured disk none = none
close_captured disk (some b) = some (close_body disk b)

-- `closeRequestBody`; the error of the close is dropped.
unfoldable pub close_request_body : Disk → Inbound → Inbound
close_request_body disk i = record i {
  source = no_source;
  captured = close_captured disk i.captured;
}

abbrev pub reader_of : Source → Reader
reader_of no_source = no_body
reader_of view = no_body
reader_of (stream reader) = reader

-- A loop that has not ended would be a failure to read; `new_body` always ends.
abbrev pub settled : Option Outcome → Outcome
settled none = record { result = err read_failure; file = none }
settled (some outcome) = outcome

-- The length that the request announces afterwards.
abbrev pub announced : Option ℕ → Body → Option ℕ
announced none b = none
announced (some n) b = some b.size

abbrev pub exceeds : Option ℕ → ℕ → Bool
exceeds none limit = false
exceeds (some n) limit = ltb limit n

-- A captured body that can be read again.
unfoldable pub is_readable : Disk → Body → Bool
is_readable disk b = not b.closed && elim b.spool [ none ↦ true | some _ ↦ disk.opens ]

module _ (sha256 : Bytes → Bytes) (disk : Disk) where
  -- The body of a request that has not been captured, within limits that are chosen.
  unfoldable pub capture_new : ℕ → ℕ → Inbound → Result SigError Body × Inbound
  capture_new max_memory max_spool i =
      if exceeds i.request.content_length max_spool
      then (err too_large, record i { source = no_source })
      else elim (settled (
          new_body sha256 disk
            (record { max_in_memory_bytes = some max_memory; max_spool_bytes = some max_spool })
            (reader_of i.source))).result [
              | err e ↦ (err e, record i { source = no_source })
              | ok b ↦ (
                ok b,
                record i {
                  source = view;
                  captured = some b;
                  request = record i.request {
                    content_length = announced i.request.content_length b;
                  };
                },
              )
            ]

  -- `CaptureRequestBody`.
  unfoldable pub capture_request_body : BodyOptions → Inbound → Result SigError Body × Inbound
  capture_request_body options i = elim i.captured [
    | some b ↦ if is_readable disk b then (ok b, record i { source = view }) else (
      err (new_error body_read_failure "request body is unavailable"),
      record i { source = no_source },
    )
    | none ↦
        if is_negative options.max_in_memory_bytes || is_negative options.max_spool_bytes
        then (err bad_limits, i)
        else capture_new (or_default options.max_in_memory_bytes default_body_memory)
            (or_default options.max_spool_bytes default_body_spool) i
  ]

-- `strings.SplitN(value, ";", 2)[0]`, trimmed.
unfoldable pub media_type : Bytes → Bytes
media_type value = elim (split_n value b';' 2) [ [] ↦ [] | first ∷ rest ↦ trim_space first ]

unfoldable pub is_event_stream_content_type : Bytes → Bool
is_event_stream_content_type value =
    equal_fold (media_type value) (codes "application/vnd.amazon.eventstream")
    || equal_fold (media_type value) (codes "application/x-amz-event-stream")

unfoldable pub check_content_type : Lookup → Result SigError (Unit {0})
check_content_type duplicated = err (new_error malformed_request "content type is duplicated")
check_content_type absent = ok tt
check_content_type (found value) =
    fail_if (is_event_stream_content_type value)
      (new_error unsupported_payload "event stream payloads are unsupported")

abbrev pub unsigned_payload : Bytes
unsigned_payload = codes "UNSIGNED-PAYLOAD"

abbrev pub streaming_payloads : List Bytes
streaming_payloads =
    codes "STREAMING-AWS4-HMAC-SHA256-PAYLOAD"
    ∷ codes "STREAMING-AWS4-HMAC-SHA256-PAYLOAD-TRAILER"
    ∷ codes "AWS4-HMAC-SHA256-PAYLOAD"
    ∷ codes "AWS4-HMAC-SHA256-PAYLOAD-TRAILER"
    ∷ []

-- The switch on a payload hash that is present.
unfoldable pub check_payload_hash : Bool → Bytes → Result SigError Bytes
check_payload_hash allow_unsigned value =
    if bytes_eq value unsigned_payload
    then (do
      fail_if (not allow_unsigned) (new_error unsupported_payload "unsigned payloads are disabled")
      ok value)
    else if contains streaming_payloads value
    then err (new_error unsupported_payload "streaming payloads are unsupported")
    else if length value == 0
    then err (new_error unsupported_payload "payload hash is empty")
    else (do
      fail_if (not (valid_payload_hash value))
          (new_error unsupported_payload "payload hash encoding is unsupported")
      ok value)

unfoldable pub payload_hash_of : Bool → Lookup → Result SigError Bytes
payload_hash_of allow_unsigned duplicated =
    err (new_error malformed_request "payload hash header is duplicated")
payload_hash_of allow_unsigned absent = ok []
payload_hash_of allow_unsigned (found value) = check_payload_hash allow_unsigned (trim_space value)

-- The checks of `payload` in front of the capture; the value is empty when the header is absent.
unfoldable pub payload_value : Bool → Header → Result SigError Bytes
payload_value allow_unsigned header = do
  check_content_type (request_header header (codes "content-type"))
  payload_hash_of allow_unsigned (request_header header (codes "x-amz-content-sha256"))

-- hex.DecodeString.
unfoldable pub hex_decode : Bytes → Option Bytes
hex_decode [] = some []
hex_decode (a ∷ []) = none
hex_decode (a ∷ b ∷ s) =
    let rest = hex_decode s in
    elim (hex_value a) [
      | none ↦ none
      | some h ↦ elim (hex_value b) [
        | none ↦ none
        | some l ↦ elim rest [ none ↦ none | some more ↦ some ((h * 16 + l) ∷ more) ]
      ]
    ]

-- Two hexadecimal texts of one digest of 32 bytes.
unfoldable pub same_digest : Option Bytes → Option Bytes → Bool
same_digest (some provided) (some actual) =
    length provided == 32 && length actual == 32 && bytes_eq provided actual
same_digest _ _ = false

abbrev pub empty_payload_hash : Bytes
empty_payload_hash = codes "e3b0c44298fc1c149afbf4c8996fb92427ae41e4649b934ca495991b7852b855"

pub record Payload : Type 0 where
  pub body : Body
  pub hash : Bytes
  pub mode : PayloadHashMode

abbrev pub or_actual : Bytes → Bytes → Bytes
or_actual [] actual = actual
or_actual (c ∷ value) actual = c ∷ value

-- The comparison of a captured body with the hash in the header.
unfoldable pub match_payload : Bytes → Body → Result SigError Payload
match_payload value body =
    if bytes_eq value unsigned_payload
    then ok (record { body = body; hash = value; mode = PayloadHashMode.unsigned })
    else (let actual = hex_encode body.hash in
        let selected = or_actual value actual in
        do
          fail_if (not (same_digest (hex_decode selected) (hex_decode actual)))
              (new_error invalid_signature "payload hash does not match request body")
          ok (record {
            body = body;
            hash = selected;
            mode =
                if body.size == 0 && equal_fold selected empty_payload_hash
                then PayloadHashMode.empty_payload
                else PayloadHashMode.sha256;
          }))

-- `payload`.
unfoldable pub payload :
    (sha256 : Bytes → Bytes)
    → Disk
    → BodyOptions
    → Bool
    → Inbound
    → Result SigError Payload × Inbound
payload sha256 disk options allow_unsigned i =
    elim (payload_value allow_unsigned i.request.header) [
      | err e ↦ (err e, close_request_body disk i)
      | ok value ↦
          let (captured, i') = capture_request_body sha256 disk options i in
          (captured >>= λ b. match_payload value b, i')
    ]
