-- ===== src/Sigv4/Verifier.antt =====
-- internal/sigv4/verify.go: the Verifier with its options, and what it uses.
use kordn.Base.{
  ℕ, [], ◌∷◌, Bool, ◌||◌, Option, Bytes, length, leb, ltb, contains_any, Result, ok, ◌>>◌, fail_if,
}
use kordn.AwsRequest.Endpoint.{is_empty}
use kordn.Sigv4.Request.{SigError, new_error, malformed_request, malformed_credential}
use kordn.Sigv4.Body.{Disk}

-- credentials.FakeCredential.
pub record FakeCredential : Type 0 where
  pub access_key_id : Bytes
  pub secret_access_key : Bytes
  pub session_token : Bytes

-- A duration in nanoseconds. One that is not positive stands as zero.
pub record VerifyOptions : Type 0 where
  pub max_clock_skew : ℕ
  pub max_in_memory_body_bytes : ℕ
  pub max_spool_body_bytes : ℕ
  pub allow_unsigned_payload : Bool

pub record Verifier : Type 0 where
  pub fake : FakeCredential
  pub options : VerifyOptions

-- `validateFakeCredential`.
unfoldable pub validate_fake_credential : FakeCredential → Result SigError (Unit {0})
validate_fake_credential fake = do
  fail_if
      (ltb (length fake.access_key_id) 16
        || ltb 128 (length fake.access_key_id)
        || contains_any fake.access_key_id (0 ∷ 13 ∷ 10 ∷ b' ' ∷ b'/' ∷ []))
      (new_error malformed_credential "fake access key is malformed")
  fail_if
      (is_empty fake.secret_access_key
        || ltb 512 (length fake.secret_access_key)
        || contains_any fake.secret_access_key (0 ∷ 13 ∷ 10 ∷ []))
      (new_error malformed_credential "fake secret is malformed")
  fail_if
      (is_empty fake.session_token
        || ltb 4096 (length fake.session_token)
        || contains_any fake.session_token (0 ∷ 13 ∷ 10 ∷ []))
      (new_error malformed_credential "fake session token is malformed")
  ok tt

-- `24*time.Hour`.
abbrev pub max_skew : ℕ
max_skew = 86400000000000

-- `NewVerifier`, with the options that are selected.
unfoldable pub new_verifier : FakeCredential → VerifyOptions → Result SigError Verifier
new_verifier fake options = do
  validate_fake_credential fake
  fail_if (leb options.max_clock_skew 0 || ltb max_skew options.max_clock_skew)
      (new_error malformed_request "clock skew limit is invalid")
  fail_if
      (leb options.max_in_memory_body_bytes 0
        || leb options.max_spool_body_bytes 0
        || ltb options.max_spool_body_bytes options.max_in_memory_body_bytes)
      (new_error malformed_request "body limits are invalid")
  ok (record { fake = fake; options = options })

-- What the verifier uses of crypto, time, net/http, golang.org/x/net and the file system. An instant
-- counts nanoseconds; `zero_time` is the one for which IsZero holds.
pub record Platform : Type 0 where
  pub sha256 : Bytes → Bytes
  pub hmac_sha256 : Bytes → Bytes → Bytes
  pub to_ascii : Bytes → Option Bytes
  pub parse_amz_date : Bytes → Option ℕ
  pub parse_http_date : Bytes → Option ℕ
  pub date_text : ℕ → Bytes
  pub stamp_text : ℕ → Bytes
  pub zero_time : ℕ
  pub disk : Disk
