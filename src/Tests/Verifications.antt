-- ===== src/Tests/Verifications.antt =====
-- A signed request, and what the verifier makes of it.
use kordn.Base.{
  ◌≡◌, refl, [], ◌∷◌, ◌++◌, true, false, none, some, Bytes, codes, replicate, length, ok, err,
  if◌then◌else◌, ◌==◌,
}
use kordn.AwsRequest.Protocol.{PayloadHashMode}
use kordn.AwsRequest.Endpoint.{AwsEndpoint, EndpointScope}
use kordn.AwsRequest.Verified.{VerifiedRequest, validate_verified}
use kordn.Sigv4.Request.{SigError, new_error, stale_timestamp, HttpRequest, Header}
use kordn.Sigv4.Authorization.{CredentialScope}
use kordn.Sigv4.Body.{Disk, Body, Reader, no_error, eof}
use kordn.Sigv4.Inbound.{Inbound, stream, view}
use kordn.Sigv4.Verifier.{Platform, Verifier}
use kordn.Sigv4.Verify.{verify, verified_request}
use kordn.Sigv4.Verify.Authentic.{IsAuthentic, verify-IsAuthentic}
use kordn.Sigv4.Verify.Contract.{verify-validate_verified}
use kordn.Sigv4.Verify.Outcomes.{Disposes, verify-Disposes}
use kordn.Tests.Signatures.{signatures}

abbrev disk : Disk
disk = record {
  creates = true;
  chmods = true;
  is_private = true;
  copies = true;
  writes = λ round. true;
  rewinds = true;
  opens = true;
  removes = true;
}

-- A platform whose digests are easy to write down.
abbrev pub platform : Platform
platform = record {
  sha256 = λ s. replicate 32 (length s);
  hmac_sha256 = λ key value. replicate 32 0xAB;
  to_ascii = λ host. some host;
  parse_amz_date = λ text. some 1700000000;
  parse_http_date = λ text. none;
  date_text = λ time. codes "20260724";
  stamp_text = λ time. codes "20260724T000000Z";
  zero_time = 0;
  disk = disk;
}

abbrev pub verifier : Verifier
verifier = record {
  fake = record {
    access_key_id = codes "AKIDKORDNKORDNKO";
    secret_access_key = codes "secret";
    session_token = codes "token";
  };
  options = record {
    max_clock_skew = 300000000000;
    max_in_memory_body_bytes = 8;
    max_spool_body_bytes = 16;
    allow_unsigned_payload = false;
  };
}

abbrev pub queue_endpoint : AwsEndpoint
queue_endpoint = record {
  partition = codes "aws";
  host = codes "sqs.eu-west-1.amazonaws.com";
  service = codes "sqs";
  signing_service = codes "sqs";
  signing_region = codes "eu-west-1";
  region = codes "eu-west-1";
  global = false;
  scope = EndpointScope.regional;
  fips = false;
  dual_stack = false;
  account_id = [];
}

abbrev stale : SigError
stale = new_error stale_timestamp "request timestamp is outside the allowed skew"

abbrev authorization : Bytes
authorization =
    codes "AWS4-HMAC-SHA256 Credential=AKIDKORDNKORDNKO/20260724/eu-west-1/sqs/aws4_request, "
    ++ codes "SignedHeaders=host;x-amz-date;x-amz-security-token, Signature="
    ++ codes "abababababababababababababababababababababababababababababababab"

abbrev header : Header
header =
    (codes "Authorization", authorization ∷ [])
    ∷ (codes "X-Amz-Date", codes "20260724T000000Z" ∷ [])
    ∷ (codes "X-Amz-Security-Token", codes "token" ∷ [])
    ∷ (codes "Content-Type", codes "application/x-amz-json-1.0" ∷ [])
    ∷ []

abbrev http_request : HttpRequest
http_request = record {
  method = codes "POST";
  host = codes "sqs.eu-west-1.amazonaws.com:443";
  url = some (record {
    has_user = false;
    opaque_part = [];
    host = [];
    path = codes "/";
    raw_path = [];
    raw_query = [];
  });
  header = header;
  content_length = some 2;
}

-- A body of two bytes.
abbrev reader : Reader
reader round buffer =
    if round == 0
    then record { bytes = codes "hi"; error = no_error }
    else record { bytes = []; error = eof }

abbrev pub inbound : Inbound
inbound = record {
  request = http_request;
  source = stream reader;
  captured = none;
  payload_mode = none;
}

abbrev body : Body
body = record { memory = codes "hi"; spool = none; size = 2; hash = replicate 32 2; closed = false }

abbrev pub inbound_after : Inbound
inbound_after = record {
  request = http_request;
  source = view;
  captured = some body;
  payload_mode = some PayloadHashMode.sha256;
}

abbrev scope : CredentialScope
scope = record {
  access_key = codes "AKIDKORDNKORDNKO";
  date = codes "20260724";
  region = codes "eu-west-1";
  service = codes "sqs";
}

abbrev pub verified : VerifiedRequest Inbound
verified = verified_request inbound_after queue_endpoint scope PayloadHashMode.sha256

accepted :
    verify platform verifier false 1700000001 inbound queue_endpoint ≡ (ok verified, inbound_after)
unfolding signatures
accepted = refl

-- Too late by five minutes and a nanosecond.
refused : (verify platform verifier false 301700000001 inbound queue_endpoint).0 ≡ err stale
unfolding signatures
refused = refl

verify-IsAuthentic_example :
    IsAuthentic platform verifier 1700000001 inbound inbound_after queue_endpoint verified
verify-IsAuthentic_example =
    verify-IsAuthentic platform verifier false 1700000001 inbound inbound_after queue_endpoint
      verified accepted

verify-validate_verified_example : validate_verified verified ≡ ok tt
verify-validate_verified_example =
    verify-validate_verified platform verifier false 1700000001 inbound inbound_after queue_endpoint
      verified accepted

verify-Disposes_example :
    Disposes disk (verify platform verifier true 1700000001 inbound queue_endpoint)
verify-Disposes_example = verify-Disposes platform verifier true 1700000001 inbound queue_endpoint
