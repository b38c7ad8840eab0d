-- ===== src/Tests/Signed.antt =====
-- Hosts, headers, authorizations and bodies.
use kordn.Base.{
  ◌≡◌, ◌↔◌, refl, List, [], ◌∷◌, true, false, Bool, Option, none, some, Bytes, codes, replicate, ok,
  err, if◌then◌else◌, ltb,
}
use kordn.AwsRequest.Authority.{normalize_endpoint_host}
use kordn.AwsRequest.Authority.Normal.{IsNormal, normalize_endpoint_host-IsNormal}
use kordn.Sigv4.Authorization.{
  Authorization, CredentialScope, parse_authorization, parse_credential, parse_signed_headers,
  unsorted,
}
use kordn.Sigv4.Authorization.Grammar.{authorization_text, IsAuthorization}
use kordn.Sigv4.Authorization.Roundtrip.{parse_authorization_iff}
use kordn.Sigv4.Authorization.Scope.{credential_text, IsScope, parse_credential_iff}
use kordn.Sigv4.Body.{Disk, Reader, BodyOptions, no_error, eof, new_body, or_default}
use kordn.Sigv4.Body.Rounds.{Settles, new_body-Settles}
use kordn.Tests.Signatures.{signatures}

abbrev sqs_host : Bytes
sqs_host = codes "sqs.eu-west-1.amazonaws.com"

host_normal :
    normalize_endpoint_host some (codes "SQS.eu-west-1.amazonaws.com.:443") ≡ ok (sqs_host, 443)
unfolding signatures
host_normal = refl

normalize_endpoint_host-IsNormal_example : IsNormal sqs_host 443
normalize_endpoint_host-IsNormal_example =
    normalize_endpoint_host-IsNormal some (codes "SQS.eu-west-1.amazonaws.com.:443") sqs_host 443
      host_normal

abbrev date_field : Bytes × List Bytes
date_field = (codes "Date", codes "now" ∷ [])

abbrev token_field : Bytes × List Bytes
token_field = (codes "X-Amz-Security-Token", codes "t" ∷ [])

abbrev signed_header : Authorization
signed_header = record {
  algorithm = codes "AWS4-HMAC-SHA256";
  credential = codes "A/20260724/eu-west-1/sqs/aws4_request";
  signed_headers = codes "host;x-amz-date";
  signature = replicate 64 b'a';
}

header_read : parse_authorization (authorization_text signed_header) ≡ ok signed_header
unfolding signatures
header_read = refl

parse_authorization_iff_example :
    (parse_authorization (authorization_text signed_header) ≡ ok signed_header) ↔ (
      (authorization_text signed_header ≡ authorization_text signed_header)
      × IsAuthorization signed_header)
parse_authorization_iff_example =
    parse_authorization_iff (authorization_text signed_header) signed_header

abbrev scope : CredentialScope
scope = record {
  access_key = codes "A";
  date = codes "20260724";
  region = codes "eu-west-1";
  service = codes "sqs";
}

parse_credential_iff_example :
    (parse_credential signed_header.credential ≡ ok scope)
    ↔ ((signed_header.credential ≡ credential_text scope) × IsScope scope)
parse_credential_iff_example = parse_credential_iff signed_header.credential scope

abbrev names : List Bytes
names = codes "host" ∷ codes "x-amz-date" ∷ []

names_read : parse_signed_headers (codes "host;x-amz-date") ≡ ok names
unfolding signatures
names_read = refl

names_unsorted : parse_signed_headers (codes "x-amz-date;host") ≡ err unsorted
unfolding signatures
names_unsorted = refl

abbrev small : BodyOptions
small = record { max_in_memory_bytes = some 2; max_spool_bytes = some 4 }

abbrev good_disk : Disk
good_disk = record {
  creates = true;
  chmods = true;
  is_private = true;
  copies = true;
  writes = λ round. true;
  rewinds = true;
  opens = true;
  removes = true;
}

-- A reader of three bytes, one in each round.
abbrev three_bytes : Reader
three_bytes round buffer =
    if ltb round 3
    then record { bytes = round ∷ []; error = no_error }
    else record { bytes = []; error = eof }

-- The third byte moves the body to a file.
spooled :
    new_body (λ s. s) good_disk small three_bytes
    ≡ some (record {
      result = ok (record {
        memory = [];
        spool = some (0 ∷ 1 ∷ 2 ∷ []);
        size = 3;
        hash = 0 ∷ 1 ∷ 2 ∷ [];
        closed = false;
      });
      file = some (0 ∷ 1 ∷ 2 ∷ []);
    })
unfolding signatures
spooled = refl

new_body-Settles_example :
    Settles (λ s. s) good_disk 2 4 (new_body (λ s. s) good_disk small three_bytes)
unfolding or_default
new_body-Settles_example = new_body-Settles (λ s. s) good_disk small three_bytes

-- The file of a body whose bytes cannot be written, on a disk that removes the file or not.
abbrev left_file : Bool → Option Bytes
left_file removes =
    elim (new_body (λ s. s) (record good_disk { writes = λ round. false; removes = removes }) small
      three_bytes) [ none ↦ none | some outcome ↦ outcome.file ]

file_removed : left_file true ≡ none
unfolding signatures
file_removed = refl

file_left : left_file false ≡ some (0 ∷ 1 ∷ [])
unfolding signatures
file_left = refl
