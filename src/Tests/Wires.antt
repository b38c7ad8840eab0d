-- ===== src/Tests/Wires.antt =====
-- Escapes, evidence and denials.
use kordn.Base.{
  [], ◌∷◌, true, Option, none, some, Bytes, codes, ◌≡◌, ◌⊎◌, refl, All, all, ltb, ltb→lt, ◌<◌,
  arith,
}
use kordn.AwsRequest.Protocol.{AwsProtocol, protocol_supported}
use kordn.AwsRequest.Evidence.{
  DecodeFailureEvidence, EvidenceCertainty, GoError, plain, wrapped, decode_failure,
  unknown_evidence, evidence_from_error, attach_evidence,
}
use kordn.AwsRequest.Evidence.Valid.{is_valid}
use kordn.AwsRequest.Evidence.Merge.{Extends, ExtendsAny, conflicts, attach_evidence-Extends}
use kordn.AwsError.Reason.{explicit_deny, other_reason}
use kordn.AwsError.Denial.{Classification, Response, Denial, Body, encode}
use kordn.AwsError.Denial.Local.{IsNormal, Refuses, message_of, encode-Refuses}
use kordn.Sigv4.Escape.{canonical_escaped_path, aws_encode, percent_decode_query}
use kordn.Sigv4.Escape.Queries.{percent_decode-aws_encode}
use kordn.Sigv4.Escape.Steps.{IsCanonical}
use kordn.Sigv4.Escape.Paths.{canonical_escaped_path-IsCanonical}
use kordn.Tests.Program.{wires}

bytes_checked : (s : Bytes) → all (λ c. ltb c 256) s ≡ true → All (λ c. c < 256) s
bytes_checked [] h = tt
bytes_checked (c ∷ s) h = (ltb→lt c 256 (ground arith), bytes_checked s (ground arith))

abbrev pair : Bytes
pair = codes "a+b/&=~"

pair_encoded : aws_encode pair ≡ codes "a%2Bb%2F%26%3D~"
unfolding wires
pair_encoded = refl

percent_decode-aws_encode_example : percent_decode_query (aws_encode pair) ≡ some pair
percent_decode-aws_encode_example = percent_decode-aws_encode pair (bytes_checked pair refl)

abbrev path : Bytes
path = codes "/a%2fb c/%7e"

abbrev path_canonical : Bytes
path_canonical = codes "/a%2Fb%20c/%7E"

path_read : canonical_escaped_path path ≡ some path_canonical
unfolding wires
path_read = refl

path_refused : canonical_escaped_path (codes "/a%2") ≡ none
unfolding wires
path_refused = refl

canonical_escaped_path-IsCanonical_example : IsCanonical path path_canonical
canonical_escaped_path-IsCanonical_example =
    canonical_escaped_path-IsCanonical path path_canonical (bytes_checked path refl) path_read

abbrev protocol_evidence : DecodeFailureEvidence
protocol_evidence = record unknown_evidence {
  service = codes "sqs";
  protocol = AwsProtocol.json10;
  protocol_available = true;
  protocol_certainty = EvidenceCertainty.authoritative;
}

abbrev operation_evidence : DecodeFailureEvidence
operation_evidence = record protocol_evidence {
  operation = codes "SendMessage";
  operation_available = true;
  operation_certainty = EvidenceCertainty.validated;
}

abbrev failure : GoError
failure = wrapped (codes "decode") (decode_failure protocol_evidence (plain (codes "body")))

attached :
    evidence_from_error (attach_evidence (some failure) operation_evidence)
    ≡ some operation_evidence
unfolding wires
attached = refl

contradicted :
    evidence_from_error
      (attach_evidence (some failure) (record operation_evidence { service = codes "s3" }))
    ≡ some unknown_evidence
unfolding wires
contradicted = refl

operation_evidence_valid : is_valid operation_evidence ≡ true
unfolding wires
operation_evidence_valid = refl

attach_evidence-Extends_example :
    (z : DecodeFailureEvidence) × (evidence_from_error
        (attach_evidence (some failure) operation_evidence)
      ≡ some z)
    × (((conflicts (evidence_from_error (some failure)) operation_evidence ≡ true)
          × (z ≡ unknown_evidence))
        ⊎ (Extends operation_evidence z × ExtendsAny (evidence_from_error (some failure)) z))
attach_evidence-Extends_example =
    attach_evidence-Extends failure operation_evidence operation_evidence_valid

abbrev denial : Denial
denial = record {
  service = codes "s3";
  operation = codes "GetObject";
  reason_code = explicit_deny;
  reason = other_reason [];
  event_id = [];
  request_id = codes "ev-1";
  classification = Classification.local_deny;
  upstream_response = none;
}

abbrev marshal : Body → Option Bytes
marshal b = some (message_of b)

abbrev message : Bytes
message = codes "Kordn denied s3:GetObject (explicit_deny); event ev-1"

abbrev response : Response
response = record {
  status = 403;
  headers =
      (codes "X-Amz-Request-Id", codes "ev-1")
      ∷ (codes "Content-Type", codes "application/xml")
      ∷ (codes "Content-Length", codes "53")
      ∷ [];
  content_length = 53;
  body = message;
}

denial_encoded : encode marshal AwsProtocol.rest_xml denial ≡ some response
unfolding wires
denial_encoded = refl

encode-Refuses_example :
    (protocol_supported AwsProtocol.rest_xml ≡ true)
    × (n : Denial) × IsNormal denial n
    × Refuses marshal n response
encode-Refuses_example =
    encode-Refuses marshal AwsProtocol.rest_xml denial response refl denial_encoded
