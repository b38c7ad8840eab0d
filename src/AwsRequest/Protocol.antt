-- ===== src/AwsRequest/Protocol.antt =====
-- internal/awsrequest/protocol.go: the closed string enums of the wire. A constructor that holds a
-- text stands for every string that is none of the named constants.
use kordn.Base.{Bytes, codes, Bool, true, false}

pub data AwsProtocol : Type 0 where
  json10 json11 query ec2_query rest_json rest_xml : AwsProtocol
  other_protocol : Bytes → AwsProtocol

-- The text of a protocol.
unfoldable pub protocol_text : AwsProtocol → Bytes
protocol_text json10 = codes "json1.0"
protocol_text json11 = codes "json1.1"
protocol_text query = codes "query"
protocol_text ec2_query = codes "ec2-query"
protocol_text rest_json = codes "rest-json"
protocol_text rest_xml = codes "rest-xml"
protocol_text (other_protocol s) = s

unfoldable pub protocol_supported : AwsProtocol → Bool
protocol_supported (other_protocol _) = false
protocol_supported _ = true

pub data SigningScheme : Type 0 where
  header_v4 v4a query_v4 unsupported_scheme : SigningScheme
  other_scheme : Bytes → SigningScheme

unfoldable pub scheme_supported : SigningScheme → Bool
scheme_supported header_v4 = true
scheme_supported _ = false

pub data PayloadHashMode : Type 0 where
  sha256 empty_payload unsigned streaming event_stream unsupported_payload : PayloadHashMode
  other_payload : Bytes → PayloadHashMode

unfoldable pub payload_mode_supported : PayloadHashMode → Bool
payload_mode_supported sha256 = true
payload_mode_supported empty_payload = true
payload_mode_supported unsigned = true
payload_mode_supported _ = false
