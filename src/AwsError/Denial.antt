-- ===== src/AwsError/Denial.antt =====
-- internal/awserror/encode.go, json.go and xml.go: the responses to denied requests.
use kordn.Base.{
  ℕ, List, [], ◌∷◌, ◌++◌, Bool, false, not, ◌&&◌, ◌||◌, Option, none, some, Bytes, codes, length,
  ◌==◌, ltb, if◌then◌else◌, bytes_eq, all_runes, itoa,
}
use kordn.AwsRequest.Protocol.{
  AwsProtocol, json10, json11, query, ec2_query, rest_json, rest_xml, other_protocol,
  protocol_supported,
}
use kordn.AwsRequest.Endpoint.{is_empty}
use kordn.AwsError.Reason.{ReasonCode, text, reason_valid, is_allowed}
pub mod Local

pub data Classification : Type 0 where
  local_deny upstream_access_denied upstream_error : Classification
  other_classification : Bytes → Classification

-- The parts of an http.Response that the encoders set. A header's name is in its canonical form.
pub record Response : Type 0 where
  pub status : ℕ
  pub headers : List (Bytes × Bytes)
  pub content_length : ℕ
  pub body : Bytes

pub record Denial : Type 0 where
  pub service : Bytes
  pub operation : Bytes
  pub reason_code : ReasonCode
  pub reason : ReasonCode
  pub event_id : Bytes
  pub request_id : Bytes
  pub classification : Classification
  pub upstream_response : Option Response

-- What stands in the body of a response, before it is written as JSON or XML.
pub data Body : Type 0 where
  json_error : Bytes → Bytes → Body
  rest_json_error : Bytes → Body
  query_error_response : Bytes → Bytes → Bytes → Bytes → Body
  rest_error : Bytes → Bytes → Bytes → Body

unfoldable pub token_rune : ℕ → Bool
token_rune r = not (
    ltb 0x7f r
    || ltb r 0x21
    || r == b'/'
    || r == b'\\'
    || r == b'<'
    || r == b'>'
    || r == b'"'
    || r == b'\''
    || r == b'&'
    || r == b'?'
    || r == b'#'
    || r == b'%')

unfoldable pub bounded_token : Bytes → ℕ → Bool
bounded_token value limit =
    if is_empty value || ltb limit (length value) then false else all_runes token_rune value

-- The two aliases of `normalizeDenial`; `none` is a contradiction.
unfoldable pub resolve_reason : Denial → Option Denial
resolve_reason d =
    if is_empty (text d.reason)
    then some d
    else if not (reason_valid d.reason)
        || (reason_valid d.reason_code && not (bytes_eq (text d.reason) (text d.reason_code)))
    then none
    else some (record d { reason_code = d.reason })

unfoldable pub resolve_event : Denial → Option Denial
resolve_event d =
    if is_empty d.request_id
    then some d
    else if not (is_empty d.event_id) && not (bytes_eq d.event_id d.request_id)
    then none
    else some (record d { event_id = d.request_id })

unfoldable pub check_denial : Denial → Option Denial
check_denial d =
    if not (bounded_token d.service 128)
      || not (bounded_token d.operation 128)
      || not (reason_valid d.reason_code)
      || is_allowed d.reason_code
      || not (bounded_token d.event_id 128)
    then none
    else some (record d { classification = local_deny })

infixl 5 ◌>>=◌
abbrev pub ◌>>=◌ : {A B : Type 0} → Option A → (A → Option B) → Option B
none >>= f = none
some a >>= f = f a

unfoldable pub normalize_denial : Denial → Option Denial
normalize_denial d = do d₁ ← resolve_reason d; d₂ ← resolve_event d₁; check_denial d₂

unfoldable pub denial_message : Denial → Bytes
denial_message d =
    codes "Kordn denied "
    ++ d.service
    ++ codes ":"
    ++ d.operation
    ++ codes " ("
    ++ text d.reason_code
    ++ codes "); event "
    ++ d.event_id

unfoldable pub set_body : List (Bytes × Bytes) → Bytes → Bytes → Response
set_body headers body content_type = record {
  status = 403;
  headers =
      headers
      ++ (codes "Content-Type", content_type) ∷ (codes "Content-Length", itoa (length body)) ∷ [];
  content_length = length body;
  body = body;
}

-- `marshal` is json.Marshal or xml.Marshal, as the kind of the body needs.
module _ (marshal : Body → Option Bytes) where
  unfoldable pub encode_json : AwsProtocol → Denial → Option Response
  encode_json protocol d = do
    body ← marshal (json_error (codes "AccessDeniedException") (denial_message d))
    some (
        set_body
          ((codes "X-Amzn-Errortype", codes "AccessDeniedException")
            ∷ (codes "X-Amzn-Requestid", d.event_id)
            ∷ [])
          body
          (elim protocol [
            | json10 ↦ codes "application/x-amz-json-1.0"
            | _ ↦ codes "application/x-amz-json-1.1"
          ]))

  unfoldable pub encode_rest_json : Denial → Option Response
  encode_rest_json d = do
    body ← marshal (rest_json_error (denial_message d))
    some (
        set_body
          ((codes "X-Amzn-Errortype", codes "AccessDeniedException")
            ∷ (codes "X-Amzn-Requestid", d.event_id)
            ∷ [])
          body (codes "application/json"))

  unfoldable pub encode_query_xml : Denial → Option Response
  encode_query_xml d = do
    body ←
        marshal (
          query_error_response (codes "Sender") (codes "AccessDenied") (denial_message d)
            d.event_id)
    some (set_body [] body (codes "text/xml"))

  unfoldable pub encode_rest_xml : Denial → Option Response
  encode_rest_xml d = do
    body ← marshal (rest_error (codes "AccessDenied") (denial_message d) d.event_id)
    some (set_body ((codes "X-Amz-Request-Id", d.event_id) ∷ []) body (codes "application/xml"))

  unfoldable pub encode_local : AwsProtocol → Denial → Option Response
  encode_local json10 d = encode_json json10 d
  encode_local json11 d = encode_json json11 d
  encode_local rest_json d = encode_rest_json d
  encode_local query d = encode_query_xml d
  encode_local ec2_query d = encode_query_xml d
  encode_local rest_xml d = encode_rest_xml d
  encode_local (other_protocol s) d = none

  -- `Encode`; `none` is the nil response.
  unfoldable pub encode : AwsProtocol → Denial → Option Response
  encode protocol d = elim d.classification [
    | upstream_access_denied ↦ d.upstream_response
    | upstream_error ↦ d.upstream_response
    | other_classification s ↦ none
    | local_deny ↦
        if not (protocol_supported protocol)
        then none
        else normalize_denial d >>= encode_local protocol
  ]
