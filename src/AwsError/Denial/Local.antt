-- ===== src/AwsError/Denial/Local.antt =====
-- What a response made here says, and of which denials there is one.
use kordn.Base.{
  List, [], ◌∷◌, ◌++◌, true, false, Option, none, some, ◌≡◌, ◌⊎◌, refl, ◌∙◌, arith, Bytes, codes,
  length, if◌then◌else◌, bytes_eq, itoa, Option-cases, inl, inr,
}
use kordn.AwsRequest.Protocol.{
  AwsProtocol, json10, json11, query, ec2_query, rest_json, rest_xml, other_protocol,
  protocol_supported,
}
use kordn.AwsRequest.Endpoint.{is_empty}
use kordn.AwsError.Reason.{text, reason_valid, is_allowed}
use kordn.AwsError.Denial.{
  local_deny, upstream_access_denied, upstream_error, Response, Denial, Body, json_error,
  rest_json_error, query_error_response, rest_error, bounded_token, resolve_reason, resolve_event,
  check_denial, normalize_denial, denial_message, set_body, encode_json, encode_rest_json,
  encode_query_xml, encode_rest_xml, encode_local, encode, ◌>>=◌,
}

-- `n` is the denial `d` with its aliases resolved, and may be told.
pub record IsNormal (d n : Denial) : Type 0 where
  pub service : n.service ≡ d.service
  pub operation : n.operation ≡ d.operation
  pub reason : n.reason_code ≡ (if is_empty (text d.reason) then d.reason_code else d.reason)
  pub event : n.event_id ≡ (if is_empty d.request_id then d.event_id else d.request_id)
  pub service_token : bounded_token n.service 128 ≡ true
  pub operation_token : bounded_token n.operation 128 ≡ true
  pub event_token : bounded_token n.event_id 128 ≡ true
  pub known_reason : reason_valid n.reason_code ≡ true
  pub not_allowed : is_allowed n.reason_code ≡ false

normalize_denial-IsNormal : (d n : Denial) → normalize_denial d ≡ some n → IsNormal d n
unfolding normalize_denial resolve_reason resolve_event check_denial
normalize_denial-IsNormal d n h = record {
  service = ground arith;
  operation = ground arith;
  reason = ground arith;
  event = ground arith;
  service_token = ground arith;
  operation_token = ground arith;
  event_token = ground arith;
  known_reason = ground arith;
  not_allowed = ground arith;
}

abbrev pub message_of : Body → Bytes
message_of (json_error kind message) = message
message_of (rest_json_error message) = message
message_of (query_error_response kind code message request) = message
message_of (rest_error code message request) = message

unfoldable pub header_value : Bytes → List (Bytes × Bytes) → Option Bytes
header_value name [] = none
header_value name ((n, v) ∷ headers) = if bytes_eq n name then some v else header_value name headers

module _ (marshal : Body → Option Bytes) where
  -- `r` refuses the denial `n`, with a length that fits.
  pub record Refuses (n : Denial) (r : Response) : Type 0 where
    pub content : Body
    pub written : marshal content ≡ some r.body
    pub message : message_of content ≡ denial_message n
    pub forbidden : r.status ≡ 403
    pub sized : r.content_length ≡ length r.body
    pub announced : header_value (codes "Content-Length") r.headers ≡ some (itoa (length r.body))

  header_value-append :
      (name : Bytes) (front back : List (Bytes × Bytes))
      → header_value name front ≡ none
      → header_value name (front ++ back) ≡ header_value name back
  unfolding header_value
  header_value-append name [] back h = refl
  header_value-append name ((n, v) ∷ front) back h =
      ground (arith, header_value-append name front back)

  length_header :
      (kind size : Bytes)
      → header_value
          (codes "Content-Length")
          ((codes "Content-Type", kind) ∷ (codes "Content-Length", size) ∷ [])
        ≡ some size
  unfolding header_value bytes_eq
  length_header kind size = refl

  set_body-Refuses :
      (n : Denial) (content : Body) (headers : List (Bytes × Bytes)) (kind : Bytes) (r : Response)
      → message_of content ≡ denial_message n
      → header_value (codes "Content-Length") headers ≡ none
      → (marshal content >>= λ body. some (set_body headers body kind)) ≡ some r
      → Refuses n r
  unfolding set_body
  set_body-Refuses n content headers kind r message fresh h =
      elim (Option-cases (marshal content)) [
        | inl failed ↦ absurd (ground arith)
        | inr (body, written) ↦
            let e : set_body headers body kind ≡ r = ground arith in
            rw (← e) (record {
              content = content;
              written = written;
              message = message;
              forbidden = refl;
              sized = refl;
              announced =
                  header_value-append (codes "Content-Length") headers _ fresh
                  ∙ length_header kind (itoa (length body));
            })
      ]

  encode_local-Refuses :
      (protocol : AwsProtocol) (n : Denial) (r : Response)
      → encode_local marshal protocol n ≡ some r
      → Refuses n r
  unfolding encode_local encode_json encode_rest_json encode_query_xml encode_rest_xml header_value
      bytes_eq
  encode_local-Refuses json10 n r h = set_body-Refuses n _ _ _ r refl refl h
  encode_local-Refuses json11 n r h = set_body-Refuses n _ _ _ r refl refl h
  encode_local-Refuses query n r h = set_body-Refuses n _ _ _ r refl refl h
  encode_local-Refuses ec2_query n r h = set_body-Refuses n _ _ _ r refl refl h
  encode_local-Refuses rest_json n r h = set_body-Refuses n _ _ _ r refl refl h
  encode_local-Refuses rest_xml n r h = set_body-Refuses n _ _ _ r refl refl h
  encode_local-Refuses (other_protocol s) n r h = absurd (ground arith)

  local_deny-normal :
      (protocol : AwsProtocol) (d : Denial) (r : Response)
      → d.classification ≡ local_deny
      → encode marshal protocol d ≡ some r
      → (protocol_supported protocol ≡ true)
        × ((normalize_denial d >>= encode_local marshal protocol) ≡ some r)
  unfolding encode
  local_deny-normal protocol d r local h = ground arith

  -- A response to a local denial refuses the denial with its aliases resolved, whose texts are
  -- bounded tokens and whose reason is known and is not a permission.
  pub encode-Refuses :
      (protocol : AwsProtocol) (d : Denial) (r : Response)
      → d.classification ≡ local_deny
      → encode marshal protocol d ≡ some r
      → (protocol_supported protocol ≡ true) × (n : Denial) × IsNormal d n × Refuses n r
  encode-Refuses protocol d r local h =
      let (supported, e) = local_deny-normal protocol d r local h in
      elim (Option-cases (normalize_denial d)) [
        | inl refused ↦ absurd (ground arith)
        | inr (n, normal) ↦ (
          supported,
          n,
          normalize_denial-IsNormal d n normal,
          encode_local-Refuses protocol n r (ground arith),
        )
      ]

  -- A response from AWS is never replaced.
  pub encode-upstream :
      (protocol : AwsProtocol) (d : Denial)
      → (d.classification ≡ upstream_access_denied) ⊎ (d.classification ≡ upstream_error)
      → encode marshal protocol d ≡ d.upstream_response
  unfolding encode
  encode-upstream protocol d (inl e) = ground arith
  encode-upstream protocol d (inr e) = ground arith
