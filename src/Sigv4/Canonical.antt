-- ===== src/Sigv4/Canonical.antt =====
-- internal/sigv4/canonical.go: the canonical request.
use kordn.Base.{
  ℕ, ◌/◌, ◌%◌, List, [], ◌∷◌, ◌++◌, Bool, false, not, ◌&&◌, ◌||◌, Option, none, some, Bytes, codes,
  get_or, length, all, ◌==◌, ltb, if◌then◌else◌, bytes_eq, contains, contains_any, has_byte, join,
  to_lower, itoa, Result, ok, err, ◌>>=◌, ◌>>◌, fail_if,
}
use kordn.Sigv4.Escape.{canonical_escaped_path, percent_decode_query, is_unreserved, write_escape}
use kordn.Sigv4.Query.{canonical_raw_query}
use kordn.Sigv4.Header.{
  normalize_header_value, valid_header_name, valid_header_value, valid_payload_hash,
}
use kordn.Sigv4.Request.{
  SigError, new_error, malformed_request, malformed_authorization, unsupported_payload, Url,
  HttpRequest, header_values,
}
use kordn.Sigv4.Authorization.{out_of_order, unsorted}

-- net/url: what a path may hold as it stands, and what it may hold in its escaped form.
abbrev pub is_path_byte : ℕ → Bool
is_path_byte c = is_unreserved c || has_byte (codes "$&+,/:;=@") c

abbrev pub is_encoded_byte : ℕ → Bool
is_encoded_byte c = is_path_byte c || has_byte (codes "!'()*[]%") c

unfoldable pub escape_path : Bytes → Bytes
escape_path [] = []
escape_path (c ∷ s) = (if is_path_byte c then c ∷ [] else write_escape c) ++ escape_path s

-- url.PathUnescape; it reads escapes as percentDecodeQuery does.
abbrev pub path_unescape : Bytes → Option Bytes
path_unescape = percent_decode_query

unfoldable pub unescapes_to : Bytes → Bytes → Bool
unescapes_to raw path = elim (path_unescape raw) [
  | none ↦ false
  | some decoded ↦ bytes_eq decoded path
]

-- `URL.EscapedPath`.
unfoldable pub escaped_path : Url → Bytes
escaped_path url =
    if not (length url.raw_path == 0)
      && all is_encoded_byte url.raw_path
      && unescapes_to url.raw_path url.path
    then url.raw_path
    else if bytes_eq url.path (codes "*")
    then codes "*"
    else escape_path url.path

abbrev pub or_root : Bytes → Bytes
or_root [] = b'/' ∷ []
or_root escaped = escaped

abbrev pub is_absolute : Bytes → Bool
is_absolute [] = false
is_absolute (c ∷ s) = c == b'/'

abbrev pub or_malformed : {A : Type 0} → Option A → SigError → Result SigError A
or_malformed none e = err e
or_malformed (some a) e = ok a

abbrev pub no_url : SigError
no_url = new_error malformed_request "request URL is unavailable"

-- `CanonicalURI` of a request with a URL.
unfoldable pub canonical_uri : Url → Result SigError Bytes
canonical_uri url = do
  fail_if (not (length url.opaque_part == 0))
      (new_error malformed_request "opaque request URL is unsupported")
  fail_if (not (length url.raw_path == 0) && not (unescapes_to url.raw_path url.path))
      (new_error malformed_request "request path escaping is invalid")
  fail_if (not (is_absolute (or_root (escaped_path url))))
      (new_error malformed_request "request path is not absolute")
  or_malformed (canonical_escaped_path (or_root (escaped_path url)))
      (new_error malformed_request "request path contains an invalid escape")

-- The values of a `host` field, as `signedHeaderValue` reads them.
unfoldable pub host_field : List Bytes → Result SigError Bytes
host_field (value ∷ []) = do
  fail_if (length value == 0) (new_error malformed_request "host header is duplicated")
  fail_if (not (valid_header_value value))
      (new_error malformed_request "host header contains invalid bytes")
  ok value
host_field _ = err (new_error malformed_request "host header is duplicated")

abbrev pub url_host : Option Url → Bytes
url_host none = []
url_host (some url) = url.host

unfoldable pub signed_host : HttpRequest → Result SigError Bytes
signed_host req = elim (header_values req.header (codes "host")) [
  | some values ↦ (do
    fail_if (not (length req.host == 0)) (new_error malformed_request "host header is ambiguous")
    host_field values)
  | none ↦
      if not (length req.host == 0)
      then ok req.host
      else if not (length (url_host req.url) == 0)
      then ok (url_host req.url)
      else err (new_error malformed_request "signed host header is missing")
]

abbrev pub missing_or_duplicated : SigError
missing_or_duplicated = new_error malformed_request "signed header is missing or duplicated"

unfoldable pub one_value : List Bytes → Result SigError Bytes
one_value (value ∷ []) = do
  fail_if (not (valid_header_value value))
      (new_error malformed_request "signed header contains invalid bytes")
  ok value
one_value _ = err missing_or_duplicated

-- `name == "content-length" && req.ContentLength > 0`.
unfoldable pub announced_length : HttpRequest → Bytes → Option ℕ
announced_length req name =
    if bytes_eq name (codes "content-length") then req.content_length else none

unfoldable pub absent_field : Option ℕ → Result SigError Bytes
absent_field none = err missing_or_duplicated
absent_field (some n) = if ltb 0 n then ok (itoa n) else err missing_or_duplicated

-- `signedHeaderValue`.
unfoldable pub signed_header_value : HttpRequest → Bytes → Result SigError Bytes
signed_header_value req name =
    if bytes_eq name (codes "host") then signed_host req else elim (header_values req.header name) [
      | none ↦ absent_field (announced_length req name)
      | some values ↦ one_value values
    ]

abbrev pub header_line : Bytes → Bytes → Bytes
header_line name value = name ++ (b':' ∷ (normalize_header_value value ++ (b'\n' ∷ [])))

-- The loop of `CanonicalHeaders`, with its variables `last` and `seen`.
unfoldable pub header_lines :
    HttpRequest → Option Bytes → List Bytes → List Bytes → Result SigError Bytes
header_lines req last seen [] = ok []
header_lines req last seen (name ∷ names) =
    let rest = header_lines req (some name) (name ∷ seen) names in
    do
      fail_if
          (not (valid_header_name name)
            || not (bytes_eq name (to_lower name))
            || out_of_order last name)
          unsorted
      fail_if (contains seen name)
          (new_error malformed_authorization "signed headers contain a duplicate")
      value ← signed_header_value req name
      lines ← rest
      ok (header_line name value ++ lines)

-- `CanonicalHeaders`: the lines, and the names behind one another. A name is never empty here, so
-- that an empty `last` is none.
unfoldable pub canonical_headers : HttpRequest → List Bytes → Result SigError (Bytes × Bytes)
canonical_headers req signed = do
  fail_if (length signed == 0) (new_error malformed_authorization "signed headers are empty")
  lines ← header_lines req none [] signed
  ok (lines, join signed (b';' ∷ []))

pub record Canonical : Type 0 where
  pub method : Bytes
  pub uri : Bytes
  pub query : Bytes
  pub headers : Bytes
  pub signed_headers : Bytes
  pub payload_hash : Bytes
  pub request : Bytes
  pub hash : Bytes

-- encoding/hex.
unfoldable pub hex_encode : Bytes → Bytes
hex_encode [] = []
hex_encode (c ∷ s) =
    let digit = λ (n : ℕ). get_or (codes "0123456789abcdef") n 0 in
    digit (c / 16) ∷ digit (c % 16) ∷ hex_encode s

abbrev pub request_lines : Bytes → Bytes → Bytes → Bytes → Bytes → Bytes → Bytes
request_lines method uri query headers names payload_hash =
    join (method ∷ uri ∷ query ∷ headers ∷ names ∷ payload_hash ∷ []) (b'\n' ∷ [])

-- The result of `BuildCanonicalRequest`; `sha256` is crypto/sha256.
unfoldable pub canonical_of :
    (sha256 : Bytes → Bytes) → Bytes → Bytes → Bytes → Bytes → Bytes → Bytes → Canonical
canonical_of sha256 method uri query headers names payload_hash =
    let request = request_lines method uri query headers names payload_hash in
    record {
      method = method;
      uri = uri;
      query = query;
      headers = headers;
      signed_headers = names;
      payload_hash = payload_hash;
      request = request;
      hash = hex_encode (sha256 request);
    }

abbrev pub bad_method : Bytes → Bool
bad_method method = contains_any method (0 ∷ 13 ∷ 10 ∷ b' ' ∷ []) || length method == 0

-- `BuildCanonicalRequest`.
unfoldable pub build_canonical_request :
    (sha256 : Bytes → Bytes) → HttpRequest → List Bytes → Bytes → Result SigError Canonical
build_canonical_request sha256 req signed payload_hash = do
  url ← or_malformed req.url no_url
  fail_if (bad_method req.method) (new_error malformed_request "request method is invalid")
  uri ← canonical_uri url
  query ←
      or_malformed (canonical_raw_query url.raw_query)
        (new_error malformed_request "request query contains an invalid escape")
  (headers, names) ← canonical_headers req signed
  fail_if (not (valid_payload_hash payload_hash))
      (new_error unsupported_payload "payload hash mode is unsupported")
  ok (canonical_of sha256 req.method uri query headers names payload_hash)
