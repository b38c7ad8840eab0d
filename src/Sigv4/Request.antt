-- ===== src/Sigv4/Request.antt =====
-- internal/sigv4: the errors of the package, the parts of an http.Request that it reads, and the
-- lookups in its header (requestHeader of verify.go, headerValues of canonical.go).
use kordn.Base.{
  ℕ, List, [], ◌∷◌, ◌++◌, Bool, true, false, Option, none, some, Bytes, String, equal_fold,
}
pub mod Fields

-- `Code`.
pub data Code : Type 0 where
  malformed_request malformed_authorization malformed_credential invalid_credential : Code
  invalid_signature unsupported_signing unsupported_payload invalid_timestamp : Code
  stale_timestamp endpoint_mismatch oversized_body body_read_failure : Code

-- `Error`.
pub record SigError : Type 0 where
  pub code : Code
  pub detail : String

abbrev pub new_error : Code → String → SigError
new_error code detail = record { code = code; detail = detail }

abbrev pub Header : Type 0
Header = List (Bytes × List Bytes)

-- `url.URL`; `has_user` is `User != nil`.
pub record Url : Type 0 where
  pub has_user : Bool
  pub opaque_part : Bytes
  pub host : Bytes
  pub path : Bytes
  pub raw_path : Bytes
  pub raw_query : Bytes

-- The parts of an http.Request that signatures are about. A length of -1 is `none`.
pub record HttpRequest : Type 0 where
  pub method : Bytes
  pub host : Bytes
  pub url : Option Url
  pub header : Header
  pub content_length : Option ℕ

-- The results `("", false, false)`, `(value, true, false)` and `("", true, true)` of `requestHeader`.
pub data Lookup : Type 0 where
  absent duplicated : Lookup
  found : Bytes → Lookup

-- The value of a field that has one, if it is the first of its name.
abbrev pub single : Lookup → List Bytes → Option Bytes
single absent (value ∷ []) = some value
single _ _ = none

-- The loop over the header, with `value` and `present` in `seen`.
unfoldable pub scan_header : Lookup → Header → Bytes → Lookup
scan_header seen [] name = seen
scan_header seen ((key, values) ∷ header) name = elim (equal_fold key name) [
  | false ↦ scan_header seen header name
  | true ↦ elim (single seen values) [
    | none ↦ duplicated
    | some value ↦ scan_header (found value) header name
  ]
]

-- `requestHeader`.
unfoldable pub request_header : Header → Bytes → Lookup
request_header header name = scan_header absent header name

abbrev pub add_values : List Bytes → Option (List Bytes) → Option (List Bytes)
add_values values none = some values
add_values values (some more) = some (values ++ more)

-- `headerValues`; `none` is `present == false`.
unfoldable pub header_values : Header → Bytes → Option (List Bytes)
header_values [] name = none
header_values ((key, values) ∷ header) name =
    let rest = header_values header name in
    elim (equal_fold key name) [ false ↦ rest | true ↦ add_values values rest ]
