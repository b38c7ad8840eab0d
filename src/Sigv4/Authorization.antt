-- ===== src/Sigv4/Authorization.antt =====
-- internal/sigv4/verify.go: the grammars of the Authorization header.
use kordn.Base.{
  ℕ, List, [], ◌∷◌, Bool, true, false, not, ◌&&◌, ◌||◌, Option, none, some, Bytes, codes, length,
  all, ◌==◌, leb, bytes_eq, bytes_lt, contains, has_byte, split, cut, split_pair, to_lower, Result,
  ok, err, ◌>>=◌, ◌>>◌, fail_if,
}
use kordn.Sigv4.Escape.{hex_value}
use kordn.Sigv4.Header.{valid_header_name}
use kordn.Sigv4.Request.{SigError, new_error, malformed_authorization, malformed_credential}
pub mod Items
pub mod Grammar
pub mod Roundtrip
pub mod Scope
pub mod Names

-- The results of `parseAuthorization`.
pub record Authorization : Type 0 where
  pub algorithm : Bytes
  pub credential : Bytes
  pub signed_headers : Bytes
  pub signature : Bytes

abbrev pub bad_grammar : SigError
bad_grammar = new_error malformed_authorization "authorization grammar is invalid"

-- One round of the loop over the three parts, for the key that stands there.
unfoldable pub item_of : Bytes → Bytes → Result SigError Bytes
item_of expected part = elim (cut part b'=') [
  | none ↦ err bad_grammar
  | some (key, item) ↦ (do
    fail_if (length item == 0 || has_byte item b'=') bad_grammar
    fail_if (not (bytes_eq key expected)) bad_grammar
    ok item)
]

-- `hexValue(c) >= 0`.
unfoldable pub is_hex : ℕ → Bool
is_hex c = elim (hex_value c) [ none ↦ false | some _ ↦ true ]

abbrev pub bad_signature : SigError
bad_signature = new_error malformed_authorization "signature encoding is invalid"

unfoldable pub parse_items : Bytes → List Bytes → Result SigError Authorization
parse_items algorithm (first ∷ second ∷ third ∷ []) = do
  credential ← item_of (codes "Credential") first
  signed_headers ← item_of (codes "SignedHeaders") second
  signature ← item_of (codes "Signature") third
  fail_if (not (length signature == 64)) bad_signature
  fail_if (not (all is_hex signature)) bad_signature
  ok (record {
    algorithm = algorithm;
    credential = credential;
    signed_headers = signed_headers;
    signature = signature;
  })
parse_items algorithm _ = err bad_grammar

-- `parseAuthorization`. Both halves of the cut are to be there.
unfoldable pub parse_authorization : Bytes → Result SigError Authorization
parse_authorization value = elim (cut value b' ') [
  | none ↦ err bad_grammar
  | some (algorithm, rest) ↦ (do
    fail_if (length algorithm == 0 || length rest == 0) bad_grammar
    parse_items algorithm (split_pair b',' b' ' rest))
]

-- The results of `parseCredential`.
pub record CredentialScope : Type 0 where
  pub access_key : Bytes
  pub date : Bytes
  pub region : Bytes
  pub service : Bytes

abbrev pub is_decimal : ℕ → Bool
is_decimal c = leb b'0' c && leb c b'9'

unfoldable pub credential_of_parts : List Bytes → Result SigError CredentialScope
credential_of_parts (key ∷ date ∷ region ∷ service ∷ terminator ∷ []) = do
  fail_if (length key == 0 || not (bytes_eq terminator (codes "aws4_request")))
      (new_error malformed_credential "credential scope is malformed")
  fail_if (not (length date == 8)) (new_error malformed_credential "credential date is malformed")
  fail_if (not (all is_decimal date))
      (new_error malformed_credential "credential date is malformed")
  ok (record { access_key = key; date = date; region = region; service = service })
credential_of_parts _ = err (new_error malformed_credential "credential scope is malformed")

-- `parseCredential`.
unfoldable pub parse_credential : Bytes → Result SigError CredentialScope
parse_credential value = credential_of_parts (split value b'/')

-- `i > 0 && part <= parts[i-1]`, with the part before.
abbrev pub out_of_order : Option Bytes → Bytes → Bool
out_of_order none part = false
out_of_order (some before) part = not (bytes_lt before part)

abbrev pub unsorted : SigError
unsorted = new_error malformed_authorization "signed headers are not sorted"

-- The loop over the names.
unfoldable pub check_names : Option Bytes → List Bytes → Result SigError (Unit {0})
check_names before [] = ok tt
check_names before (part ∷ parts) =
    let rest = check_names (some part) parts in
    do
      fail_if
          (not (valid_header_name part)
            || not (bytes_eq part (to_lower part))
            || out_of_order before part)
          unsorted
      rest

-- `parseSignedHeaders`. strings.Split never yields an empty list.
unfoldable pub parse_signed_headers : Bytes → Result SigError (List Bytes)
parse_signed_headers value = do
  fail_if (length value == 0 || has_byte value b' ')
      (new_error malformed_authorization "signed headers grammar is invalid")
  check_names none (split value b';')
  fail_if (not (contains (split value b';') (codes "host")))
      (new_error malformed_authorization "signed host header is missing")
  ok (split value b';')
