-- ===== src/Policy/Arn.antt =====
-- internal/policy/engine.go: identifiers, the texts of constraints, and ARNs.
use kordn.Base.{
  ℕ, List, [], ◌∷◌, Bool, true, false, not, ◌&&◌, ◌||◌, Bytes, codes, length, ◌==◌, ltb,
  if◌then◌else◌, bytes_eq, contains, has_byte, split_n, Rune, runes, all_runes, is_alnum, is_digit,
  is_lower, Result, ok, err, ◌>>=◌, ◌>>◌, fail_if,
}
pub mod Fields

abbrev pub max_mapper_text_length : ℕ
max_mapper_text_length = 512

-- The loop of `validIdentifier`; `first` is `i == 0`.
unfoldable pub identifier_runes : Bool → Bool → List Rune → Bool
identifier_runes first punctuation [] = true
identifier_runes first punctuation (r ∷ rs) =
    let rest = identifier_runes false punctuation rs in
    if first && not (is_alnum r.value)
    then false
    else if is_alnum r.value
    then rest
    else if punctuation && (r.value == b'.' || r.value == b'_' || r.value == b'-')
    then rest
    else false

unfoldable pub valid_identifier : Bytes → Bool → Bool
valid_identifier value punctuation = identifier_runes true punctuation (runes value)

unfoldable pub is_region_rune : ℕ → Bool
is_region_rune r = is_lower r || is_digit r || r == b'-'

abbrev pub last_byte : ℕ → Bytes → ℕ
last_byte a [] = a
last_byte a (b ∷ s) = last_byte b s

-- The source reads `value[0]`, which panics on the empty text; its callers test for that first.
unfoldable pub valid_region : Bytes → Bool
valid_region [] = false
valid_region (a ∷ s) =
    if ltb max_mapper_text_length (length (a ∷ s)) || ltb a b'a' || ltb b'z' a
    then false
    else if ltb (last_byte a s) b'0' || ltb b'9' (last_byte a s)
    then false
    else if not (all_runes is_region_rune (a ∷ s))
    then false
    else has_byte (a ∷ s) b'-'

unfoldable pub valid_account : Bytes → Bool
valid_account value = if not (length value == 12) then false else all_runes is_digit value

abbrev pub partitions : List Bytes
partitions =
    codes "aws"
    ∷ codes "aws-us-gov"
    ∷ codes "aws-cn"
    ∷ codes "aws-iso"
    ∷ codes "aws-iso-b"
    ∷ codes "aws-iso-f"
    ∷ []

unfoldable pub valid_partition : Bytes → Bool
valid_partition value = contains partitions value

-- `arnContext`.
pub record Arn : Type 0 where
  pub partition : Bytes
  pub service : Bytes
  pub region : Bytes
  pub account : Bytes
  pub resource : Bytes

pub data ArnError : Type 0 where
  malformed malformed_region malformed_account malformed_service : ArnError

unfoldable pub is_service_rune : ℕ → Bool
is_service_rune r = is_alnum r || r == b'-'

abbrev pub is_nil : Bytes → Bool
is_nil [] = true
is_nil (_ ∷ _) = false

-- `parseARN` after the split.
unfoldable pub arn_of_parts : List Bytes → Result ArnError Arn
arn_of_parts (scheme ∷ partition ∷ service ∷ region ∷ account ∷ resource ∷ []) = do
  fail_if
      (not (bytes_eq scheme (codes "arn"))
        || not (valid_partition partition)
        || is_nil service
        || is_nil resource)
      malformed
  fail_if (not (is_nil region) && not (valid_region region)) malformed_region
  fail_if (not (is_nil account) && not (valid_account account)) malformed_account
  fail_if (not (all_runes is_service_rune service)) malformed_service
  ok (record {
    partition = partition;
    service = service;
    region = region;
    account = account;
    resource = resource;
  })
arn_of_parts _ = err malformed

unfoldable pub parse_arn : Bytes → Result ArnError Arn
parse_arn value = arn_of_parts (split_n value b':' 6)
