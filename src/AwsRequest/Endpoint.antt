-- ===== src/AwsRequest/Endpoint.antt =====
-- internal/awsrequest/endpoint.go: endpoint identities and the checks of their shape.
use kordn.Base.{
  ℕ, List, [], ◌∷◌, Bool, true, false, not, ◌&&◌, ◌||◌, Bytes, length, ◌==◌, ltb, if◌then◌else◌,
  bytes_eq, has_suffix_byte, contains_any, split, to_lower, all_runes, is_digit, is_lower, is_alnum,
  is_blank, Result, ok, err, ◌>>◌, fail_if,
}
pub mod Scope
pub mod Identity

-- `EndpointScope`; `no_scope` is the empty text.
pub data EndpointScope : Type 0 where
  no_scope regional global : EndpointScope
  other_scope : Bytes → EndpointScope

pub record AwsEndpoint : Type 0 where
  pub partition : Bytes
  pub host : Bytes
  pub service : Bytes
  pub signing_service : Bytes
  pub signing_region : Bytes
  pub region : Bytes
  pub global : Bool
  pub scope : EndpointScope
  pub fips : Bool
  pub dual_stack : Bool
  pub account_id : Bytes

abbrev pub is_empty : Bytes → Bool
is_empty s = length s == 0

abbrev pub is_global_scope : EndpointScope → Bool
is_global_scope EndpointScope.global = true
is_global_scope _ = false

abbrev pub is_regional_scope : EndpointScope → Bool
is_regional_scope EndpointScope.regional = true
is_regional_scope _ = false

abbrev pub is_other_scope : EndpointScope → Bool
is_other_scope (other_scope _) = true
is_other_scope _ = false

unfoldable pub is_global : AwsEndpoint → Bool
is_global e = e.global || is_global_scope e.scope

unfoldable pub effective_scope : AwsEndpoint → EndpointScope
effective_scope e = if is_global e then EndpointScope.global else EndpointScope.regional

-- One constructor for each message of the checks below.
pub data EndpointError : Type 0 where
  no_partition no_host host_not_normalized host_has_port bad_host_label bad_host_character :
      EndpointError
  bad_service bad_service_label bad_service_character : EndpointError
  bad_signing_service signing_service_label signing_service_character : EndpointError
  bad_signing_region no_signing_region no_signing_service bad_account : EndpointError
  unsupported_scope scope_conflict no_region global_region signing_disagrees : EndpointError

unfoldable pub starts_with_byte : Bytes → ℕ → Bool
starts_with_byte [] c = false
starts_with_byte (a ∷ s) c = a == c

-- `label == "" || len(label) > 63 || label[0] == '-' || label[len(label)-1] == '-'`.
unfoldable pub bad_label : Bytes → Bool
bad_label label =
    is_empty label
    || ltb 63 (length label)
    || starts_with_byte label b'-'
    || has_suffix_byte label b'-'

unfoldable pub is_dns_rune : ℕ → Bool
is_dns_rune r = is_lower r || is_digit r || r == b'-'

unfoldable pub is_signing_rune : ℕ → Bool
is_signing_rune r = is_alnum r || r == b'-'

-- The loop over the labels, with its two errors.
unfoldable pub check_labels :
    EndpointError → EndpointError → (ℕ → Bool) → List Bytes → Result EndpointError (Unit {0})
check_labels shape syntax valid [] = ok tt
check_labels shape syntax valid (label ∷ labels) =
    let rest = check_labels shape syntax valid labels in
    do fail_if (bad_label label) shape; fail_if (not (all_runes valid label)) syntax; rest

-- `validateEndpointService`.
unfoldable pub validate_endpoint_service : Bytes → Result EndpointError (Unit {0})
validate_endpoint_service value = do
  fail_if (is_empty value || ltb 253 (length value) || not (bytes_eq value (to_lower value)))
      bad_service
  check_labels bad_service_label bad_service_character is_dns_rune (split value b'.')

unfoldable pub validate_signing_service : Bytes → Result EndpointError (Unit {0})
validate_signing_service value = do
  fail_if (is_empty value || ltb 128 (length value)) bad_signing_service
  check_labels signing_service_label signing_service_character is_signing_rune (split value b'.')

unfoldable pub valid_signing_identity : Bytes → Bool
valid_signing_identity value = elim (validate_signing_service value) [ ok _ ↦ true | err _ ↦ false ]

unfoldable pub valid_signing_region : Bytes → Bool
valid_signing_region value =
    if is_empty value || ltb 64 (length value) then false else all_runes is_dns_rune value

unfoldable pub validate_endpoint_account_id : Bytes → Result EndpointError (Unit {0})
validate_endpoint_account_id value = if is_empty value then ok tt else (do
  fail_if (not (length value == 12)) bad_account
  fail_if (not (all_runes is_digit value)) bad_account
  ok tt)

-- `Validate` of the host. The source lowers the host with strings.ToLower: of a host that is not
-- ASCII only the message can differ, since the loop over the labels refuses it.
unfoldable pub validate_host : Bytes → Result EndpointError (Unit {0})
validate_host host = do
  fail_if (is_blank host) no_host
  fail_if
      (ltb 253 (length host) || not (bytes_eq host (to_lower host)) || has_suffix_byte host b'.')
      host_not_normalized
  fail_if (contains_any host (b' ' ∷ 9 ∷ 13 ∷ 10 ∷ b':' ∷ b'/' ∷ [])) host_has_port
  check_labels bad_host_label bad_host_character is_dns_rune (split host b'.')

-- The second half of `Validate`: scope, Region and signing identity.
unfoldable pub validate_scope : AwsEndpoint → Result EndpointError (Unit {0})
validate_scope e = do
  fail_if (is_other_scope e.scope) unsupported_scope
  fail_if (is_regional_scope e.scope && e.global) scope_conflict
  fail_if (not (is_global e) && is_blank e.region) no_region
  fail_if (is_global e && not (is_empty e.region)) global_region
  fail_if
      (not (is_empty e.signing_service)
        && not (is_global e)
        && not (bytes_eq e.signing_region e.region))
      signing_disagrees
  ok tt

unfoldable pub validate_endpoint : AwsEndpoint → Result EndpointError (Unit {0})
validate_endpoint e = do
  fail_if (is_blank e.partition) no_partition
  validate_host e.host
  validate_endpoint_service e.service
  fail_if (not (is_empty e.signing_service) && not (valid_signing_identity e.signing_service))
      bad_signing_service
  fail_if (not (is_empty e.signing_region) && not (valid_signing_region e.signing_region))
      bad_signing_region
  fail_if (not (is_empty e.signing_service) && is_empty e.signing_region) no_signing_region
  fail_if (not (is_empty e.signing_region) && is_empty e.signing_service) no_signing_service
  validate_endpoint_account_id e.account_id
  validate_scope e

unfoldable pub same_scope : EndpointScope → EndpointScope → Bool
same_scope EndpointScope.global EndpointScope.global = true
same_scope EndpointScope.regional EndpointScope.regional = true
same_scope no_scope no_scope = true
same_scope (other_scope s) (other_scope t) = bytes_eq s t
same_scope _ _ = false

unfoldable pub bool_eq : Bool → Bool → Bool
bool_eq true b = b
bool_eq false b = not b

-- `EndpointIdentityEqual`.
unfoldable pub endpoint_identity_equal : AwsEndpoint → AwsEndpoint → Bool
endpoint_identity_equal a b =
    bytes_eq a.partition b.partition
    && bytes_eq a.host b.host
    && bytes_eq a.service b.service
    && bytes_eq a.region b.region
    && same_scope (effective_scope a) (effective_scope b)
    && bool_eq a.fips b.fips
    && bool_eq a.dual_stack b.dual_stack
    && bytes_eq a.account_id b.account_id
    && (is_empty a.signing_service
        || is_empty b.signing_service
        || bytes_eq a.signing_service b.signing_service)
    && (is_empty a.signing_region
        || is_empty b.signing_region
        || bytes_eq a.signing_region b.signing_region)
