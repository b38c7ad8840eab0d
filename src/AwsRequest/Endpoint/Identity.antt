-- ===== src/AwsRequest/Endpoint/Identity.antt =====
-- `EndpointIdentityEqual` on endpoints that carry a signing identity.
use kordn.Base.{Bool, true, false, Bytes, ◌≡◌, ◌↔◌, ap, arith, bytes_eq→eq, eq→bytes_eq, ok}
use kordn.AwsRequest.Endpoint.{
  AwsEndpoint, is_empty, effective_scope, same_scope, bool_eq, validate_endpoint,
  endpoint_identity_equal,
}
use kordn.AwsRequest.Endpoint.Scope.{IsPlaced, validate_endpoint-IsPlaced}

-- Every dimension of the identity. Whether a valid endpoint is global follows from its Region.
pub record Identity : Type 0 where
  pub partition : Bytes
  pub host : Bytes
  pub service : Bytes
  pub signing_service : Bytes
  pub signing_region : Bytes
  pub region : Bytes
  pub fips : Bool
  pub dual_stack : Bool
  pub account_id : Bytes

unfoldable pub identity : AwsEndpoint → Identity
identity e = record {
  partition = e.partition;
  host = e.host;
  service = e.service;
  signing_service = e.signing_service;
  signing_region = e.signing_region;
  region = e.region;
  fips = e.fips;
  dual_stack = e.dual_stack;
  account_id = e.account_id;
}

bool_eq→eq : (a b : Bool) → bool_eq a b ≡ true → a ≡ b
unfolding bool_eq
bool_eq→eq a b h = ground arith

eq→bool_eq : (a b : Bool) → a ≡ b → bool_eq a b ≡ true
unfolding bool_eq
eq→bool_eq a b h = ground arith

scope_of_region :
    (a b : AwsEndpoint)
    → IsPlaced a
    → IsPlaced b
    → a.region ≡ b.region
    → same_scope (effective_scope a) (effective_scope b) ≡ true
unfolding same_scope effective_scope
scope_of_region a b pa pb h = ground (arith, pa.scope, pb.scope, ap is_empty h)

module _ (a b : AwsEndpoint) (pa : IsPlaced a) (pb : IsPlaced b) where
  identity_of_equal :
      is_empty a.signing_service ≡ false
      → is_empty b.signing_service ≡ false
      → endpoint_identity_equal a b ≡ true
      → identity a ≡ identity b
  unfolding endpoint_identity_equal identity
  identity_of_equal sa sb h =
      let p : a.partition ≡ b.partition = ground (arith, bytes_eq→eq a.partition b.partition) in
      let o : a.host ≡ b.host = ground (arith, bytes_eq→eq a.host b.host) in
      let s : a.service ≡ b.service = ground (arith, bytes_eq→eq a.service b.service) in
      let r : a.region ≡ b.region = ground (arith, bytes_eq→eq a.region b.region) in
      let f : a.fips ≡ b.fips = ground (arith, bool_eq→eq a.fips b.fips) in
      let d : a.dual_stack ≡ b.dual_stack = ground (arith, bool_eq→eq a.dual_stack b.dual_stack) in
      let c : a.account_id ≡ b.account_id = ground (arith, bytes_eq→eq a.account_id b.account_id) in
      let ss : a.signing_service ≡ b.signing_service =
        ground (arith, bytes_eq→eq a.signing_service b.signing_service) in
      let sr : a.signing_region ≡ b.signing_region =
        ground (arith, pa.signing, pb.signing, bytes_eq→eq a.signing_region b.signing_region) in
      cc (p, o, s, r, f, d, c, ss, sr)

  equal_of_identity : identity a ≡ identity b → endpoint_identity_equal a b ≡ true
  unfolding endpoint_identity_equal identity
  equal_of_identity h = ground (
    arith,
    eq→bytes_eq a.partition b.partition (ap (λ i. i.partition) h),
    eq→bytes_eq a.host b.host (ap (λ i. i.host) h),
    eq→bytes_eq a.service b.service (ap (λ i. i.service) h),
    eq→bytes_eq a.region b.region (ap (λ i. i.region) h),
    eq→bool_eq a.fips b.fips (ap (λ i. i.fips) h),
    eq→bool_eq a.dual_stack b.dual_stack (ap (λ i. i.dual_stack) h),
    eq→bytes_eq a.account_id b.account_id (ap (λ i. i.account_id) h),
    eq→bytes_eq a.signing_service b.signing_service (ap (λ i. i.signing_service) h),
    eq→bytes_eq a.signing_region b.signing_region (ap (λ i. i.signing_region) h),
    scope_of_region a b pa pb (ap (λ i. i.region) h),
  )

-- On two valid endpoints with a signing service, `EndpointIdentityEqual` is equality of all the
-- dimensions of the identity.
pub endpoint_identity_equal_iff :
    (a b : AwsEndpoint)
    → validate_endpoint a ≡ ok tt
    → validate_endpoint b ≡ ok tt
    → is_empty a.signing_service ≡ false
    → is_empty b.signing_service ≡ false
    → (endpoint_identity_equal a b ≡ true) ↔ (identity a ≡ identity b)
endpoint_identity_equal_iff a b va vb sa sb =
    let pa = validate_endpoint-IsPlaced a va in
    let pb = validate_endpoint-IsPlaced b vb in
    (identity_of_equal a b pa pb sa sb, equal_of_identity a b pa pb)
