-- ===== src/AwsRequest/Endpoint/Scope.antt =====
-- What a valid endpoint says of its scope, its Region and its signing identity.
use kordn.Base.{
  [], ◌∷◌, true, false, Bytes, ◌≡◌, refl, arith, bytes_eq→eq, is_blank, all_runes, any_rune,
  any_value, runes_from, ok,
}
use kordn.AwsRequest.Endpoint.{AwsEndpoint, is_empty, is_global, validate_scope, validate_endpoint}

-- A valid endpoint is global exactly when it has no Region; a signing service and a signing Region
-- come together; at a regional endpoint the signing Region is the Region.
pub record IsPlaced (e : AwsEndpoint) : Type 0 where
  pub scope : is_global e ≡ is_empty e.region
  pub signing : is_empty e.signing_service ≡ is_empty e.signing_region
  pub signed_here :
      is_global e ≡ false → is_empty e.signing_service ≡ false → e.signing_region ≡ e.region

blank_of_empty : (s : Bytes) → is_empty s ≡ true → is_blank s ≡ true
unfolding is_blank all_runes any_rune any_value runes_from
blank_of_empty [] h = refl
blank_of_empty (c ∷ s) h = absurd (ground arith)

pub validate_endpoint-IsPlaced : (e : AwsEndpoint) → validate_endpoint e ≡ ok tt → IsPlaced e
unfolding validate_endpoint validate_scope
validate_endpoint-IsPlaced e h = record {
  scope = ground (arith, blank_of_empty e.region);
  signing = ground arith;
  signed_here = λ regional signed. ground (arith, bytes_eq→eq e.signing_region e.region);
}
