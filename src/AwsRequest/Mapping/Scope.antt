-- ===== src/AwsRequest/Mapping/Scope.antt =====
-- What a valid requirement says of its resources.
use kordn.Base.{
  List, [], ◌∷◌, Bool, true, false, not, ◌&&◌, ◌||◌, ◌≡◌, refl, arith, Bytes, all, length, ◌==◌,
  bytes_eq, contains, ok,
}
use kordn.AwsRequest.Mapping.{
  ScopeKind, exact, set, known_global, unresolved, other_kind, scope_valid, IamRequirement,
  check_resources, is_lone_star, check_scope, validate_requirement,
}

-- No resource stands twice.
unfoldable pub distinct : List Bytes → Bool
distinct [] = true
distinct (r ∷ rs) = all (λ s. not (bytes_eq r s)) rs && distinct rs

-- What the scope promises of the resources.
unfoldable pub scope_shape : ScopeKind → List Bytes → Bool
scope_shape exact rs = length rs == 1
scope_shape set rs = not (length rs == 0)
scope_shape known_global rs = is_lone_star rs
scope_shape unresolved rs = true
scope_shape (other_kind s) rs = false

pub record IsShaped (r : IamRequirement) : Type 0 where
  pub present : all (λ s. not (length s == 0)) r.resources ≡ true
  pub once : distinct r.resources ≡ true
  pub shape : scope_shape r.scope_kind r.resources ≡ true

all-neither :
    (p q : Bytes → Bool) (xs : List Bytes)
    → all (λ x. not (p x || q x)) xs ≡ true
    → (all (λ x. not (p x)) xs ≡ true) × (all (λ x. not (q x)) xs ≡ true)
all-neither p q [] h = (refl, refl)
all-neither p q (x ∷ xs) h =
    let (hp, hq) = all-neither p q xs (ground arith) in (ground arith, ground arith)

check_resources-distinct :
    (seen rs : List Bytes)
    → check_resources seen rs ≡ ok tt
    → (all (λ s. not (length s == 0)) rs ≡ true)
      × (distinct rs ≡ true)
      × (all (λ s. not (contains seen s)) rs ≡ true)
unfolding check_resources distinct contains
check_resources-distinct seen [] h = (refl, refl, refl)
check_resources-distinct seen (r ∷ rs) h =
    let (present, once, fresh) = check_resources-distinct (r ∷ seen) rs (ground arith) in
    let (other, unseen) = all-neither (bytes_eq r) (contains seen) rs fresh in
    (ground arith, ground arith, ground arith)

check_scope-shape :
    (k : ScopeKind) (rs : List Bytes)
    → scope_valid k ≡ true
    → check_scope k rs ≡ ok tt
    → scope_shape k rs ≡ true
unfolding check_scope scope_shape scope_valid
check_scope-shape exact rs v h = ground arith
check_scope-shape set rs v h = ground arith
check_scope-shape known_global rs v h = ground arith
check_scope-shape unresolved rs v h = refl
check_scope-shape (other_kind s) rs v h = absurd (ground arith)

requirement-checks :
    (r : IamRequirement)
    → validate_requirement r ≡ ok tt
    → (scope_valid r.scope_kind ≡ true)
      × (check_resources [] r.resources ≡ ok tt)
      × (check_scope r.scope_kind r.resources ≡ ok tt)
unfolding validate_requirement
requirement-checks r h = ground arith

-- The resources of a valid requirement are not empty texts and stand once each; there is one at an
-- exact scope, at least one at a set, only the star at a known global one.
pub validate_requirement-IsShaped :
    (r : IamRequirement) → validate_requirement r ≡ ok tt → IsShaped r
validate_requirement-IsShaped r h =
    let (valid, resources, scope) = requirement-checks r h in
    let (present, once, fresh) = check_resources-distinct [] r.resources resources in
    record {
      present = present;
      once = once;
      shape = check_scope-shape r.scope_kind r.resources valid scope;
    }
