-- ===== src/Sigv4/Authorization/Names.antt =====
-- internal/sigv4/verify.go: the list of signed headers.
use kordn.Base.{
  ◌≡◌, List, [], ◌∷◌, false, true, not, ◌||◌, Option, none, some, Bytes, codes, arith, All, ok,
  fail_if-eq-ok, split, join, contains, bytes_lt, bytes_eq, bytes_eq→eq, to_lower,
}
use kordn.Sigv4.Header.{valid_header_name}
use kordn.Sigv4.Authorization.{check_names, parse_signed_headers, out_of_order, unsorted}
use kordn.Sigv4.Authorization.Scope.{split-IsJoined}

-- Each name stands behind a smaller one.
abbrev pub Ascends : Option Bytes → List Bytes → Type 0
Ascends before [] = Unit
Ascends none (name ∷ names) = Ascends (some name) names
Ascends (some before) (name ∷ names) = (bytes_lt before name ≡ true) × Ascends (some name) names

-- The names of a header list: strictly ascending, valid, in lower case, with the host, and joined by
-- semicolons in the text that they were read from.
pub record IsNameList (value : Bytes) (names : List Bytes) : Type 0 where
  pub text : join names (b';' ∷ []) ≡ value
  pub ascending : Ascends none names
  pub valid : All (λ name. valid_header_name name ≡ true) names
  pub lower : All (λ name. name ≡ to_lower name) names
  pub with_host : contains names (codes "host") ≡ true

check_names-All :
    (before : Option Bytes) (names : List Bytes)
    → check_names before names ≡ ok tt
    → Ascends before names
      × All (λ name. valid_header_name name ≡ true) names
      × All (λ name. name ≡ to_lower name) names
unfolding check_names
check_names-All before [] h = (tt, tt, tt)
check_names-All none (name ∷ names) h =
    let bad = not (valid_header_name name) || not (bytes_eq name (to_lower name)) || false in
    let (good, h1) = fail_if-eq-ok bad unsorted (check_names (some name) names) h in
    let (ordered, valid, lower) = check_names-All (some name) names h1 in
    (
      ordered,
      (ground (arith, good), valid),
      (ground (arith, good, bytes_eq→eq name (to_lower name)), lower),
    )
check_names-All (some before) (name ∷ names) h =
    let bad =
      not (valid_header_name name)
      || not (bytes_eq name (to_lower name))
      || out_of_order (some before) name in
    let (good, h1) = fail_if-eq-ok bad unsorted (check_names (some name) names) h in
    let (ordered, valid, lower) = check_names-All (some name) names h1 in
    (
      (ground (arith, good), ordered),
      (ground (arith, good), valid),
      (ground (arith, good, bytes_eq→eq name (to_lower name)), lower),
    )

-- parseSignedHeaders returns only a name list, and one whose text is the value that it read.
pub parse_signed_headers-IsNameList :
    (value : Bytes) (names : List Bytes)
    → parse_signed_headers value ≡ ok names
    → IsNameList value names
unfolding parse_signed_headers
parse_signed_headers-IsNameList value names h =
    ground (arith, split-IsJoined value b';', check_names-All none (split value b';'))
