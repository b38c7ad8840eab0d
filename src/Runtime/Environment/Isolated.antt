-- ===== src/Runtime/Environment/Isolated.antt =====
-- internal/runtime/env.go: what of the parent's environment reaches the child.
use mathlib.Core.Path.{subst}
use kordn.Base.{
  ℕ, ◌≡◌, refl, ap, sym, ◌∙◌, List, [], ◌∷◌, ◌++◌, Bool, true, false, not, ◌&&◌, ◌||◌, codes,
  Bool-cases, inl, inr, Option, Option-cases, none, some, Bytes, arith, if◌then◌else◌, drop, ◌==◌,
  ==_iff, &&-true, ltb, ok, Result-cases, cut, to_upper, upper_byte, upper_table, replace_front,
  has_prefix, contains, bytes_eq,
}
use kordn.AwsRequest.Endpoint.{is_empty}
use kordn.Runtime.Environment.{
  ProxyUrl, EnvironmentInput, is_protected, is_passed_on, is_replaced_child_key, passed_on,
  settings, build_child_environment, validate_child_proxy_url,
}

-- The names, besides those of AWS, that a child has from Kordn or not at all.
abbrev pub reserved_names : List Bytes
reserved_names =
    codes "HTTP_PROXY"
    ∷ codes "HTTPS_PROXY"
    ∷ codes "NO_PROXY"
    ∷ codes "ALL_PROXY"
    ∷ codes "FTP_PROXY"
    ∷ codes "RSYNC_PROXY"
    ∷ codes "KORDN_RUN_ID"
    ∷ codes "KORDN_ACTIVE"
    ∷ []

-- A name that in capitals starts with AWS_ or is one of those.
abbrev pub is_reserved_name : Bytes → Bool
is_reserved_name key =
    has_prefix (to_upper key) (codes "AWS_") || contains reserved_names (to_upper key)

abbrev pub is_reserved : Bytes → Bool
is_reserved item = elim (cut item b'=') [ none ↦ false | some (key, value) ↦ is_reserved_name key ]

abbrev IsCapital : Bytes → Type 0
IsCapital s = to_upper s ≡ s

front_of : (b : ℕ) (s : Bytes) → has_prefix s (b ∷ []) ≡ true → s ≡ b ∷ drop 1 s
unfolding has_prefix
front_of b [] h = absurd (ground arith)
front_of b (a ∷ s) h = ap (λ c. c ∷ s) ((==_iff a b).0 (&&-true (a == b) true h).0)

to_upper-plain :
    (c : ℕ) (s : Bytes) → upper_byte c ≡ c → ltb c 0xC4 ≡ true → to_upper (c ∷ s) ≡ c ∷ to_upper s
unfolding to_upper replace_front has_prefix
to_upper-plain c s same low =
    let one : (c == 0xC4) ≡ false = ground arith in
    let two : (c == 0xC5) ≡ false = ground arith in rw (same, one, two) refl

-- A letter of two bytes is replaced, and the rest is in capitals.
letter-IsCapital :
    (b c : ℕ) (s : Bytes)
    → upper_byte b ≡ b
    → ltb b 0xC4 ≡ true
    → upper_byte c ≡ c
    → ltb c 0xC4 ≡ true
    → has_prefix s (b ∷ []) ≡ true
    → IsCapital s
    → IsCapital (c ∷ drop 1 s)
letter-IsCapital b c s same low same_c low_c front h =
    let whole : IsCapital (b ∷ drop 1 s) = subst IsCapital (front_of b s front) h in
    let rest : IsCapital (drop 1 s) =
      ap (drop 1) (sym (to_upper-plain b (drop 1 s) same low) ∙ whole) in
    to_upper-plain c (drop 1 s) same_c low_c ∙ ap (λ t. c ∷ t) rest

replaced-IsCapital :
    (x : ℕ) (s : Bytes)
    → upper_byte x ≡ x
    → IsCapital s
    → IsCapital (replace_front upper_table (x ∷ s))
unfolding to_upper replace_front has_prefix
replaced-IsCapital x s same h = elim (Bool-cases (has_prefix (x ∷ s) (0xC4 ∷ 0xB1 ∷ []))) [
  | inl e ↦ rw e (letter-IsCapital 0xB1 b'I' s refl refl refl refl (&&-true (x == 0xC4) _ e).1 h)
  | inr n ↦ elim (Bool-cases (has_prefix (x ∷ s) (0xC5 ∷ 0xBF ∷ []))) [
    | inl e ↦
        rw (n, e) (letter-IsCapital 0xBF b'S' s refl refl refl refl (&&-true (x == 0xC5) _ e).1 h)
    | inr n' ↦ rw (n, n') (rw (same, h, n, n') refl)
  ]
]

to_upper-to_upper : (s : Bytes) → to_upper (to_upper s) ≡ to_upper s
unfolding to_upper
to_upper-to_upper [] = refl
to_upper-to_upper (c ∷ s) =
    replaced-IsCapital (upper_byte c) (to_upper s) (ground arith) (to_upper-to_upper s)

is_protected-is_reserved_name : (key : Bytes) → is_protected key ≡ is_reserved_name key
unfolding is_replaced_child_key
is_protected-is_reserved_name key = rw (to_upper-to_upper key) refl

-- A variable with a name that is not empty and not reserved.
abbrev pub is_ordinary : Bytes → Bool
is_ordinary item = elim (cut item b'=') [
  | none ↦ false
  | some (key, value) ↦ not (is_empty key) && not (is_reserved_name key)
]

unfoldable pub ordinary : List Bytes → List Bytes
ordinary [] = []
ordinary (item ∷ items) =
    let rest = ordinary items in if is_ordinary item then item ∷ rest else rest

is_passed_on-is_ordinary : (item : Bytes) → is_passed_on item ≡ is_ordinary item
is_passed_on-is_ordinary item = elim (Option-cases (cut item b'=')) [
  | inl e ↦ rw (e, is_passed_on, is_ordinary) refl
  | inr ((key, value), e) ↦
      rw (e, is_passed_on, is_ordinary)
        (ap (λ b. not (is_empty key) && not b) (is_protected-is_reserved_name key))
]

passed_on-ordinary : (items : List Bytes) → passed_on items ≡ ordinary items
unfolding passed_on ordinary
passed_on-ordinary [] = refl
passed_on-ordinary (item ∷ items) =
    rw (is_passed_on-is_ordinary item, passed_on-ordinary items) refl

unfoldable pub reserved : List Bytes → List Bytes
reserved [] = []
reserved (item ∷ items) =
    let rest = reserved items in if is_reserved item then item ∷ rest else rest

reserved-++ : (xs ys : List Bytes) → reserved (xs ++ ys) ≡ reserved xs ++ reserved ys
unfolding reserved
reserved-++ [] ys = refl
reserved-++ (x ∷ xs) ys = elim (Bool-cases (is_reserved x)) [
  | inl kept ↦ rw kept (ap (λ rest. x ∷ rest) (reserved-++ xs ys))
  | inr dropped ↦ rw dropped (reserved-++ xs ys)
]

is_passed_on-is_reserved : (item : Bytes) → is_passed_on item ≡ true → is_reserved item ≡ false
is_passed_on-is_reserved item kept = elim (Option-cases (cut item b'=')) [
  | inl e ↦ rw (e, is_reserved) refl
  | inr ((key, value), e) ↦
      (let same : is_passed_on item ≡ (not (is_empty key) && not (is_protected key)) =
          rw (e, is_passed_on) refl in
        rw (e, is_reserved) (ground (arith, sym same ∙ kept, is_protected-is_reserved_name key)))
]

reserved-passed_on : (items : List Bytes) → reserved (passed_on items) ≡ []
unfolding reserved passed_on
reserved-passed_on [] = refl
reserved-passed_on (item ∷ items) = elim (Bool-cases (is_passed_on item)) [
  | inl kept ↦ rw (kept, is_passed_on-is_reserved item kept) (reserved-passed_on items)
  | inr dropped ↦ rw dropped (reserved-passed_on items)
]

reserved-settings :
    (input : EnvironmentInput) (url : Bytes) → reserved (settings input url) ≡ settings input url
unfolding reserved settings cut is_replaced_child_key to_upper has_prefix contains bytes_eq
    replace_front
reserved-settings input url = refl

build_child_environment-appends :
    (parse_url : Bytes → Option ProxyUrl) (input : EnvironmentInput) (env : List Bytes)
    → build_child_environment parse_url input ≡ ok env
    → (url : Bytes) × (validate_child_proxy_url parse_url input.proxy_url ≡ ok url)
      × (env ≡ passed_on input.parent_env ++ settings input url)
unfolding build_child_environment
build_child_environment-appends parse_url input env h =
    elim (Result-cases (validate_child_proxy_url parse_url input.proxy_url)) [
      | inl (e, refused) ↦ absurd (ground (arith, refused))
      | inr (url, read) ↦ (url, read, ground (arith, read))
    ]

-- An environment that BuildChildEnvironment makes is the variables of the parent that have a name that
-- is not empty and not reserved, in their order, and then those that it sets, with the proxy's address
-- that it has validated; and of the variables with a reserved name, one that in capitals starts with
-- AWS_ or is HTTP_PROXY, HTTPS_PROXY, NO_PROXY, ALL_PROXY, FTP_PROXY, RSYNC_PROXY, KORDN_RUN_ID or
-- KORDN_ACTIVE, it has those that it sets and no other.
pub build_child_environment-settings :
    (parse_url : Bytes → Option ProxyUrl) (input : EnvironmentInput) (env : List Bytes)
    → build_child_environment parse_url input ≡ ok env
    → (url : Bytes) × (validate_child_proxy_url parse_url input.proxy_url ≡ ok url)
      × (env ≡ ordinary input.parent_env ++ settings input url)
      × (reserved env ≡ settings input url)
build_child_environment-settings parse_url input env h =
    let (url, read, made) = build_child_environment-appends parse_url input env h in
    let parent = passed_on input.parent_env in
    let set = settings input url in
    (
      url,
      read,
      made ∙ ap (λ kept. kept ++ set) (passed_on-ordinary input.parent_env),
      ap reserved made
          ∙ reserved-++ parent set
          ∙ ap (λ kept. kept ++ reserved set) (reserved-passed_on input.parent_env)
          ∙ reserved-settings input url,
    )
