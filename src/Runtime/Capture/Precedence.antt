-- ===== src/Runtime/Capture/Precedence.antt =====
-- internal/runtime/env.go: which of the parent's variables a captured setting is.
use mathlib.Core.Path.{subst}
use kordn.Base.{
  sym, ◌∙◌, ◌≡◌, refl, ap, ap₂, List, [], ◌∷◌, false, Bool-cases, inl, inr, Option, Option-cases,
  none, some, Bytes, arith, codes, cut, if◌then◌else◌, bytes_eq, bytes_eq→eq, All,
}
use kordn.Runtime.Capture.{
  Captured, nothing_captured, capture_one, capture, upper_or, capture_proxy_settings,
}

-- The value of the last variable of a name, or else `before`.
unfoldable pub last_value : Bytes → List Bytes → Option Bytes → Option Bytes
last_value name [] before = before
last_value name (item ∷ items) before = elim (cut item b'=') [
  | none ↦ last_value name items before
  | some (key, value) ↦ last_value name items (if bytes_eq key name then some value else before)
]

abbrev pub value_or : Bytes → Option Bytes → Bytes
value_or default (some value) = value
value_or default none = default

-- The last variable with the name in capitals, even if it is empty; without one the last with the name
-- in small letters; without either the empty text.
abbrev pub preferred : Bytes → Bytes → List Bytes → Bytes
preferred upper lower env =
    value_or (value_or [] (last_value lower env none)) (last_value upper env none)

-- The start counts only where the name does not occur.
last_value-value_or :
    (name : Bytes) (env : List Bytes) (default : Bytes) (start : Option Bytes)
    → last_value name env (some (value_or default start))
      ≡ some (value_or default (last_value name env start))
unfolding last_value
last_value-value_or name [] default start = refl
last_value-value_or name (item ∷ items) default start = elim (Option-cases (cut item b'=')) [
  | inl e ↦ rw (e, last_value) (last_value-value_or name items default start)
  | inr ((key, value), e) ↦ elim (Bool-cases (bytes_eq key name)) [
    | inl is ↦ rw (e, is, last_value) (last_value-value_or name items default (some value))
    | inr differs ↦ rw (e, differs, last_value) (last_value-value_or name items default start)
  ]
]

upper_or-value_or : (o : Option Bytes) (default : Bytes) → upper_or o default ≡ value_or default o
upper_or-value_or none default = refl
upper_or-value_or (some value) default = refl

-- The names of the switch.
abbrev setting_names : List Bytes
setting_names =
    codes "HTTP_PROXY"
    ∷ codes "http_proxy"
    ∷ codes "HTTPS_PROXY"
    ∷ codes "https_proxy"
    ∷ codes "NO_PROXY"
    ∷ codes "no_proxy"
    ∷ codes "ALL_PROXY"
    ∷ codes "all_proxy"
    ∷ []

abbrev IsUnnamed : Bytes → List Bytes → Type 0
IsUnnamed key names = All (λ name. bytes_eq key name ≡ false) names

-- A property of each name, and of a key that is none of them.
by_name :
    (P : Bytes → Type 0) (names : List Bytes) (key : Bytes)
    → All P names
    → (IsUnnamed key names → P key)
    → P key
by_name P [] key each other = other tt
by_name P (name ∷ names) key (one, each) other = elim (Bool-cases (bytes_eq key name)) [
  | inl is ↦ subst P (sym (bytes_eq→eq key name is)) one
  | inr differs ↦ by_name P names key each (λ all_differ. other (differs, all_differ))
]

capture_one-unnamed :
    (value : Bytes) (c : Captured) (key : Bytes)
    → IsUnnamed key setting_names
    → capture_one key value c ≡ c
unfolding capture_one
capture_one-unnamed value c key (n1, (n2, (n3, (n4, (n5, (n6, (n7, (n8, _)))))))) =
    rw (n1, n2, n3, n4, n5, n6, n7, n8, capture_one) refl

-- The switch sets this field at this name alone.
abbrev SetsAt : Bytes → (Captured → Option Bytes) → Bytes → Captured → Bytes → Type 0
SetsAt name field value c key =
    field (capture_one key value c) ≡ (if bytes_eq key name then some value else field c)

abbrev Sets : Bytes → (Captured → Option Bytes) → Type 0
Sets name field = (value : Bytes) (c : Captured) (key : Bytes) → SetsAt name field value c key

of_names-Sets :
    (name : Bytes) (field : Captured → Option Bytes)
    → ((key : Bytes) → IsUnnamed key setting_names → bytes_eq key name ≡ false)
    → ((value : Bytes) (c : Captured) → All (SetsAt name field value c) setting_names)
    → Sets name field
of_names-Sets name field is_name at_names value c key =
    by_name (SetsAt name field value c) setting_names key (at_names value c)
      (λ unnamed. rw (is_name key unnamed, capture_one-unnamed value c key unnamed) refl)

-- A field that the switch sets at one name holds the last value of it.
capture-last_value :
    (name : Bytes) (field : Captured → Option Bytes)
    → Sets name field
    → (env : List Bytes) (c : Captured) → field (capture env c) ≡ last_value name env (field c)
unfolding capture last_value
capture-last_value name field sets [] c = refl
capture-last_value name field sets (item ∷ items) c = elim (Option-cases (cut item b'=')) [
  | inl e ↦ rw (e, capture, last_value) (capture-last_value name field sets items c)
  | inr ((key, value), e) ↦
      rw (e, capture, last_value)
        (capture-last_value name field sets items (capture_one key value c)
          ∙ ap (last_value name items) (sets value c key))
]

http_upper-Sets : Sets (codes "HTTP_PROXY") (λ c. c.http_upper)
unfolding capture_one bytes_eq
http_upper-Sets =
    of_names-Sets (codes "HTTP_PROXY") (λ c. c.http_upper) (λ key unnamed. unnamed.0)
      (λ value c. ground arith)

http_lower-Sets : Sets (codes "http_proxy") (λ c. some c.http_lower)
unfolding capture_one bytes_eq
http_lower-Sets =
    of_names-Sets (codes "http_proxy") (λ c. some c.http_lower) (λ key unnamed. unnamed.1.0)
      (λ value c. ground arith)

https_upper-Sets : Sets (codes "HTTPS_PROXY") (λ c. c.https_upper)
unfolding capture_one bytes_eq
https_upper-Sets =
    of_names-Sets (codes "HTTPS_PROXY") (λ c. c.https_upper) (λ key unnamed. unnamed.1.1.0)
      (λ value c. ground arith)

https_lower-Sets : Sets (codes "https_proxy") (λ c. some c.https_lower)
unfolding capture_one bytes_eq
https_lower-Sets =
    of_names-Sets (codes "https_proxy") (λ c. some c.https_lower) (λ key unnamed. unnamed.1.1.1.0)
      (λ value c. ground arith)

no_proxy_upper-Sets : Sets (codes "NO_PROXY") (λ c. c.no_proxy_upper)
unfolding capture_one bytes_eq
no_proxy_upper-Sets =
    of_names-Sets (codes "NO_PROXY") (λ c. c.no_proxy_upper) (λ key unnamed. unnamed.1.1.1.1.0)
      (λ value c. ground arith)

no_proxy_lower-Sets : Sets (codes "no_proxy") (λ c. some c.no_proxy_lower)
unfolding capture_one bytes_eq
no_proxy_lower-Sets =
    of_names-Sets (codes "no_proxy") (λ c. some c.no_proxy_lower)
      (λ key unnamed. unnamed.1.1.1.1.1.0) (λ value c. ground arith)

all_upper-Sets : Sets (codes "ALL_PROXY") (λ c. c.all_upper)
unfolding capture_one bytes_eq
all_upper-Sets =
    of_names-Sets (codes "ALL_PROXY") (λ c. c.all_upper) (λ key unnamed. unnamed.1.1.1.1.1.1.0)
      (λ value c. ground arith)

all_lower-Sets : Sets (codes "all_proxy") (λ c. some c.all_lower)
unfolding capture_one bytes_eq
all_lower-Sets =
    of_names-Sets (codes "all_proxy") (λ c. some c.all_lower)
      (λ key unnamed. unnamed.1.1.1.1.1.1.1.0) (λ value c. ground arith)

-- A setting that is made of two fields.
preferred-fields :
    (upper lower : Bytes) (u : Captured → Option Bytes) (l : Captured → Bytes)
    → Sets upper u
    → Sets lower (λ c. some (l c))
    → u nothing_captured ≡ none
    → l nothing_captured ≡ []
    → (env : List Bytes)
    → upper_or (u (capture env nothing_captured)) (l (capture env nothing_captured))
      ≡ preferred upper lower env
preferred-fields upper lower u l sets_u sets_l no_u no_l env =
    let high : u (capture env nothing_captured) ≡ last_value upper env none =
      capture-last_value upper u sets_u env nothing_captured ∙ ap (last_value upper env) no_u in
    let low : some (l (capture env nothing_captured))
        ≡ some (value_or [] (last_value lower env none)) =
      capture-last_value lower (λ c. some (l c)) sets_l env nothing_captured
      ∙ ap (λ x. last_value lower env (some x)) no_l
      ∙ last_value-value_or lower env [] none in
    ap₂ upper_or high (ap (value_or []) low)
    ∙ upper_or-value_or (last_value upper env none) (value_or [] (last_value lower env none))

-- Each setting that CaptureProxySettings returns is the last variable with its name in capitals, even
-- an empty one; without one, the last with its name in small letters; without either, the empty text.
pub capture_proxy_settings-preferred :
    (env : List Bytes)
    → capture_proxy_settings env ≡ record {
      http_proxy = preferred (codes "HTTP_PROXY") (codes "http_proxy") env;
      https_proxy = preferred (codes "HTTPS_PROXY") (codes "https_proxy") env;
      no_proxy = preferred (codes "NO_PROXY") (codes "no_proxy") env;
      all_proxy = preferred (codes "ALL_PROXY") (codes "all_proxy") env;
    }
unfolding capture_proxy_settings
capture_proxy_settings-preferred env =
    rw
      (
        preferred-fields (codes "HTTP_PROXY") (codes "http_proxy") (λ c. c.http_upper)
            (λ c. c.http_lower) http_upper-Sets http_lower-Sets refl refl env,
        preferred-fields (codes "HTTPS_PROXY") (codes "https_proxy") (λ c. c.https_upper)
            (λ c. c.https_lower) https_upper-Sets https_lower-Sets refl refl env,
        preferred-fields (codes "NO_PROXY") (codes "no_proxy") (λ c. c.no_proxy_upper)
            (λ c. c.no_proxy_lower) no_proxy_upper-Sets no_proxy_lower-Sets refl refl env,
        preferred-fields (codes "ALL_PROXY") (codes "all_proxy") (λ c. c.all_upper)
            (λ c. c.all_lower) all_upper-Sets all_lower-Sets refl refl env,
      )
      refl
