-- ===== src/Cache/Requirements/Order.antt =====
-- Orders that do not change the key of requirements.
use mathlib.Core.List.{Permᴰ}
use mathlib.Core.List.Permᴰ
use kordn.Base.{
  List, [], ◌∷◌, map, Bool, ◌≡◌, refl, ap, ap₂, ◌∙◌, Bytes, codes, join, sort_by, insert_by,
  bytes_lt, sort_strings, sort_strings-perm, Bool-cases, inl, inr,
}
use kordn.AwsRequest.Mapping.{IamRequirement}
use kordn.Cache.Keys.{canonical_key, hash_key}
use kordn.Cache.Requirements.{
  condition_text, conditions_text, requirement_item, requirements_key, nul,
}

-- Two hints that differ in the order of each condition's values.
pub data SameConditions : List (Bytes × List Bytes) → List (Bytes × List Bytes) → Type 0 where
  none_left : SameConditions [] []
  condition :
      {key : Bytes} {values values' : List Bytes} {hint hint' : List (Bytes × List Bytes)}
      → Permᴰ values values'
      → SameConditions hint hint'
      → SameConditions ((key, values) ∷ hint) ((key, values') ∷ hint')

-- Two requirements that differ in the order of their resources and of their conditions' values.
pub record SameRequirement (q r : IamRequirement) : Type 0 where
  pub action : q.action ≡ r.action
  pub scope_kind : q.scope_kind ≡ r.scope_kind
  pub dependent : q.dependent ≡ r.dependent
  pub resources : Permᴰ q.resources r.resources
  pub conditions : SameConditions q.condition_hint r.condition_hint

pub data SameRequirements : List IamRequirement → List IamRequirement → Type 0 where
  no_more : SameRequirements [] []
  requirement :
      {q r : IamRequirement} {qs rs : List IamRequirement}
      → SameRequirement q r
      → SameRequirements qs rs
      → SameRequirements (q ∷ qs) (r ∷ rs)

abbrev by_key : Bytes × List Bytes → Bytes × List Bytes → Bool
by_key a b = bytes_lt a.0 b.0

insert_by-SameConditions :
    (key : Bytes) (values values' : List Bytes) (hint hint' : List (Bytes × List Bytes))
    → Permᴰ values values'
    → SameConditions hint hint'
    → SameConditions (insert_by by_key (key, values) hint) (insert_by by_key (key, values') hint')
unfolding insert_by
insert_by-SameConditions key values values' _ _ p none_left = condition p none_left
insert_by-SameConditions key values values' _ _ p
      (condition {key = key'} {values = v} {values' = v'} {hint = h} {hint' = h'} q c) =
    let rest = insert_by-SameConditions key values values' h h' p c in
    elim (Bool-cases (bytes_lt key' key)) [
      | inl e ↦ rw e (condition q rest)
      | inr e ↦ rw e (condition p (condition q c))
    ]

sort_by-SameConditions :
    (hint hint' : List (Bytes × List Bytes))
    → SameConditions hint hint'
    → SameConditions (sort_by by_key hint) (sort_by by_key hint')
unfolding sort_by
sort_by-SameConditions _ _ none_left = none_left
sort_by-SameConditions _ _ (condition p c) =
    insert_by-SameConditions _ _ _ _ _ p (sort_by-SameConditions _ _ c)

condition_texts-same :
    (hint hint' : List (Bytes × List Bytes))
    → SameConditions hint hint'
    → map condition_text hint ≡ map condition_text hint'
unfolding condition_text
condition_texts-same _ _ none_left = refl
condition_texts-same _ _ (condition {key = key} p c) =
    ap₂ (λ values rest. canonical_key (key ∷ join values nul ∷ []) ∷ rest) (sort_strings-perm _ _ p)
      (condition_texts-same _ _ c)

requirement_item-same :
    (q r : IamRequirement) → SameRequirement q r → requirement_item q ≡ requirement_item r
unfolding requirement_item conditions_text
requirement_item-same q r h =
    let conditions =
      condition_texts-same _ _
        (sort_by-SameConditions q.condition_hint r.condition_hint h.conditions) in
    let resources = sort_strings-perm q.resources r.resources h.resources in
    cc (h.action, h.scope_kind, h.dependent, resources, conditions)

requirement_items-same :
    (qs rs : List IamRequirement)
    → SameRequirements qs rs
    → map requirement_item qs ≡ map requirement_item rs
requirement_items-same _ _ no_more = refl
requirement_items-same _ _ (requirement h hs) =
    ap₂ ◌∷◌ (requirement_item-same _ _ h) (requirement_items-same _ _ hs)

-- Requirements have one key whatever the order of the requirements, of the resources of each, and of
-- the values of each condition.
pub requirements_key-same :
    (digest : Bytes → Bytes) (qs rs ss : List IamRequirement)
    → SameRequirements qs rs
    → Permᴰ rs ss
    → requirements_key digest qs ≡ requirements_key digest ss
unfolding requirements_key
requirements_key-same digest qs rs ss h p =
    let same = requirement_items-same qs rs h in
    let sorted = sort_strings-perm _ _ (Permᴰ.map requirement_item p) in
    ap (λ items. hash_key digest (codes "requirements" ∷ items)) (ap sort_strings same ∙ sorted)
