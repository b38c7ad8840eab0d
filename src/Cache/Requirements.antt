-- ===== src/Cache/Requirements.antt =====
-- internal/cache/keys.go: `RequirementsKey`, of a slice of `awsrequest.IAMRequirement`. The source
-- reads the fields by reflection.
use kordn.Base.{
  List, [], ◌∷◌, map, Bool, if◌then◌else◌, Bytes, codes, join, bytes_lt, sort_by, sort_strings,
}
use kordn.AwsRequest.Mapping.{
  IamRequirement, ScopeKind, exact, set, known_global, unresolved, other_kind,
}
use kordn.Cache.Keys.{canonical_key, hash_key}
pub mod Order

unfoldable pub scope_kind_text : ScopeKind → Bytes
scope_kind_text exact = codes "exact"
scope_kind_text set = codes "set"
scope_kind_text known_global = codes "known_global"
scope_kind_text unresolved = codes "unresolved"
scope_kind_text (other_kind s) = s

-- `fmt.Sprint` of a bool.
unfoldable pub bool_text : Bool → Bytes
bool_text b = if b then codes "true" else codes "false"

abbrev pub nul : Bytes
nul = 0 ∷ []

-- One key of the condition hint with its values.
unfoldable pub condition_text : Bytes × List Bytes → Bytes
condition_text (key, values) = canonical_key (key ∷ join (sort_strings values) nul ∷ [])

unfoldable pub conditions_text : List (Bytes × List Bytes) → Bytes
conditions_text hint = join (map condition_text (sort_by (λ a b. bytes_lt a.0 b.0) hint)) nul

-- One round of the loop.
unfoldable pub requirement_item : IamRequirement → Bytes
requirement_item r = canonical_key (
    r.action
    ∷ scope_kind_text r.scope_kind
    ∷ bool_text r.dependent
    ∷ join (sort_strings r.resources) nul
    ∷ conditions_text r.condition_hint
    ∷ [])

unfoldable pub requirements_key : (Bytes → Bytes) → List IamRequirement → Bytes
requirements_key digest rs =
    hash_key digest (codes "requirements" ∷ sort_strings (map requirement_item rs))
