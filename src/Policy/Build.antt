-- ===== src/Policy/Build.antt =====
-- internal/policy/engine.go: `NewEngine`, and the canonical form of a policy that is hashed.
use kordn.Base.{
  ℕ, ◌+◌, List, [], ◌∷◌, map, Bool, true, false, not, Bytes, codes, length, ltb, if◌then◌else◌,
  bytes_eq, bytes_lt, contains, sort_by, sort_strings, Result, ok, err, ◌>>=◌, ◌>>◌, fail_if,
}
use kordn.Policy.Glob.{ascii_lower}
use kordn.Policy.Rule.{RuleSnapshot, CompiledRule, RuleError, compile_rule}
use kordn.Policy.Engine.{Engine}
pub mod Order

abbrev pub max_policy_rules : ℕ
max_policy_rules = 10000

-- `policySnapshot`: the copy of the configuration, whose fields the source reads by reflection.
pub record PolicySnapshot : Type 0 where
  pub default_value : Bytes
  pub rules : List RuleSnapshot

pub data EngineError : Type 0 where
  bad_default too_many_rules : EngineError
  bad_rule : ℕ → RuleError → EngineError
  duplicate_rule : Bytes → EngineError
  bad_hash : EngineError

-- The loop of `normalizeValues`; `seen` holds the values already kept.
unfoldable pub distinct_values : Bool → List Bytes → List Bytes → List Bytes
distinct_values lower seen [] = []
distinct_values lower seen (value ∷ values) =
    let v = if lower then ascii_lower value else value in
    let skip = distinct_values lower seen values in
    let keep = distinct_values lower (v ∷ seen) values in if contains seen v then skip else v ∷ keep

unfoldable pub normalize_values : List Bytes → Bool → List Bytes
normalize_values values lower = sort_strings (distinct_values lower [] values)

-- The canonical struct has the fields of a rule snapshot, each list normalised.
unfoldable pub canonical_rule : RuleSnapshot → RuleSnapshot
canonical_rule r = record r {
  actions = normalize_values r.actions true;
  resources = normalize_values r.resources false;
  regions = normalize_values r.regions false;
  accounts = normalize_values r.accounts false;
  partitions = normalize_values r.partitions false;
}

unfoldable pub canonical_policy : PolicySnapshot → PolicySnapshot
canonical_policy p = record p {
  rules = sort_by (λ a b. bytes_lt a.id b.id) (map canonical_rule p.rules);
}

-- `fmt.Errorf("rule %d: %w", index, err)`.
abbrev pub at_index : ℕ → Result RuleError CompiledRule → Result EngineError CompiledRule
at_index index (ok rule) = ok rule
at_index index (err e) = err (bad_rule index e)

-- The loop over the rules; `seen` holds the identifiers already met.
unfoldable pub compile_rules :
    ℕ → List Bytes → List RuleSnapshot → Result EngineError (List CompiledRule)
compile_rules index seen [] = ok []
compile_rules index seen (source ∷ sources) = do
  rule ← at_index index (compile_rule source)
  fail_if (contains seen rule.id) (duplicate_rule rule.id)
  rules ← compile_rules (index + 1) (rule.id ∷ seen) sources
  ok (rule ∷ rules)

-- `NewEngine`. `digest` is the encoding to JSON with its SHA-256, which may fail.
module _ (digest : PolicySnapshot → Result EngineError Bytes) where
  unfoldable pub new_engine : PolicySnapshot → Result EngineError Engine
  new_engine policy = do
    fail_if (not (bytes_eq policy.default_value (codes "deny"))) bad_default
    fail_if (ltb max_policy_rules (length policy.rules)) too_many_rules
    rules ← compile_rules 0 [] policy.rules
    hash ← digest (canonical_policy policy)
    ok (record {
      default_deny = true;
      rules = sort_by (λ a b. bytes_lt a.id b.id) rules;
      hash = hash;
    })
