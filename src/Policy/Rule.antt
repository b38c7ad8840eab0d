-- ===== src/Policy/Rule.antt =====
-- internal/policy/engine.go: rules, their compilation, and the match of one rule.
use kordn.Base.{
  ℕ, List, [], ◌∷◌, Bool, true, false, not, ◌&&◌, ◌||◌, Bytes, codes, length, ◌==◌, ltb,
  if◌then◌else◌, bytes_eq, contains, has_prefix, Result, ok, err, ◌>>=◌, ◌>>◌, fail_if,
}
use kordn.AwsRequest.Mapping.{ScopeKind, known_global}
use kordn.Policy.Glob.{Glob, GlobError, match, compile_glob, ascii_lower}
use kordn.Policy.Arn.{
  is_nil, valid_identifier, valid_region, valid_account, valid_partition, parse_arn,
}

abbrev pub max_rule_values : ℕ
max_rule_values = 1000

-- `Effect` is a string of the configuration.
pub data Effect : Type 0 where
  allow deny : Effect
  other_effect : Bytes → Effect

-- `ruleSnapshot`.
pub record RuleSnapshot : Type 0 where
  pub id : Bytes
  pub effect : Effect
  pub actions : List Bytes
  pub resources : List Bytes
  pub regions : List Bytes
  pub accounts : List Bytes
  pub partitions : List Bytes
  pub wildcard : Bool

-- `compiledRule`; a set of strings is the list of its keys.
pub record CompiledRule : Type 0 where
  pub id : Bytes
  pub effect : Effect
  pub actions : List Glob
  pub resources : List Glob
  pub regions : List Bytes
  pub accounts : List Bytes
  pub partitions : List Bytes
  pub allow_aws_required_wildcard : Bool

pub data Label : Type 0 where
  region account partition : Label

pub data RuleError : Type 0 where
  bad_id bad_effect wildcard_on_deny lists_out_of_bounds : RuleError
  duplicate_action duplicate_resource : RuleError
  bad_action bad_resource : GlobError → RuleError
  too_many bad_constraint duplicate_constraint : Label → RuleError

abbrev pub is_deny : Effect → Bool
is_deny deny = true
is_deny _ = false

abbrev pub is_allow : Effect → Bool
is_allow allow = true
is_allow _ = false

-- `fmt.Errorf("action: %w", err)`.
abbrev pub wrap : (GlobError → RuleError) → Result GlobError Glob → Result RuleError Glob
wrap f (ok g) = ok g
wrap f (err e) = err (f e)

-- The loop over the actions; `seen` holds the folded texts already met.
unfoldable pub compile_actions : List Bytes → List Bytes → Result RuleError (List Glob)
compile_actions seen [] = ok []
compile_actions seen (value ∷ values) =
    let rest = compile_actions (ascii_lower value ∷ seen) values in
    do
      fail_if (contains seen (ascii_lower value)) duplicate_action
      glob ← wrap bad_action (compile_glob value true)
      globs ← rest
      ok (glob ∷ globs)

unfoldable pub compile_resources : List Bytes → List Bytes → Result RuleError (List Glob)
compile_resources seen [] = ok []
compile_resources seen (value ∷ values) =
    let rest = compile_resources (value ∷ seen) values in
    do
      fail_if (contains seen value) duplicate_resource
      glob ← wrap bad_resource (compile_glob value false)
      globs ← rest
      ok (glob ∷ globs)

-- The loop of `compileConstraintSet`, into `destination`.
unfoldable pub constraint_loop :
    Label → (Bytes → Bool) → List Bytes → List Bytes → Result RuleError (List Bytes)
constraint_loop label valid destination [] = ok destination
constraint_loop label valid destination (value ∷ values) =
    let rest = constraint_loop label valid (value ∷ destination) values in
    do
      fail_if (is_nil value || not (valid value)) (bad_constraint label)
      fail_if (contains destination value) (duplicate_constraint label)
      rest

unfoldable pub compile_constraint_set :
    Label → (Bytes → Bool) → List Bytes → Result RuleError (List Bytes)
compile_constraint_set label valid values = do
  fail_if (ltb max_rule_values (length values)) (too_many label)
  constraint_loop label valid [] values

unfoldable pub compile_rule : RuleSnapshot → Result RuleError CompiledRule
compile_rule source = do
  fail_if
      (length source.id == 0 || ltb 128 (length source.id) || not (valid_identifier source.id true))
      bad_id
  fail_if (not (is_allow source.effect) && not (is_deny source.effect)) bad_effect
  fail_if (is_deny source.effect && source.wildcard) wildcard_on_deny
  fail_if
      (length source.actions == 0
        || ltb max_rule_values (length source.actions)
        || length source.resources == 0
        || ltb max_rule_values (length source.resources))
      lists_out_of_bounds
  actions ← compile_actions [] source.actions
  resources ← compile_resources [] source.resources
  regions ← compile_constraint_set region valid_region source.regions
  accounts ← compile_constraint_set account valid_account source.accounts
  partitions ← compile_constraint_set partition valid_partition source.partitions
  ok (record {
    id = source.id;
    effect = source.effect;
    actions = actions;
    resources = resources;
    regions = regions;
    accounts = accounts;
    partitions = partitions;
    allow_aws_required_wildcard = source.wildcard;
  })

-- What `ruleMatches` reads of the request.
pub record RequestContext : Type 0 where
  pub partition : Bytes
  pub region : Bytes
  pub caller_account_id : Bytes

unfoldable pub constraint_matches : List Bytes → Bytes → Bool
constraint_matches [] value = true
constraint_matches (v ∷ vs) value = contains (v ∷ vs) value

unfoldable pub any_match : List Glob → Bytes → Bool
any_match [] value = false
any_match (g ∷ gs) value = if match g value then true else any_match gs value

unfoldable pub rule_has_literal_star : List Glob → Bool
rule_has_literal_star [] = false
rule_has_literal_star (g ∷ gs) =
    if bytes_eq g.pattern (codes "*") then true else rule_has_literal_star gs

abbrev pub is_known_global : ScopeKind → Bool
is_known_global known_global = true
is_known_global _ = false

abbrev pub has_constraint : CompiledRule → Bool
has_constraint rule =
    not (length rule.regions == 0)
    || not (length rule.accounts == 0)
    || not (length rule.partitions == 0)

-- The branch of `ruleMatches` for an ARN.
unfoldable pub arn_matches : CompiledRule → Bytes → RequestContext → Bool
arn_matches rule resource request = elim (parse_arn resource) [
  | err _ ↦ false
  | ok arn ↦
      if not (bytes_eq arn.partition request.partition)
      then false
      else if not (is_nil arn.region) && not (bytes_eq arn.region request.region)
      then false
      else constraint_matches rule.regions arn.region
        && constraint_matches rule.accounts arn.account
        && constraint_matches rule.partitions arn.partition
]

unfoldable pub rule_matches : CompiledRule → Bytes → Bytes → ScopeKind → RequestContext → Bool
rule_matches rule action resource scope request =
    if not (any_match rule.actions action)
    then false
    else if not (any_match rule.resources resource)
    then false
    else if has_prefix resource (codes "arn:")
    then arn_matches rule resource request
    else if bytes_eq resource (codes "*") && is_known_global scope
    then constraint_matches rule.regions request.region
      && constraint_matches rule.accounts request.caller_account_id
      && constraint_matches rule.partitions request.partition
    else if has_constraint rule
    then false
    else true
