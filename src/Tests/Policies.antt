-- ===== src/Tests/Policies.antt =====
-- Policies: ARNs and the construction of an engine.
use kordn.Base.{[], ◌∷◌, List, true, false, ◌||◌, Bytes, codes, ◌≡◌, refl, Result, ok, map}
use kordn.AwsRequest.Mapping.{IamRequirement}
use kordn.Policy.Arn.{Arn, parse_arn, is_nil, valid_partition, valid_region, valid_account}
use kordn.Policy.Arn.Fields.{print_arn, parse_arn-print_arn}
use kordn.Policy.Rule.{Effect, RuleSnapshot, CompiledRule, RequestContext}
use kordn.Policy.Verdict.{verdict}
use kordn.Policy.Engine.{Engine}
use kordn.Policy.Build.{PolicySnapshot, EngineError, compile_rules, canonical_policy, new_engine}
use kordn.Policy.Build.Order.{new_engine-verdict}
use kordn.Tests.Program.{builds}

abbrev table_arn : Bytes
table_arn = codes "arn:aws:dynamodb:us-east-1:123456789012:table/a:b"

abbrev table : Arn
table = record {
  partition = codes "aws";
  service = codes "dynamodb";
  region = codes "us-east-1";
  account = codes "123456789012";
  resource = codes "table/a:b";
}

table_parsed : parse_arn table_arn ≡ ok table
unfolding builds
table_parsed = refl

parse_arn-print_arn_example :
    (table_arn ≡ print_arn table)
    × (valid_partition table.partition ≡ true)
    × (is_nil table.service ≡ false)
    × (is_nil table.resource ≡ false)
    × ((is_nil table.region || valid_region table.region) ≡ true)
    × ((is_nil table.account || valid_account table.account) ≡ true)
parse_arn-print_arn_example = parse_arn-print_arn table_arn table table_parsed

abbrev source_rule : Bytes → Effect → RuleSnapshot
source_rule name effect = record {
  id = name;
  effect = effect;
  actions = codes "S3:Get*" ∷ [];
  resources = codes "*" ∷ [];
  regions = [];
  accounts = [];
  partitions = [];
  wildcard = false;
}

abbrev policy : PolicySnapshot
policy = record {
  default_value = codes "deny";
  rules = source_rule (codes "b") Effect.allow ∷ source_rule (codes "a") Effect.deny ∷ [];
}

abbrev compiled : Bytes → Effect → CompiledRule
compiled name effect = record {
  id = name;
  effect = effect;
  actions = record { pattern = codes "s3:get*"; action = true } ∷ [];
  resources = record { pattern = codes "*"; action = false } ∷ [];
  regions = [];
  accounts = [];
  partitions = [];
  allow_aws_required_wildcard = false;
}

abbrev engine : Engine
engine = record {
  default_deny = true;
  rules = compiled (codes "a") Effect.deny ∷ compiled (codes "b") Effect.allow ∷ [];
  hash = codes "h";
}

abbrev digest : PolicySnapshot → Result EngineError Bytes
digest p = ok (codes "h")

engine_built : new_engine digest policy ≡ ok engine
unfolding builds
engine_built = refl

actions_canonical :
    map (λ (r : RuleSnapshot). r.actions) (canonical_policy policy).rules
    ≡ (codes "s3:get*" ∷ []) ∷ (codes "s3:get*" ∷ []) ∷ []
unfolding builds
actions_canonical = refl

new_engine-verdict_example :
    (policy.default_value ≡ codes "deny")
    × (digest (canonical_policy policy) ≡ ok engine.hash)
    × (rules : List CompiledRule) × (compile_rules 0 [] policy.rules ≡ ok rules)
    × ((request : RequestContext) (requirements : List IamRequirement)
        → verdict request engine.rules requirements ≡ verdict request rules requirements)
new_engine-verdict_example = new_engine-verdict digest policy engine engine_built
