-- ===== src/Tests/Engines.antt =====
-- The engine: a policy of two rules, and one request.
use kordn.Base.{[], ◌∷◌, All, true, false, some, Bytes, codes, ◌≡◌, refl, ok}
use kordn.AwsError.Reason.{all_requirements_allowed, explicit_deny}
use kordn.AwsRequest.Endpoint.{AwsEndpoint, EndpointScope}
use kordn.AwsRequest.Protocol.{AwsProtocol, PayloadHashMode}
use kordn.AwsRequest.Mapping.{MappingResult, high, exact}
use kordn.AwsRequest.Request.{DecodedAwsRequest}
use kordn.Policy.Rule.{Effect, CompiledRule, compile_rule}
use kordn.Policy.Decision.{DecisionInput, DecisionResult}
use kordn.Policy.Verdict.{verdict}
use kordn.Policy.Engine.{Engine, evaluate, request_context}
use kordn.Policy.Engine.Exact.{IsAdmissible, result_for, evaluate-verdict}
use kordn.Policy.Engine.Safety.{IsGranted, evaluate-IsGranted}
use kordn.Tests.Program.{engines, rules}

abbrev pub read_rule : CompiledRule
read_rule = record {
  id = codes "read";
  effect = Effect.allow;
  actions = record { pattern = codes "dynamodb:get*"; action = true } ∷ [];
  resources = record { pattern = codes "arn:aws:dynamodb:*"; action = false } ∷ [];
  regions = codes "us-east-1" ∷ [];
  accounts = [];
  partitions = [];
  allow_aws_required_wildcard = false;
}

abbrev secret_rule : CompiledRule
secret_rule = record read_rule {
  id = codes "secret";
  effect = Effect.deny;
  resources = record { pattern = codes "*table/secret"; action = false } ∷ [];
}

read_rule_compiles :
    compile_rule (record {
      id = codes "read";
      effect = Effect.allow;
      actions = codes "dynamodb:Get*" ∷ [];
      resources = codes "arn:aws:dynamodb:*" ∷ [];
      regions = codes "us-east-1" ∷ [];
      accounts = [];
      partitions = [];
      wildcard = false;
    })
    ≡ ok read_rule
unfolding rules
read_rule_compiles = refl

abbrev pub engine : Engine
engine = record { default_deny = true; rules = read_rule ∷ secret_rule ∷ []; hash = codes "h" }

abbrev pub endpoint : AwsEndpoint
endpoint = record {
  partition = codes "aws";
  host = codes "dynamodb.us-east-1.amazonaws.com";
  service = codes "dynamodb";
  signing_service = codes "dynamodb";
  signing_region = codes "us-east-1";
  region = codes "us-east-1";
  global = false;
  scope = EndpointScope.regional;
  fips = false;
  dual_stack = false;
  account_id = [];
}

abbrev pub request : DecodedAwsRequest
request = record {
  partition = codes "aws";
  endpoint_host = codes "dynamodb.us-east-1.amazonaws.com";
  service = codes "dynamodb";
  signing_service = codes "dynamodb";
  signing_region = codes "us-east-1";
  region = codes "us-east-1";
  scope = EndpointScope.regional;
  fips = false;
  dual_stack = false;
  account_id = [];
  caller_account_id = codes "123456789012";
  protocol = AwsProtocol.json10;
  operation = codes "GetItem";
  method = codes "POST";
  canonical_path = codes "/";
  parameters = [];
  payload_hash_mode = PayloadHashMode.sha256;
  payload_negative = false;
}

abbrev pub mapping : Bytes → MappingResult
mapping resource = record {
  service = codes "dynamodb";
  operation = codes "GetItem";
  requirements =
      record {
        action = codes "dynamodb:GetItem";
        resources = resource ∷ [];
        scope_kind = exact;
        dependent = false;
        condition_hint = [];
      }
      ∷ [];
  mapper_version = codes "1";
  iam_live_version = [];
  authorization_data_version = [];
  confidence = high;
  evidence = [];
}

abbrev input : Bytes → DecisionInput
input resource = record {
  run_id = codes "r";
  endpoint = endpoint;
  request = some request;
  mapping = some (mapping resource);
  policy_hash = codes "h";
  mapper_version = codes "1";
}

abbrev pub open_table : Bytes
open_table = codes "arn:aws:dynamodb:us-east-1:123456789012:table/open"

abbrev secret_table : Bytes
secret_table = codes "arn:aws:dynamodb:us-east-1:123456789012:table/secret"

read_allowed : evaluate (some engine) (some (λ k. false)) (input open_table) ≡ record {
  result = DecisionResult.allow;
  reason_code = all_requirements_allowed;
  matched_rule_ids = codes "read" ∷ [];
}
unfolding engines
read_allowed = refl

secret_denied : evaluate (some engine) (some (λ k. false)) (input secret_table) ≡ record {
  result = DecisionResult.deny;
  reason_code = explicit_deny;
  matched_rule_ids = codes "read" ∷ codes "secret" ∷ [];
}
unfolding engines
secret_denied = refl

secret_IsAdmissible : IsAdmissible engine (input secret_table) request (mapping secret_table)
unfolding engines
secret_IsAdmissible = record {
  has_request = refl;
  has_mapping = refl;
  is_valid = refl;
  same_policy = refl;
  confident = refl;
  in_bounds = refl;
  resolved = refl;
}

evaluate-verdict_example :
    ((evaluate (some engine) (some (λ k. false)) (input secret_table)).reason_code
      ≡ verdict (request_context request) engine.rules (mapping secret_table).requirements)
    × ((evaluate (some engine) (some (λ k. false)) (input secret_table)).result
        ≡ result_for
            (verdict (request_context request) engine.rules (mapping secret_table).requirements))
evaluate-verdict_example =
    evaluate-verdict engine (λ k. false) (input secret_table) request (mapping secret_table)
      (λ k. refl) secret_IsAdmissible

allow_open :
    (evaluate (some engine) (some (λ k. false)) (input open_table)).result ≡ DecisionResult.allow
unfolding engines
allow_open = refl

evaluate-IsGranted_example :
    (request' : DecodedAwsRequest) × (mapping' : MappingResult) × IsAdmissible engine
      (input open_table)
      request'
      mapping'
    × All
        (λ q. All (IsGranted (request_context request') engine.rules q) q.resources)
        mapping'.requirements
evaluate-IsGranted_example = evaluate-IsGranted engine (λ k. false) (input open_table) allow_open
