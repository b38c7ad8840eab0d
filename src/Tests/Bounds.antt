-- ===== src/Tests/Bounds.antt =====
-- Limits, endpoint identities, decisions, and what does not depend on an order.
use mathlib.Core.List.{Permᴰ}
use mathlib.Core.List.Permᴰ
use kordn.Base.{
  [], ◌∷◌, List, true, false, none, some, Bytes, codes, ◌≡◌, ◌↔◌, refl, split, arith, not, ◌||◌, ok,
}
use kordn.AwsRequest.Endpoint.{
  AwsEndpoint, EndpointScope, validate_endpoint, endpoint_identity_equal,
}
use kordn.AwsRequest.Endpoint.Identity.{identity, endpoint_identity_equal_iff}
use kordn.AwsRequest.Mapping.{IamRequirement, ScopeKind, validate_requirement}
use kordn.AwsRequest.Mapping.Scope.{IsShaped, validate_requirement-IsShaped}
use kordn.Cache.Requirements.{requirements_key}
use kordn.Cache.Requirements.Order.{SameRequirements, SameConditions, requirements_key-same}
use kordn.Policy.Decision.{DecisionInput, decision_valid}
use kordn.Policy.Engine.{evaluate}
use kordn.Policy.Engine.Decided.{evaluate-decision_valid}
use kordn.Proxy.Limits.{Limits, HttpRequest, default_limits, with_defaults, validate_request}
use kordn.Proxy.Limits.Requests.{IsWithin, validate_request_iff}
use kordn.Sigv4.Header.{
  normalize_header_value, valid_header_value, valid_header_name, valid_payload_hash,
}
use kordn.Sigv4.Header.Normal.{is_squeezed, solid, normalize_header_value-is_squeezed}
use kordn.Sigv4.Query.{canonical_raw_query}
use kordn.Sigv4.Query.Order.{canonical_raw_query-perm}
use kordn.Tests.Program.{bounds}

abbrev endpoint : AwsEndpoint
endpoint = record {
  partition = codes "aws";
  host = codes "sqs.eu-west-1.amazonaws.com";
  service = codes "sqs";
  signing_service = codes "sqs";
  signing_region = codes "eu-west-1";
  region = codes "eu-west-1";
  global = false;
  scope = EndpointScope.no_scope;
  fips = false;
  dual_stack = true;
  account_id = [];
}

-- The same identity, with its scope written out.
abbrev regional : AwsEndpoint
regional = record endpoint { scope = EndpointScope.regional }

endpoint_valid : validate_endpoint endpoint ≡ ok tt
unfolding bounds
endpoint_valid = refl

regional_valid : validate_endpoint regional ≡ ok tt
unfolding bounds
regional_valid = refl

endpoint_identity_equal_iff_example :
    (endpoint_identity_equal endpoint regional ≡ true) ↔ (identity endpoint ≡ identity regional)
endpoint_identity_equal_iff_example =
    endpoint_identity_equal_iff endpoint regional endpoint_valid regional_valid refl refl

same_identity : endpoint_identity_equal endpoint regional ≡ true
unfolding bounds
same_identity = refl

abbrev empty_input : DecisionInput
empty_input = record {
  run_id = codes "r";
  endpoint = endpoint;
  request = none;
  mapping = none;
  policy_hash = codes "h";
  mapper_version = codes "1";
}

evaluate-decision_valid_example :
    decision_valid (evaluate none (some (λ k. false)) empty_input) ≡ true
evaluate-decision_valid_example = evaluate-decision_valid none (some (λ k. false)) empty_input

abbrev small : Limits
small = record default_limits {
  max_header_count = 0;
  max_body_bytes = 100;
  max_spool_body_bytes = 0;
}

small_completed : with_defaults small ≡ record default_limits {
  max_body_bytes = 100;
  max_spool_body_bytes = 100;
  max_in_memory_body_bytes = 100;
}
unfolding bounds
small_completed = refl

abbrev request : HttpRequest
request = record {
  request_uri = codes "/";
  header = (codes "Host", codes "sqs" ∷ []) ∷ (codes "X", codes "a" ∷ codes "b" ∷ []) ∷ [];
  content_length = 12;
}

request_passes : validate_request default_limits (some request) ≡ ok tt
unfolding bounds
request_passes = refl

validate_request_iff_example :
    (validate_request default_limits (some request) ≡ ok tt) ↔ IsWithin default_limits request
validate_request_iff_example = validate_request_iff default_limits request

abbrev requirement : List Bytes → List Bytes → IamRequirement
requirement resources values = record {
  action = codes "s3:GetObject";
  resources = resources;
  scope_kind = ScopeKind.set;
  dependent = false;
  condition_hint = (codes "aws:Tag", values) ∷ [];
}

abbrev a : Bytes
a = codes "arn:a"

abbrev b : Bytes
b = codes "arn:b"

requirements_key-same_example :
    requirements_key (λ s. s) (requirement (a ∷ b ∷ []) (a ∷ []) ∷ requirement (a ∷ []) [] ∷ [])
    ≡ requirements_key (λ s. s) (requirement (a ∷ []) [] ∷ requirement (b ∷ a ∷ []) (a ∷ []) ∷ [])
requirements_key-same_example =
    requirements_key-same (λ s. s)
      (requirement (a ∷ b ∷ []) (a ∷ []) ∷ requirement (a ∷ []) [] ∷ [])
      (requirement (b ∷ a ∷ []) (a ∷ []) ∷ requirement (a ∷ []) [] ∷ [])
      (requirement (a ∷ []) [] ∷ requirement (b ∷ a ∷ []) (a ∷ []) ∷ [])
      (SameRequirements.requirement
        (record {
          action = refl;
          scope_kind = refl;
          dependent = refl;
          resources = Permᴰ.swap refl refl;
          conditions = SameConditions.condition (Permᴰ.refl _) SameConditions.none_left;
        })
        (SameRequirements.requirement
          (record {
            action = refl;
            scope_kind = refl;
            dependent = refl;
            resources = Permᴰ.refl _;
            conditions = SameConditions.condition (Permᴰ.refl _) SameConditions.none_left;
          })
          SameRequirements.no_more))
      (Permᴰ.swap refl refl)

requirement_valid : validate_requirement (requirement (a ∷ b ∷ []) []) ≡ ok tt
unfolding bounds
requirement_valid = refl

validate_requirement-IsShaped_example : IsShaped (requirement (a ∷ b ∷ []) [])
validate_requirement-IsShaped_example =
    validate_requirement-IsShaped (requirement (a ∷ b ∷ []) []) requirement_valid

abbrev raw : Bytes
raw = codes "Version=2&Action=a+b"

abbrev sorted_raw : Bytes
sorted_raw = codes "Action=a+b&Version=2"

raw_canonical : canonical_raw_query raw ≡ some (codes "Action=a%2Bb&Version=2")
unfolding bounds
raw_canonical = refl

parts_perm : Permᴰ (split raw b'&') (split sorted_raw b'&')
unfolding bounds
parts_perm = Permᴰ.swap refl refl

canonical_raw_query-perm_example : canonical_raw_query raw ≡ canonical_raw_query sorted_raw
canonical_raw_query-perm_example =
    canonical_raw_query-perm raw sorted_raw (λ e. ground arith) (λ e. ground arith) parts_perm

abbrev spaced : Bytes
spaced = codes "  a   b "

spaced_normal : normalize_header_value spaced ≡ codes "a b"
unfolding bounds
spaced_normal = refl

header_checks :
    (valid_header_name (codes "x-amz-date") ≡ true)
    × (valid_header_name (codes "X-Amz-Date") ≡ false)
    × (valid_payload_hash (codes "UNSIGNED-PAYLOAD") ≡ true)
    × (valid_payload_hash (codes "STREAMING") ≡ false)
unfolding bounds
header_checks = (refl, refl, refl, refl)

normalize_header_value-is_squeezed_example :
    (is_squeezed (normalize_header_value spaced) ≡ true)
    × (solid (normalize_header_value spaced) ≡ solid spaced)
    × (normalize_header_value (normalize_header_value spaced) ≡ normalize_header_value spaced)
    × ((not (valid_header_value spaced) || valid_header_value (normalize_header_value spaced))
        ≡ true)
normalize_header_value-is_squeezed_example = normalize_header_value-is_squeezed spaced
