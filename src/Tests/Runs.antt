-- ===== src/Tests/Runs.antt =====
-- Requests one after another on the caches of a run, with the engine as the policy.
use kordn.Base.{◌↔◌, ok, ℕ, ◌≡◌, refl, List, [], ◌∷◌, false, some, Bytes}
use kordn.AwsRequest.Endpoint.{AwsEndpoint}
use kordn.AwsRequest.Mapping.{MappingResult}
use kordn.Policy.Decision.{Decision, DecisionInput}
use kordn.Policy.Engine.{Engine}
use kordn.Policy.Scan.{Context}
use kordn.Cache.Lru.{Lru, new_lru, empty_cache}
use kordn.Proxy.Server.{Server, State}
use kordn.Proxy.Lookups.{decision_cache_key}
use kordn.Proxy.Pipeline.Stages.{AllSent, replies}
use kordn.Proxy.Pipeline.Coherent.{serve, IsServed, serve-AllSent}
use kordn.Proxy.Lookups.Keyed.{SameDecision, decision_cache_key_iff}
use kordn.Proxy.Pipeline.Enforced.{enforcing, IsServedEnforced, serve-IsEnforced}
use kordn.Tests.Program.{engines}
use kordn.Policy.Rule.{CompiledRule}
use kordn.AwsRequest.Mapping.{exact}
use kordn.Tests.Signatures.{signatures}
use kordn.Base.{codes, none, true}
use kordn.AwsRequest.Request.{DecodedAwsRequest}
use kordn.Proxy.Pipeline.{handle_pipeline}
use kordn.Proxy.Pipeline.Stages.{sent_of}
use kordn.Tests.Pipelines.{pipelines}
use kordn.Tests.Engines.{read_rule, engine, endpoint, request, mapping}
use kordn.Tests.Verifications.{platform, verifier, inbound, inbound_after, verified, queue_endpoint}
use kordn.Sigv4.Inbound.{Inbound}
use kordn.Proxy.Pipeline.Secured.{authenticating, IsServedSecured, serve-IsSecured}
use kordn.Tests.Pipelines.{server, server_with, table, policy_hash}

abbrev operations : Lru Bytes MappingResult
operations = empty_cache 4

abbrev decisions : Lru Bytes Decision
decisions = empty_cache 4

abbrev start : State ℕ
start = record { caches = some (operations, decisions); ids = 0; effects = [] }

abbrev strict : Engine
strict = record engine { hash = policy_hash }

abbrev contexts : DecisionInput → Context
contexts input poll = false

abbrev policed : Server ℕ
policed = record server { policy = some (enforcing strict contexts) }

abbrev served : List (ℕ × AwsEndpoint)
served = (3, endpoint) ∷ (7, endpoint) ∷ []

operations_made : new_lru 4 ≡ some operations
unfolding engines new_lru
operations_made = refl

decisions_made : new_lru 4 ≡ some decisions
unfolding engines new_lru
decisions_made = refl

serve-AllSent_example :
    AllSent (IsServed server served) (serve server served start).effects
    × (replies (serve server served start).effects ≡ 2)
serve-AllSent_example =
    serve-AllSent server served start 4 4 operations decisions operations_made decisions_made refl
      refl

serve-IsEnforced_example :
    AllSent (IsServedEnforced policed strict served) (serve policed served start).effects
serve-IsEnforced_example =
    serve-IsEnforced policed strict contexts served start 4 4 operations decisions (λ s t e. e) refl
      operations_made decisions_made refl refl

abbrev queue_request : DecodedAwsRequest
queue_request = record request {
  endpoint_host = queue_endpoint.host;
  service = codes "sqs";
  signing_service = codes "sqs";
  signing_region = codes "eu-west-1";
  region = codes "eu-west-1";
  operation = codes "SendMessage";
}

abbrev queue_mapping : MappingResult
queue_mapping = record (mapping table) {
  service = codes "sqs";
  operation = codes "SendMessage";
  requirements =
      record {
        action = codes "sqs:SendMessage";
        resources = codes "arn:aws:sqs:eu-west-1:123456789012:jobs" ∷ [];
        scope_kind = exact;
        dependent = false;
        condition_hint = [];
      }
      ∷ [];
}

abbrev send_rule : CompiledRule
send_rule = record read_rule {
  id = codes "send";
  actions = record { pattern = codes "sqs:send*"; action = true } ∷ [];
  resources = record { pattern = codes "arn:aws:sqs:*"; action = false } ∷ [];
  regions = codes "eu-west-1" ∷ [];
}

abbrev sending : Engine
sending = record strict { rules = send_rule ∷ [] }

abbrev wired : Server Inbound
wired =
    record (server_with (authenticating platform verifier (λ i. false) (λ i. 1700000001))
      (λ i. i)) {
        decoder = some (λ v e. ok (some queue_request));
        mapper = some (λ d. ok (some queue_mapping));
        policy = some (enforcing sending contexts);
      }

-- The request that the verifier accepts is sent.
signed_sent :
    sent_of
      (handle_pipeline
        (record wired { authenticator = some (λ i e. ok (some verified)) })
        inbound
        queue_endpoint
        (record { caches = none; ids = 0; effects = [] })).effects
    ≡ inbound_after ∷ []
unfolding pipelines signatures
signed_sent = refl

abbrev arrived : List (Inbound × AwsEndpoint)
arrived = (inbound, queue_endpoint) ∷ []

abbrev wired_start : State Inbound
wired_start = record { caches = some (operations, decisions); ids = 0; effects = [] }

serve-IsSecured_example :
    AllSent
      (IsServedSecured wired sending platform verifier (λ i. 1700000001) arrived)
      (serve wired arrived wired_start).effects
serve-IsSecured_example =
    serve-IsSecured wired sending platform verifier (λ i. false) (λ i. 1700000001) contexts arrived
      wired_start 4 4 operations decisions refl refl (λ s t e. e) operations_made decisions_made
      refl refl

decision_cache_key_iff_example :
    (decision_cache_key server endpoint request (mapping table)
      ≡ decision_cache_key server endpoint request (record (mapping table) { service = [] }))
    ↔ SameDecision server endpoint endpoint request request
        (mapping table)
        (record (mapping table) { service = [] })
decision_cache_key_iff_example =
    decision_cache_key_iff server endpoint endpoint request request (mapping table)
      (record (mapping table) { service = [] }) (λ s t e. e)
