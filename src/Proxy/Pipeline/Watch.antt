-- ===== src/Proxy/Pipeline/Watch.antt =====
-- internal/proxy/server.go: what is watched while a request is handled.
use kordn.Base.{if◌then◌else◌, ◌≡◌, List, Option, none, some, Bytes, ok}
use kordn.AwsRequest.Endpoint.{AwsEndpoint}
use kordn.AwsRequest.Request.{DecodedAwsRequest}
use kordn.AwsRequest.Mapping.{MappingResult}
use kordn.Policy.Decision.{Decision, DecisionInput, decision_valid}
use kordn.Cache.Lru.Kept.{Found, Found-Unit}
use kordn.Cache.Lru.{Lru, get_locked, add_locked}
use kordn.Proxy.Server.{Server, Effect}
use kordn.Proxy.Failures.{fail_closed}
use kordn.Proxy.Forwarding.{internal}
use kordn.Proxy.Lookups.{bytes_discrete, mapping_cache_key, decision_cache_key}
use kordn.Proxy.Pipeline.{input_of, Mapper}

-- The decision that is made of the policy's answer: a denial where it fails or is not valid.
abbrev pub settled : Option Decision → Decision
settled none = fail_closed internal
settled (some decision) = if decision_valid decision then decision else fail_closed internal

-- `sent` is asked of each request that is sent upstream, and of what happened before; `held` is kept of
-- the caches. What is added to a cache, or found in it, has `maps` or `decides` with its key, as have the
-- mappings of the mapper and the decisions of the policy.
pub record Watch {R : Type 0} (srv : Server R) : Type 1 where
  pub sent : R → List (Effect R) → Type 0
  pub held : Option (Lru Bytes MappingResult × Lru Bytes Decision) → Type 0
  pub maps : Bytes → MappingResult → Type 0
  pub decides : Bytes → Decision → Type 0
  pub finds_mapping :
      (key : Bytes) (operations : Lru Bytes MappingResult) (decisions : Lru Bytes Decision)
      → held (some (operations, decisions))
      → held (some ((get_locked bytes_discrete operations key).0, decisions))
        × Found (maps key) (get_locked bytes_discrete operations key).1
  pub finds_decision :
      (key : Bytes) (operations : Lru Bytes MappingResult) (decisions : Lru Bytes Decision)
      → held (some (operations, decisions))
      → held (some (operations, (get_locked bytes_discrete decisions key).0))
        × Found (decides key) (get_locked bytes_discrete decisions key).1
  pub adds_mapping :
      (key : Bytes) (m : MappingResult) (operations : Lru Bytes MappingResult)
      (decisions : Lru Bytes Decision)
      → maps key m
      → held (some (operations, decisions))
      → held (some ((add_locked bytes_discrete operations key m).0, decisions))
  pub adds_decision :
      (key : Bytes) (decision : Decision) (operations : Lru Bytes MappingResult)
      (decisions : Lru Bytes Decision)
      → decides key decision
      → held (some (operations, decisions))
      → held (some (operations, (add_locked bytes_discrete decisions key decision).0))
  pub mapper_maps :
      (mapper : Mapper) (endpoint : AwsEndpoint) (d : DecodedAwsRequest) (m : MappingResult)
      → srv.mapper ≡ some mapper
      → mapper d ≡ ok (some m)
      → maps (mapping_cache_key srv endpoint d) m
  pub policy_decides :
      (policy : DecisionInput → Option Decision) (endpoint : AwsEndpoint) (d : DecodedAwsRequest)
      (m : MappingResult)
      → srv.policy ≡ some policy
      → decides (decision_cache_key srv endpoint d m) (settled (policy (input_of srv endpoint d m)))

-- Nothing is asked of the caches.
abbrev pub watching : {R : Type 0} → (srv : Server R) → (R → List (Effect R) → Type 0) → Watch srv
watching srv sent = record {
  sent = sent;
  held = λ caches. Unit;
  maps = λ key m. Unit;
  decides = λ key decision. Unit;
  finds_mapping =
      λ key operations decisions h. (tt, Found-Unit (get_locked bytes_discrete operations key).1);
  finds_decision =
      λ key operations decisions h. (tt, Found-Unit (get_locked bytes_discrete decisions key).1);
  adds_mapping = λ key m operations decisions known h. tt;
  adds_decision = λ key decision operations decisions known h. tt;
  mapper_maps = λ mapper endpoint d m e answer. tt;
  policy_decides = λ policy endpoint d m e. tt;
}

-- Nothing is asked.
abbrev pub unwatched : {R : Type 0} → (srv : Server R) → Watch srv
unwatched srv = watching srv (λ out before. Unit)
