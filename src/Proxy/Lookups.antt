-- ===== src/Proxy/Lookups.antt =====
-- internal/proxy/server.go: the keys of the pipeline's caches, and what it looks up and adds.
use kordn.Base.{[], ◌∷◌, Bool, true, false, Option, none, some, Bytes, codes, if◌then◌else◌}
use mathlib.Core.List.{List-discrete}
use native.Mathlib.Decide.{ℕ_discrete}
use kordn.AwsRequest.Endpoint.{AwsEndpoint, is_empty}
use kordn.AwsRequest.Request.{DecodedAwsRequest}
use kordn.AwsRequest.Mapping.{MappingResult}
use kordn.Policy.Decision.{Decision, decision_valid}
use kordn.Cache.Lru.{get_locked, add_locked}
use kordn.Cache.Keys.{hash_key}
use kordn.Cache.Requirements.{requirements_key}
use kordn.Proxy.Server.{Server, State, count}
use kordn.Proxy.Replies.{run_of}
pub mod Keyed

abbrev pub bytes_discrete : Discrete Bytes
bytes_discrete = List-discrete ℕ_discrete

abbrev pub or_unknown : Bytes → Bytes
or_unknown version = if is_empty version then codes "unknown" else version

module _ {R : Type 0} (srv : Server R) where
  -- `mappingCacheKey`, where there are caches.
  unfoldable pub mapping_cache_key : AwsEndpoint → DecodedAwsRequest → Bytes
  mapping_cache_key endpoint d = hash_key srv.digest (
      codes "mapping"
      ∷ run_of srv.run_id
      ∷ endpoint.partition
      ∷ endpoint.host
      ∷ endpoint.service
      ∷ endpoint.region
      ∷ srv.request_text d
      ∷ or_unknown srv.mapper_version
      ∷ or_unknown srv.adapter_version
      ∷ or_unknown srv.data_version
      ∷ [])

  -- `decisionCacheKey`, where there are caches.
  unfoldable pub decision_cache_key : AwsEndpoint → DecodedAwsRequest → MappingResult → Bytes
  decision_cache_key endpoint d m = hash_key srv.digest (
      codes "decision"
      ∷ run_of srv.run_id
      ∷ srv.policy_hash
      ∷ endpoint.partition
      ∷ endpoint.host
      ∷ endpoint.service
      ∷ endpoint.region
      ∷ d.caller_account_id
      ∷ m.mapper_version
      ∷ or_unknown srv.mapper_version
      ∷ or_unknown srv.adapter_version
      ∷ or_unknown srv.data_version
      ∷ srv.policy_request_text d
      ∷ requirements_key srv.digest m.requirements
      ∷ srv.metadata_text m
      ∷ [])

  abbrev pub count_eviction : Bool → State R → State R
  count_eviction true st = count (codes "cache_evictions") st
  count_eviction false st = st

  -- `Decisions.Add`.
  unfoldable pub add_decision : Bytes → Decision → State R → State R
  add_decision key decision st = elim st.caches [
    | none ↦ st
    | some (operations, decisions) ↦
        let (decisions', replaced, evicted) = add_locked bytes_discrete decisions key decision in
        count_eviction evicted (record st { caches = some (operations, decisions') })
  ]

  -- A decision in the cache that is valid, and the caches after the lookup.
  unfoldable pub cached_decision : Bytes → State R → Option Decision × State R
  cached_decision key st = elim st.caches [
    | none ↦ (none, st)
    | some (operations, decisions) ↦
        let (decisions', hit) = get_locked bytes_discrete decisions key in
        let st' = record st { caches = some (operations, decisions') } in
        elim hit [
          | none ↦ (none, count (codes "cache_decision_misses") st')
          | some decision ↦
              if decision_valid decision
              then (some decision, count (codes "cache_decision_hits") st')
              else (none, count (codes "cache_decision_misses") st')
        ]
  ]

  -- `Operations.Add`.
  unfoldable pub add_mapping : Bytes → MappingResult → State R → State R
  add_mapping key m st = elim st.caches [
    | none ↦ st
    | some (operations, decisions) ↦
        if is_empty key
        then st
        else (let (operations', replaced, evicted) = add_locked bytes_discrete operations key m in
            count_eviction evicted (record st { caches = some (operations', decisions) }))
  ]

  unfoldable pub cached_mapping : Bytes → State R → Option MappingResult × State R
  cached_mapping key st = elim st.caches [
    | none ↦ (none, st)
    | some (operations, decisions) ↦
        let (operations', hit) = get_locked bytes_discrete operations key in
        let st' = record st { caches = some (operations', decisions) } in
        elim hit [
          | none ↦ (none, count (codes "cache_mapping_misses") st')
          | some m ↦ (some m, count (codes "cache_mapping_hits") st')
        ]
  ]
