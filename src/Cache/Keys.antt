-- ===== src/Cache/Keys.antt =====
-- internal/cache/keys.go: canonical keys, their hashes, and the caches of a run.
use kordn.Base.{
  ℕ, ◌+◌, List, [], ◌∷◌, ◌++◌, Option, none, some, Bytes, codes, length, itoa, leb, if◌then◌else◌,
}
use kordn.Cache.Lru.{Lru, new_lru, clear_locked}
pub mod Netstring
pub mod Injective

-- `CanonicalKey`: each part behind its length and a colon, and closed by a zero byte.
unfoldable pub canonical_key : List Bytes → Bytes
canonical_key [] = []
canonical_key (p ∷ parts) = itoa (length p) ++ (b':' ∷ (p ++ (0 ∷ canonical_key parts)))

pub record EndpointKey : Type 0 where
  pub run_id : Bytes
  pub host : Bytes
  pub partition : Bytes
  pub region : Bytes
  pub service : Bytes
  pub account : Bytes
  pub operation : Bytes

pub record LeafKey : Type 0 where
  pub run_id : Bytes
  pub host : Bytes
  pub identity : Bytes

pub record OperationKey : Type 0 where
  pub run_id : Bytes
  pub service : Bytes
  pub operation : Bytes
  pub mapper_version : Bytes
  pub data_version : Bytes

pub record DecisionKey : Type 0 where
  pub run_id : Bytes
  pub endpoint : EndpointKey
  pub policy_hash : Bytes
  pub mapper_version : Bytes
  pub requirements : Bytes

-- `digest` is the hexadecimal text of SHA-256.
module _ (digest : Bytes → Bytes) where
  unfoldable pub hash_key : List Bytes → Bytes
  hash_key parts = digest (canonical_key parts)

  unfoldable pub endpoint_text : EndpointKey → Bytes
  endpoint_text k = hash_key (
      codes "endpoint"
      ∷ k.run_id
      ∷ k.host
      ∷ k.partition
      ∷ k.region
      ∷ k.service
      ∷ k.account
      ∷ k.operation
      ∷ [])

  unfoldable pub leaf_text : LeafKey → Bytes
  leaf_text k = hash_key (codes "leaf" ∷ k.run_id ∷ k.host ∷ k.identity ∷ [])

  unfoldable pub operation_text : OperationKey → Bytes
  operation_text k = hash_key (
      codes "operation"
      ∷ k.run_id
      ∷ k.service
      ∷ k.operation
      ∷ k.mapper_version
      ∷ k.data_version
      ∷ [])

  unfoldable pub decision_text : DecisionKey → Bytes
  decision_text k = hash_key (
      codes "decision"
      ∷ k.run_id
      ∷ endpoint_text k.endpoint
      ∷ k.policy_hash
      ∷ k.mapper_version
      ∷ k.requirements
      ∷ [])

-- `RunCaches` and `CacheOptions`, over the values that the caches hold.
pub record RunCaches (V : Type 0) : Type 0 where
  pub endpoints : Lru Bytes V
  pub leaves : Lru Bytes V
  pub operations : Lru Bytes V
  pub decisions : Lru Bytes V

-- A capacity of at most zero stands here as zero.
pub record CacheOptions : Type 0 where
  pub endpoint_capacity : ℕ
  pub leaf_capacity : ℕ
  pub operation_capacity : ℕ
  pub decision_capacity : ℕ

abbrev pub or_default : ℕ → ℕ
or_default n = if leb n 0 then 256 else n

infixl 5 ◌>>=◌
abbrev ◌>>=◌ : {A B : Type 0} → Option A → (A → Option B) → Option B
none >>= f = none
some a >>= f = f a

-- `NewRunCaches`; `none` is the error of one of the four.
unfoldable pub new_run_caches : {V : Type 0} → CacheOptions → Option (RunCaches V)
new_run_caches o = do
  e ← new_lru (or_default o.endpoint_capacity)
  l ← new_lru (or_default o.leaf_capacity)
  op ← new_lru (or_default o.operation_capacity)
  d ← new_lru (or_default o.decision_capacity)
  some (record { endpoints = e; leaves = l; operations = op; decisions = d })

unfoldable pub clear_run_caches : {V : Type 0} → RunCaches V → RunCaches V
clear_run_caches c = record {
  endpoints = clear_locked c.endpoints;
  leaves = clear_locked c.leaves;
  operations = clear_locked c.operations;
  decisions = clear_locked c.decisions;
}
