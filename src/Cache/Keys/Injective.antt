-- ===== src/Cache/Keys/Injective.antt =====
-- The hashed keys, under a digest without collisions.
use kordn.Base.{List, ◌≡◌, Bytes}
use kordn.Cache.Keys.{hash_key, EndpointKey, endpoint_text}
use kordn.Cache.Keys.Netstring.{canonical_key-injective}

-- What the cache takes SHA-256 for.
abbrev pub IsCollisionFree : (Bytes → Bytes) → Type 0
IsCollisionFree digest = (s t : Bytes) → digest s ≡ digest t → s ≡ t

module _ (digest : Bytes → Bytes) (free : IsCollisionFree digest) where
  pub hash_key-injective : (ps qs : List Bytes) → hash_key digest ps ≡ hash_key digest qs → ps ≡ qs
  unfolding hash_key
  hash_key-injective ps qs e = canonical_key-injective ps qs (free _ _ e)

  pub endpoint_text-injective :
      (k k' : EndpointKey) → endpoint_text digest k ≡ endpoint_text digest k' → k ≡ k'
  unfolding endpoint_text
  endpoint_text-injective k k' e = cc (hash_key-injective _ _ e)
