-- ===== src/Proxy/Pipeline/Mapped.antt =====
-- internal/proxy/server.go: from a decoded request to its mapping, and what each step sends.
use kordn.Base.{
  ◌≡◌, refl, List, [], true, Bool-cases, Option, none, some, Option-cases, inl, inr, Bytes, codes,
  arith, Result, ok, err,
}
use kordn.AwsRequest.Endpoint.{AwsEndpoint}
use kordn.AwsRequest.Request.{DecodedAwsRequest}
use kordn.AwsRequest.Mapping.{MappingResult}
use kordn.AwsRequest.Verified.{VerifiedRequest}
use kordn.AwsError.Reason.{mapping_low_confidence}
use kordn.Proxy.Pipeline.Watch.{Watch, unwatched}
use kordn.Cache.Lru.Kept.{Found, Found-Unit}
use kordn.Proxy.Server.{Server, State, MapFault, map_reason}
use kordn.Proxy.Forwarding.{internal}
use kordn.Proxy.Pipeline.{
  maps_request, check_mapping, find_mapping, after_decode, after_mapping, Mapper,
}
use kordn.Proxy.Lookups.{cached_mapping, mapping_cache_key, add_mapping}
use kordn.Proxy.Pipeline.Stages.{
  Adds, Adds-step, Adds-both, Adds-after, Adds-none, finish_failed_pipeline-Adds,
}
use kordn.Proxy.Pipeline.Caching.{add_mapping-Adds, cached_mapping-Looks}
use kordn.Proxy.Pipeline.Deciding.{GrantsMapped, after_mapping-Adds}

module _ {R : Type 0} {srv : Server R} (P : Watch srv) where
  abbrev pub GrantsDecoded : AwsEndpoint → VerifiedRequest R → DecodedAwsRequest → Type 0
  GrantsDecoded endpoint v d =
      (m : MappingResult)
      → maps_request srv d m ≡ true
      → P.maps (mapping_cache_key srv endpoint d) m
      → GrantsMapped P endpoint v d m

  -- What a lookup or the mapper found is known.
  abbrev Knows : Bytes → Result (List MapFault) (Option MappingResult) → Type 0
  Knows key (ok (some m)) = P.maps key m
  Knows key _ = Unit

  check_mapping-Adds :
      (endpoint : AwsEndpoint) (v : VerifiedRequest R) (d : DecodedAwsRequest)
      (found : Result (List MapFault) (Option MappingResult) × State R)
      → GrantsDecoded endpoint v d
      → Knows (mapping_cache_key srv endpoint d) found.0
      → Adds P 1 found.1 (check_mapping srv endpoint v d (mapping_cache_key srv endpoint d) found)
  unfolding check_mapping
  check_mapping-Adds endpoint v d (err faults, st) grants known =
      finish_failed_pipeline-Adds P endpoint (map_reason faults) (codes "map") d st
  check_mapping-Adds endpoint v d (ok none, st) grants known =
      finish_failed_pipeline-Adds P endpoint (map_reason []) (codes "map") d st
  check_mapping-Adds endpoint v d (ok (some m), st) grants known =
      let key = mapping_cache_key srv endpoint d in
      elim (Bool-cases (maps_request srv d m)) [
        | inr bad ↦
            rw (bad, check_mapping)
              (finish_failed_pipeline-Adds P endpoint mapping_low_confidence (codes "map") d st)
        | inl good ↦
            rw (good, check_mapping)
              (Adds-step P st (add_mapping srv key m st)
                (after_mapping srv endpoint v d m (add_mapping srv key m st))
                (add_mapping-Adds P key m st known)
                (after_mapping-Adds P endpoint v d m (add_mapping srv key m st)
                  (grants m good known)))
      ]

  find_mapping-Adds :
      (mapper : Mapper) (d : DecodedAwsRequest) (cached : Option MappingResult × State R)
      → Adds P 0 cached.1 (find_mapping srv mapper d cached).1
  unfolding find_mapping
  find_mapping-Adds mapper d (some m, st) = Adds-none P st
  find_mapping-Adds mapper d (none, st) = record { adds = omega arith; keeps = λ h. h }

  Knows-answer :
      (mapper : Mapper) (endpoint : AwsEndpoint) (d : DecodedAwsRequest)
      (answer : Result (List MapFault) (Option MappingResult))
      → srv.mapper ≡ some mapper
      → mapper d ≡ answer
      → Knows (mapping_cache_key srv endpoint d) answer
  Knows-answer mapper endpoint d (err faults) there e = tt
  Knows-answer mapper endpoint d (ok none) there e = tt
  Knows-answer mapper endpoint d (ok (some m)) there e = P.mapper_maps mapper endpoint d m there e

  find_mapping-Knows :
      (mapper : Mapper) (endpoint : AwsEndpoint) (d : DecodedAwsRequest)
      (cached : Option MappingResult × State R)
      → srv.mapper ≡ some mapper
      → Found (P.maps (mapping_cache_key srv endpoint d)) cached.0
      → Knows (mapping_cache_key srv endpoint d) (find_mapping srv mapper d cached).0
  unfolding find_mapping
  find_mapping-Knows mapper endpoint d (some m, st) there hit = hit
  find_mapping-Knows mapper endpoint d (none, st) there hit =
      Knows-answer mapper endpoint d (mapper d) there refl

module _ {R : Type 0} {srv : Server R} (P : Watch srv) where
  pub after_decode-Adds :
      (endpoint : AwsEndpoint) (v : VerifiedRequest R) (d : DecodedAwsRequest) (st : State R)
      → GrantsDecoded P endpoint v d
      → Adds P 1 st (after_decode srv endpoint v d st)
  unfolding after_decode
  after_decode-Adds endpoint v d st grants = elim (Option-cases srv.mapper) [
    | inl e ↦
        rw (e, after_decode) (finish_failed_pipeline-Adds P endpoint internal (codes "map") d st)
    | inr (mapper, e) ↦
        (let key = mapping_cache_key srv endpoint d in
          let cached = cached_mapping srv key st in
          let found = find_mapping srv mapper d cached in
          let looks = cached_mapping-Looks P key st in
          let free = unwatched srv in
          rw (e, after_decode)
            (Adds-after P st found.1 (check_mapping srv endpoint v d key found)
              (Adds-both P st cached.1 found.1 looks.added (find_mapping-Adds P mapper d cached))
              (check_mapping-Adds free endpoint v d found
                (λ m good known decision valid decides ids id out before signed permitted accepted.
                  tt)
                (find_mapping-Knows free mapper endpoint d cached e (Found-Unit cached.0)))
              (λ held.
                check_mapping-Adds P endpoint v d found grants
                  (find_mapping-Knows P mapper endpoint d cached e (looks.hit held)))))
  ]
