-- ===== src/Proxy/Lookups/Keyed.antt =====
-- internal/proxy/server.go: what a cache key of the pipeline tells apart.
use kordn.Base.{◌≡◌, refl, ◌↔◌, arith}
use kordn.AwsRequest.Endpoint.{AwsEndpoint}
use kordn.AwsRequest.Request.{DecodedAwsRequest}
use kordn.AwsRequest.Mapping.{MappingResult}
use kordn.Cache.Requirements.{requirements_key}
use kordn.Cache.Keys.Injective.{IsCollisionFree, hash_key-injective}
use kordn.Proxy.Server.{Server}
use kordn.Proxy.Lookups.{decision_cache_key}

pub record SamePlace (e e' : AwsEndpoint) : Type 0 where
  pub partition : e.partition ≡ e'.partition
  pub host : e.host ≡ e'.host
  pub service : e.service ≡ e'.service
  pub region : e.region ≡ e'.region

module _ {R : Type 0} (srv : Server R) where
  pub record SameDecision (e e' : AwsEndpoint) (d d' : DecodedAwsRequest) (m m' : MappingResult)
      : Type 0 where
    pub place : SamePlace e e'
    pub account : d.caller_account_id ≡ d'.caller_account_id
    pub mapper_version : m.mapper_version ≡ m'.mapper_version
    pub request : srv.policy_request_text d ≡ srv.policy_request_text d'
    pub requirements :
        requirements_key srv.digest m.requirements ≡ requirements_key srv.digest m'.requirements
    pub metadata : srv.metadata_text m ≡ srv.metadata_text m'

  -- What one key is of.
  pub decision_cache_key-SameDecision :
      (e e' : AwsEndpoint) (d d' : DecodedAwsRequest) (m m' : MappingResult)
      → IsCollisionFree srv.digest
      → decision_cache_key srv e d m ≡ decision_cache_key srv e' d' m'
      → SameDecision e e' d d' m m'
  unfolding decision_cache_key
  decision_cache_key-SameDecision e e' d d' m m' free same =
      let parts = hash_key-injective srv.digest free _ _ same in
      record {
        place = record {
          partition = ground (arith, parts);
          host = ground (arith, parts);
          service = ground (arith, parts);
          region = ground (arith, parts);
        };
        account = ground (arith, parts);
        mapper_version = ground (arith, parts);
        request = ground (arith, parts);
        requirements = ground (arith, parts);
        metadata = ground (arith, parts);
      }

  SameDecision-decision_cache_key :
      (e e' : AwsEndpoint) (d d' : DecodedAwsRequest) (m m' : MappingResult)
      → SameDecision e e' d d' m m'
      → decision_cache_key srv e d m ≡ decision_cache_key srv e' d' m'
  unfolding decision_cache_key
  SameDecision-decision_cache_key e e' d d' m m' same =
      let place = same.place in
      rw
        (
          same.request, same.metadata, same.requirements, same.account, same.mapper_version,
          place.partition, place.host, place.service, place.region,
        )
        refl

-- Under a digest without collisions, two inputs of one server have one decisionCacheKey exactly when
-- they agree in the partition, host, service and Region of the endpoint, the account of the caller, the
-- version of the mapper, the text of the request, the RequirementsKey and the text of the metadata.
pub decision_cache_key_iff :
    {R : Type 0}
    → (srv : Server R) (e e' : AwsEndpoint) (d d' : DecodedAwsRequest) (m m' : MappingResult)
    → IsCollisionFree srv.digest
    → (decision_cache_key srv e d m ≡ decision_cache_key srv e' d' m')
      ↔ SameDecision srv e e' d d' m m'
decision_cache_key_iff srv e e' d d' m m' free = (
  decision_cache_key-SameDecision srv e e' d d' m m' free,
  SameDecision-decision_cache_key srv e e' d d' m m',
)
