-- ===== src/Proxy/Pipeline/Coherent.antt =====
-- internal/proxy/server.go: requests one after another, on the caches of one run.
use mathlib.Core.Path.{subst}
use kordn.Base.{
  sym, ℕ, ◌≡◌, refl, ap, arith, List, [], ◌∷◌, Option, none, some, Bytes, ok, Some, here, there,
  length,
}
use kordn.AwsRequest.Endpoint.{AwsEndpoint}
use kordn.AwsRequest.Request.{DecodedAwsRequest}
use kordn.AwsRequest.Mapping.{MappingResult}
use kordn.Policy.Decision.{Decision, DecisionInput}
use kordn.Cache.Lru.{Lru, new_lru}
use kordn.Cache.Lru.Kept.{Holds, get_locked-Holds, add_locked-Holds, new_lru-Holds}
use kordn.Proxy.Server.{
  Server, State, Effect, counted, observed, gauged, wrote, forwarded, closed, replied,
}
use kordn.Proxy.Lookups.{bytes_discrete, mapping_cache_key, decision_cache_key}
use kordn.Proxy.Pipeline.{input_of, handle_pipeline, Mapper}
use kordn.Proxy.Pipeline.Watch.{Watch, settled}
use kordn.Proxy.Pipeline.Stages.{replies, AllSent, Good, Adds}
use kordn.Proxy.Pipeline.Safety.{IsGranted}
use kordn.Proxy.Pipeline.Verified.{handle_pipeline-Adds}

module _ {R : Type 0} (srv : Server R) where
  -- The mapper gave the mapping, for a request with this key.
  pub record IsMapped (key : Bytes) (m : MappingResult) : Type 0 where
    pub mapper : Mapper
    pub endpoint : AwsEndpoint
    pub request : DecodedAwsRequest
    pub configured : srv.mapper ≡ some mapper
    pub answered : mapper request ≡ ok (some m)
    pub keyed : mapping_cache_key srv endpoint request ≡ key

  -- The decision is the one made of the policy's answer to an input with this key.
  pub record IsDecided (key : Bytes) (decision : Decision) : Type 0 where
    pub policy : DecisionInput → Option Decision
    pub endpoint : AwsEndpoint
    pub request : DecodedAwsRequest
    pub mapping : MappingResult
    pub configured : srv.policy ≡ some policy
    pub answered : settled (policy (input_of srv endpoint request mapping)) ≡ decision
    pub keyed : decision_cache_key srv endpoint request mapping ≡ key

  abbrev pub Coherent : Option (Lru Bytes MappingResult × Lru Bytes Decision) → Type 0
  Coherent none = Unit
  Coherent (some (operations, decisions)) =
      Holds bytes_discrete IsMapped operations × Holds bytes_discrete IsDecided decisions

  -- A granted request, whose mapping and decision are those of the mapper and of the policy, made for
  -- this request or for one with the same key.
  pub record IsVouched (req : R) (endpoint : AwsEndpoint) (out : R) (before : List (Effect R))
      : Type 0 where
    pub granted : IsGranted srv req endpoint out before
    pub mapped : IsMapped (mapping_cache_key srv endpoint granted.decoded) granted.mapping
    pub decided :
        IsDecided (decision_cache_key srv endpoint granted.decoded granted.mapping) granted.decision

  -- The request of a client that is behind one that was sent.
  abbrev pub IsServed : List (R × AwsEndpoint) → R → List (Effect R) → Type 0
  IsServed served out before = Some (λ x. IsVouched x.0 x.1 out before) served

  abbrev pub coherent : (R → List (Effect R) → Type 0) → Watch srv
  coherent sent = record {
    sent = sent;
    held = Coherent;
    maps = IsMapped;
    decides = IsDecided;
    finds_mapping = λ key operations decisions h.
        let (kept, found) = get_locked-Holds bytes_discrete IsMapped operations key h.0 in
        ((kept, h.1), found);
    finds_decision = λ key operations decisions h.
        let (kept, found) = get_locked-Holds bytes_discrete IsDecided decisions key h.1 in
        ((h.0, kept), found);
    adds_mapping = λ key m operations decisions known h.
        (add_locked-Holds bytes_discrete IsMapped operations key m known h.0, h.1);
    adds_decision = λ key decision operations decisions known h.
        (h.0, add_locked-Holds bytes_discrete IsDecided decisions key decision known h.1);
    mapper_maps = λ mapper endpoint d m there answer. record {
      mapper = mapper;
      endpoint = endpoint;
      request = d;
      configured = there;
      answered = answer;
      keyed = refl;
    };
    policy_decides = λ policy endpoint d m there. record {
      policy = policy;
      endpoint = endpoint;
      request = d;
      mapping = m;
      configured = there;
      answered = refl;
      keyed = refl;
    };
  }

  -- The requests, newest first.
  unfoldable pub serve : List (R × AwsEndpoint) → State R → State R
  serve [] st = st
  serve ((req, endpoint) ∷ served) st = handle_pipeline srv req endpoint (serve served st)

  pub AllSent-mono :
      (P Q : R → List (Effect R) → Type 0)
      → ((out : R) (before : List (Effect R)) → P out before → Q out before)
      → (effects : List (Effect R)) → AllSent P effects
      → AllSent Q effects
  AllSent-mono P Q more [] h = tt
  AllSent-mono P Q more (forwarded out ∷ es) h = (more out es h.0, AllSent-mono P Q more es h.1)
  AllSent-mono P Q more (counted label ∷ es) h = AllSent-mono P Q more es h
  AllSent-mono P Q more (observed label ∷ es) h = AllSent-mono P Q more es h
  AllSent-mono P Q more (gauged label ∷ es) h = AllSent-mono P Q more es h
  AllSent-mono P Q more (wrote e accepted ∷ es) h = AllSent-mono P Q more es h
  AllSent-mono P Q more (closed r ∷ es) h = AllSent-mono P Q more es h
  AllSent-mono P Q more (replied r ∷ es) h = AllSent-mono P Q more es h

  IsVouched-Adds :
      (req : R) (endpoint : AwsEndpoint) (served : List (R × AwsEndpoint)) (st : State R)
      → Adds
          (coherent (IsServed ((req, endpoint) ∷ served)))
          1
          st
          (handle_pipeline srv req endpoint st)
  IsVouched-Adds req endpoint served st =
      handle_pipeline-Adds (coherent (IsServed ((req, endpoint) ∷ served))) req endpoint st
        (λ verify there_is v answered verified decode by d answer decoded m mapped maps decision
            known decides ids id out before signed permitted audited.
          here (record {
            granted = record {
              verified = v;
              decoded = d;
              mapping = m;
              decision = decision;
              event_ids = ids;
              event_id = id;
              authenticated = (verify, there_is, answered);
              verified_here = verified;
              decoded_by = (decode, by, answer);
              decoded_here = decoded;
              mapped = mapped;
              permitted = permitted;
              decision_known = known;
              audited = audited;
              signed_again = signed;
            };
            mapped = maps;
            decided = decides;
          }))

  serve-Good :
      (served : List (R × AwsEndpoint)) (st : State R)
      → Coherent st.caches
      → st.effects ≡ []
      → Good (coherent (IsServed served)) (serve served st)
        × (replies (serve served st).effects ≡ length served)
  unfolding serve
  serve-Good [] st held none_yet =
      ((held, subst (AllSent (IsServed [])) (sym none_yet) tt), ap replies none_yet)
  serve-Good ((req, endpoint) ∷ served) st held none_yet =
      let (good, count) = serve-Good served st held none_yet in
      let last = IsVouched-Adds req endpoint served (serve served st) in
      (
        last.keeps (
          good.0,
          AllSent-mono (IsServed served) (IsServed ((req, endpoint) ∷ served)) (λ out before. there)
              (serve served st).effects good.1,
        ),
        omega (arith, last.adds, count),
      )

-- Whatever the parts of the server do, when requests are handled one after another on new caches, each
-- request that is sent upstream is one that handlePipeline may send for one of them, with a mapping that
-- the mapper gave and a decision that the policy made, now or before for the same cache key; and there
-- is one response for each request.
pub serve-AllSent :
    {R : Type 0}
    → (srv : Server R) (served : List (R × AwsEndpoint)) (st : State R) (capacity room : ℕ)
      (operations : Lru Bytes MappingResult) (decisions : Lru Bytes Decision)
    → new_lru capacity ≡ some operations
    → new_lru room ≡ some decisions
    → st.caches ≡ some (operations, decisions)
    → st.effects ≡ []
    → AllSent (IsServed srv served) (serve srv served st).effects
      × (replies (serve srv served st).effects ≡ length served)
serve-AllSent srv served st capacity room operations decisions made_one made_other caches none_yet =
    let held : Coherent srv (some (operations, decisions)) = (
      new_lru-Holds bytes_discrete (IsMapped srv) capacity operations made_one,
      new_lru-Holds bytes_discrete (IsDecided srv) room decisions made_other,
    ) in
    let (good, count) =
      serve-Good srv served st (subst (Coherent srv) (sym caches) held) none_yet in
    (good.1, count)
