-- ===== src/Proxy/Pipeline/Caching.antt =====
-- internal/proxy/server.go: the lookups of the pipeline's caches.
use mathlib.Core.Path.{subst}
use kordn.Base.{
  ℕ, ◌≡◌, refl, ap, List, Bool, true, false, Bool-cases, Option, none, some, Option-cases, inl, inr,
  Bytes, codes, arith,
}
use kordn.AwsRequest.Endpoint.{is_empty}
use kordn.AwsRequest.Mapping.{MappingResult}
use kordn.Policy.Decision.{Decision}
use kordn.Cache.Lru.{Lru, get_locked, add_locked}
use kordn.Proxy.Pipeline.Watch.{Watch}
use kordn.Cache.Lru.Kept.{Found}
use kordn.Proxy.Server.{Server, State, Effect, count}
use kordn.Proxy.Lookups.{bytes_discrete, count_eviction, add_decision, add_mapping, cached_mapping}
use kordn.Proxy.Pipeline.Stages.{Adds, replies}

module _ {R : Type 0} {srv : Server R} (P : Watch srv) where
  -- A step to a state with the same effects, but for an eviction that is counted.
  count_eviction-Adds :
      (evicted : Bool) (st st' : State R)
      → st'.effects ≡ st.effects
      → (P.held st.caches → P.held st'.caches)
      → Adds P 0 st (count_eviction srv evicted st')
  count_eviction-Adds true st st' e held = record {
    adds = omega (arith, ap replies e);
    keeps = λ g. (held g.0, rw e g.1);
  }
  count_eviction-Adds false st st' e held = record {
    adds = omega (arith, ap replies e);
    keeps = λ g. (held g.0, rw e g.1);
  }

  abbrev pub Caches : Type 0
  Caches = Option (Lru Bytes MappingResult × Lru Bytes Decision)

  abbrev pub at : Caches → ℕ → List (Effect R) → State R
  at caches ids effects = record { caches = caches; ids = ids; effects = effects }

  add_decision-at :
      (key : Bytes) (decision : Decision) (caches : Caches) (ids : ℕ) (effects : List (Effect R))
      → P.decides key decision
      → Adds P 0 (at caches ids effects) (add_decision srv key decision (at caches ids effects))
  unfolding add_decision
  add_decision-at key decision none ids effects known = record {
    adds = omega arith;
    keeps = λ g. g;
  }
  add_decision-at key decision (some (operations, decisions)) ids effects known =
      let added = add_locked bytes_discrete decisions key decision in
      count_eviction-Adds added.2 (at (some (operations, decisions)) ids effects)
        (at (some (operations, added.0)) ids effects) refl
        (P.adds_decision key decision operations decisions known)

  pub add_decision-Adds :
      (key : Bytes) (decision : Decision) (st : State R)
      → P.decides key decision
      → Adds P 0 st (add_decision srv key decision st)
  add_decision-Adds key decision st = add_decision-at key decision st.caches st.ids st.effects

  add_mapping-at :
      (key : Bytes) (m : MappingResult) (caches : Caches) (ids : ℕ) (effects : List (Effect R))
      → P.maps key m
      → Adds P 0 (at caches ids effects) (add_mapping srv key m (at caches ids effects))
  unfolding add_mapping
  add_mapping-at key m none ids effects known = record { adds = omega arith; keeps = λ g. g }
  add_mapping-at key m (some (operations, decisions)) ids effects known =
      elim (Bool-cases (is_empty key)) [
        | inl blank ↦ rw (blank, add_mapping) (record { adds = omega arith; keeps = λ g. g })
        | inr filled ↦
            (let added = add_locked bytes_discrete operations key m in
              rw (filled, add_mapping)
                (count_eviction-Adds added.2 (at (some (operations, decisions)) ids effects)
                  (at (some (added.0, decisions)) ids effects) refl
                  (P.adds_mapping key m operations decisions known)))
      ]

  pub add_mapping-Adds :
      (key : Bytes) (m : MappingResult) (st : State R)
      → P.maps key m
      → Adds P 0 st (add_mapping srv key m st)
  add_mapping-Adds key m st = add_mapping-at key m st.caches st.ids st.effects

  -- A lookup keeps what is watched, and a hit is of what is held.
  pub record Looks {A : Type 0} (Q : A → Type 0) (st : State R) (r : Option A × State R)
      : Type 0 where
    pub added : Adds P 0 st r.1
    pub held : P.held st.caches → P.held r.1.caches
    pub hit : P.held st.caches → Found Q r.0

  -- A lookup that is counted.
  pub counted-Looks :
      {A : Type 0} (Q : A → Type 0) (label : Bytes) (o : Option A) (st : State R) (caches : Caches)
      → (P.held st.caches → P.held caches × Found Q o)
      → Looks Q st (o, count label (record st { caches = caches }))
  counted-Looks Q label o st caches keeps = record {
    added = record { adds = omega arith; keeps = λ g. ((keeps g.0).0, g.1) };
    held = λ h. (keeps h).0;
    hit = λ h. (keeps h).1;
  }

  pub no_caches-Looks : {A : Type 0} (Q : A → Type 0) (st : State R) → Looks Q st (none, st)
  no_caches-Looks Q st = record {
    added = record { adds = omega arith; keeps = λ g. g };
    held = λ h. h;
    hit = λ h. tt;
  }

  cached_mapping-at :
      (key : Bytes) (caches : Caches) (ids : ℕ) (effects : List (Effect R))
      → Looks (P.maps key) (at caches ids effects) (cached_mapping srv key (at caches ids effects))
  unfolding cached_mapping
  cached_mapping-at key none ids effects = no_caches-Looks (P.maps key) (at none ids effects)
  cached_mapping-at key (some (operations, decisions)) ids effects =
      let st = at (some (operations, decisions)) ids effects in
      let looked = get_locked bytes_discrete operations key in
      let found = P.finds_mapping key operations decisions in
      elim (Option-cases looked.1) [
        | inl miss ↦
            rw (miss, cached_mapping)
              (counted-Looks (P.maps key) (codes "cache_mapping_misses") none st
                (some (looked.0, decisions)) (λ h. ((found h).0, tt)))
        | inr (m, there) ↦
            rw (there, cached_mapping)
              (counted-Looks (P.maps key) (codes "cache_mapping_hits") (some m) st
                (some (looked.0, decisions))
                (λ h. ((found h).0, subst (Found (P.maps key)) there (found h).1)))
      ]

  pub cached_mapping-Looks :
      (key : Bytes) (st : State R) → Looks (P.maps key) st (cached_mapping srv key st)
  cached_mapping-Looks key st = cached_mapping-at key st.caches st.ids st.effects
