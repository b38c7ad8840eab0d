-- ===== src/Cache/Lru/Methods.antt =====
-- The methods against a plain list of entries, most recently used first.
use kordn.Base.{
  ℕ, zero, suc, ◌+◌, ◌<◌, ◌≤◌, List, [], ◌∷◌, Bool, true, false, Option, none, some, ◌≡◌, refl, sym,
  ap, ◌∙◌, arith, length, take, take_of_length-le, length-take-le, Option-cases, Bool-cases, inl,
  inr, leb, ltb, leb→le,
}
use kordn.Cache.Assoc.{find, delete, back, length-delete, find-back, delete-back}
use kordn.Cache.Lru.{Element, Lru, find_element, remove_element, get_locked, evict}
use kordn.Cache.Lru.Refs.{find_element-find, remove_element-delete}
use kordn.Cache.Lru.Valid.{IsLinked, IsValid, ref_at, IsLinked-front, IsLinked-delete}

abbrev pub value_of : {V : Type 0} → Option (Element V) → Option V
value_of none = none
value_of (some e) = some e.value

abbrev pub is_some : {A : Type 0} → Option A → Bool
is_some none = false
is_some (some a) = true

module _ {K V : Type 0} where
  abbrev pub contents : List (K × Element V) → List (K × V)
  contents [] = []
  contents ((k, e) ∷ l) = (k, e.value) ∷ contents l

  -- The entries, most recently used first.
  abbrev pub view : Lru K V → List (K × V)
  view c = contents c.order

  pub length-contents : (l : List (K × Element V)) → length (contents l) ≡ length l
  length-contents [] = refl
  length-contents ((k, e) ∷ l) = ap suc (length-contents l)

  contents-take : (n : ℕ) (l : List (K × Element V)) → contents (take n l) ≡ take n (contents l)
  contents-take n [] = refl
  contents-take zero ((k, e) ∷ l) = refl
  contents-take (suc n) ((k, e) ∷ l) = ap (◌∷◌ (k, e.value)) (contents-take n l)

module _ {K V : Type 0} (dec : Discrete K) where
  pub find-contents :
      (k : K) (l : List (K × Element V)) → find dec k (contents l) ≡ value_of (find dec k l)
  unfolding find
  find-contents k [] = refl
  find-contents k ((j, e) ∷ l) = ground (arith, find-contents k l)

  pub contents-delete :
      (k : K) (l : List (K × Element V)) → contents (delete dec k l) ≡ delete dec k (contents l)
  unfolding delete
  contents-delete k [] = refl
  contents-delete k ((j, e) ∷ l) = ground (arith, contents-delete k l)

  -- The entry of the key at the front, if there is one.
  unfoldable pub promote : K → List (K × V) → List (K × V)
  promote k l = elim (find dec k l) [ none ↦ l | some v ↦ (k, v) ∷ delete dec k l ]

  -- What a lookup finds through the map.
  pub get_locked-hit :
      (c : Lru K V) (k : K) (e : Element V)
      → IsValid dec c
      → find dec k c.order ≡ some e
      → (find dec k c.items ≡ some e.ref)
        × (find_element e.ref c.order ≡ some (k, e))
        × (remove_element e.ref c.order ≡ delete dec k c.order)
  get_locked-hit c k e h found = (
    h.is_linked.linked k ∙ ap ref_at found,
    find_element-find dec k c.order e h.is_linked.refs found,
    remove_element-delete dec k c.order e h.is_linked.keys h.is_linked.refs found,
  )

  -- `Get` returns the stored value and moves its entry to the front; it keeps the invariant.
  pub get_locked-promote :
      (c : Lru K V) (k : K)
      → IsValid dec c
      → IsValid dec (get_locked dec c k).0
        × ((get_locked dec c k).1 ≡ find dec k (view c))
        × (view (get_locked dec c k).0 ≡ promote k (view c))
  unfolding get_locked promote
  get_locked-promote c k h = elim (Option-cases (find dec k c.order)) [
    | inl absent ↦
        let none_there = h.is_linked.linked k ∙ ap ref_at absent in
        let nothing = find-contents k c.order ∙ ap value_of absent in
        rw (none_there, nothing, get_locked, promote)
          (
            record { positive = h.positive; bounded = h.bounded; is_linked = h.is_linked },
            refl,
            refl,
          )
    | inr (e, found) ↦
        let (pointer, element, removed) = get_locked-hit c k e h found in
        let value = find-contents k c.order ∙ ap value_of found in
        rw (pointer, value, get_locked, promote)
          (rw (element, removed)
            (
              record {
                positive = h.positive;
                bounded =
                    omega (arith, h.bounded, length-delete dec k c.order e h.is_linked.keys found);
                is_linked = IsLinked-front dec k e e h.is_linked found refl;
              },
              refl,
              ap (◌∷◌ (k, e.value)) (contents-delete k c.order),
            ))
  ]

  back-some :
      (n : ℕ) (l : List (K × Element V))
      → length l ≡ suc n
      → (old : K × Element V) × (back dec l ≡ some old)
  back-some n [] h = absurd (ground arith)
  back-some n (e ∷ []) h = (e, refl)
  back-some zero (e ∷ f ∷ l) h = absurd (omega arith)
  back-some (suc n) (e ∷ f ∷ l) h = back-some n (f ∷ l) (omega arith)

  -- The eviction from a cache that holds one entry too many.
  evict_full :
      (c : Lru K V)
      → 0 < c.capacity
      → length c.order ≡ suc c.capacity
      → IsLinked dec c.items c.order c.fresh
      → (old : K × Element V) × (back dec c.order ≡ some old)
        × (remove_element old.1.ref c.order ≡ take c.capacity c.order)
        × IsLinked dec (delete dec old.0 c.items) (take c.capacity c.order) c.fresh
  evict_full c pos len h =
      let (old, last) = back-some c.capacity c.order len in
      let found = find-back dec c.order old.0 old.1 h.keys last in
      let deleted = delete-back dec c.capacity c.order old.0 old.1 h.keys len last in
      (
        old,
        last,
        remove_element-delete dec old.0 c.order old.1 h.keys h.refs found ∙ deleted,
        rw deleted at (IsLinked-delete dec old.0 old.1 h found),
      )

  -- The eviction after a new element: it keeps the most recent entries.
  pub evict-take :
      (c : Lru K V)
      → 0 < c.capacity
      → length c.order ≤ c.capacity + 1
      → IsLinked dec c.items c.order c.fresh
      → IsValid dec (evict dec c).0
        × (view (evict dec c).0 ≡ take c.capacity (view c))
        × ((evict dec c).1 ≡ ltb c.capacity (length c.order))
  unfolding evict
  evict-take c pos len h = elim (Bool-cases (leb (length c.order) c.capacity)) [
    | inl fits ↦
        let short = leb→le (length c.order) c.capacity fits in
        let whole =
          take_of_length-le c.capacity (view c) (omega (arith, length-contents c.order)) in
        rw (fits, evict)
          (record { positive = pos; bounded = short; is_linked = h }, sym whole, ground arith)
    | inr full ↦
        let (old, last, removed, l) = evict_full c pos (ground arith) h in
        rw (full, last, removed, evict)
          (
            record { positive = pos; bounded = length-take-le c.capacity c.order; is_linked = l },
            contents-take c.capacity c.order,
            ground arith,
          )
  ]
