-- ===== src/Cache/Lru/Updates.antt =====
-- `Add` and `Remove` against the list of entries.
use kordn.Base.{
  ℕ, suc, ◌+◌, ◌<◌, ◌≤◌, [], ◌∷◌, not, ◌&&◌, none, some, ◌≡◌, refl, sym, ap, ◌∙◌, arith, length,
  take, take_of_length-le, Option-cases, Bool-cases, inl, inr, leb, ltb,
}
use kordn.Cache.Assoc.{find, delete, length-delete, delete_absent}
use kordn.Cache.Lru.{
  Lru, new_lru, empty_cache, evict, push_front, add_locked, remove_locked, clear_locked,
  size_locked,
}
use kordn.Cache.Lru.Valid.{IsValid, ref_at, IsLinked-front, IsLinked-delete, IsLinked-push}
use kordn.Cache.Lru.Methods.{
  view, contents, value_of, is_some, length-contents, find-contents, contents-delete,
  get_locked-hit, evict-take,
}

module _ {K V : Type 0} (dec : Discrete K) where
  -- A new key: the element at the front, and one entry less if there are too many.
  add_new :
      (c : Lru K V) (k : K) (v : V)
      → IsValid dec c
      → find dec k c.order ≡ none
      → IsValid dec (evict dec (push_front dec c k v)).0
        × (view (evict dec (push_front dec c k v)).0 ≡ take c.capacity ((k, v) ∷ view c))
        × ((evict dec (push_front dec c k v)).1 ≡ ltb c.capacity (length (view c) + 1))
  unfolding push_front
  add_new c k v h absent =
      let (valid, entries, flag) =
        evict-take dec (push_front dec c k v) h.positive (omega (arith, h.bounded))
          (IsLinked-push dec k v h.is_linked absent) in
      let n : suc (length c.order) ≡ length (view c) + 1 = omega (arith, length-contents c.order) in
      (valid, entries, flag ∙ ap (ltb c.capacity) n)

  -- `Add` puts the entry at the front in place of an older one of the key, and keeps as many
  -- entries as fit; it reports a replaced entry, and an evicted one exactly when a new key comes
  -- to a full cache.
  pub add_locked-take :
      (c : Lru K V) (k : K) (v : V)
      → IsValid dec c
      → IsValid dec (add_locked dec c k v).0
        × (view (add_locked dec c k v).0 ≡ take c.capacity ((k, v) ∷ delete dec k (view c)))
        × ((add_locked dec c k v).1 ≡ is_some (find dec k (view c)))
        × ((add_locked dec c k v).2
            ≡ (not (is_some (find dec k (view c))) && ltb c.capacity (length (view c) + 1)))
  unfolding add_locked
  add_locked-take c k v h = elim (Option-cases (find dec k c.order)) [
    | inl absent ↦
        let nowhere = h.is_linked.linked k ∙ ap ref_at absent in
        let nothing = find-contents dec k c.order ∙ ap value_of absent in
        let (valid, entries, flag) = add_new c k v h absent in
        rw (nowhere, nothing, delete_absent dec k (view c) nothing, add_locked)
          (valid, entries, refl, flag)
    | inr (e, found) ↦
        let (pointer, element, removed) = get_locked-hit dec c k e h found in
        let value = find-contents dec k c.order ∙ ap value_of found in
        let shorter = length-delete dec k c.order e h.is_linked.keys found in
        let same = contents-delete dec k c.order in
        let fits : length ((k, v) ∷ contents (delete dec k c.order)) ≤ c.capacity =
          omega (arith, h.bounded, length-contents (delete dec k c.order)) in
        rw (pointer, value, removed, add_locked)
          (
            record {
              positive = h.positive;
              bounded = omega (arith, h.bounded);
              is_linked =
                  IsLinked-front dec k e (record { ref = e.ref; value = v }) h.is_linked found refl;
            },
            sym (take_of_length-le c.capacity _ fits) ∙ ap (λ l. take c.capacity ((k, v) ∷ l)) same,
            refl,
            refl,
          )
  ]

  -- `Remove` deletes the entry of the key, and reports whether there was one.
  pub remove_locked-delete :
      (c : Lru K V) (k : K)
      → IsValid dec c
      → IsValid dec (remove_locked dec c k).0
        × (view (remove_locked dec c k).0 ≡ delete dec k (view c))
        × ((remove_locked dec c k).1 ≡ is_some (find dec k (view c)))
  unfolding remove_locked
  remove_locked-delete c k h = elim (Option-cases (find dec k c.order)) [
    | inl absent ↦
        let nowhere = h.is_linked.linked k ∙ ap ref_at absent in
        let nothing = find-contents dec k c.order ∙ ap value_of absent in
        rw (nowhere, nothing, delete_absent dec k (view c) nothing, remove_locked)
          (
            record { positive = h.positive; bounded = h.bounded; is_linked = h.is_linked },
            refl,
            refl,
          )
    | inr (e, found) ↦
        let (pointer, element, removed) = get_locked-hit dec c k e h found in
        let value = find-contents dec k c.order ∙ ap value_of found in
        rw (pointer, value, removed, remove_locked)
          (
            record {
              positive = h.positive;
              bounded =
                  omega (arith, h.bounded, length-delete dec k c.order e h.is_linked.keys found);
              is_linked = IsLinked-delete dec k e h.is_linked found;
            },
            contents-delete dec k c.order,
            refl,
          )
  ]

  empty-IsValid : (capacity : ℕ) → 0 < capacity → IsValid dec (empty_cache {K = K} {V = V} capacity)
  unfolding find
  empty-IsValid capacity h = record {
    positive = h;
    bounded = omega arith;
    is_linked = record {
      keys = tt;
      refs = tt;
      below = tt;
      item_keys = tt;
      sized = refl;
      linked = λ k. refl;
    };
  }

  -- A new cache is valid and empty; a capacity of zero is refused.
  pub new_lru-IsValid :
      (capacity : ℕ) (c : Lru K V)
      → new_lru capacity ≡ some c
      → IsValid dec c × (view c ≡ []) × (c.capacity ≡ capacity)
  unfolding new_lru
  new_lru-IsValid capacity c h = elim (Bool-cases (leb capacity 0)) [
    | inl refused ↦ absurd (ground arith)
    | inr positive ↦
        let e : empty_cache {K = K} {V = V} capacity ≡ c = ground arith in
        rw (← e) (empty-IsValid capacity (ground arith), refl, refl)
  ]

  pub clear_locked-IsValid : (c : Lru K V) → IsValid dec c → IsValid dec (clear_locked c)
  unfolding clear_locked find
  clear_locked-IsValid c h = record {
    positive = h.positive;
    bounded = omega arith;
    is_linked = record {
      keys = tt;
      refs = tt;
      below = tt;
      item_keys = tt;
      sized = refl;
      linked = λ k. refl;
    };
  }

  -- `Len` is the number of entries, at most the capacity.
  pub size_locked-le-capacity :
      (c : Lru K V)
      → IsValid dec c
      → (size_locked c ≡ length (view c)) × (size_locked c ≤ c.capacity)
  unfolding size_locked
  size_locked-le-capacity c h = (
    omega (arith, h.is_linked.sized, length-contents c.order),
    omega (arith, h.is_linked.sized, h.bounded),
  )
