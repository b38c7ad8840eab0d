-- ===== src/Cache/Lru/Valid.antt =====
-- The invariant that ties the map to the list, and the steps that keep it.
use kordn.Base.{ℕ, ◌+◌, ◌<◌, ◌≤◌, List, ◌∷◌, Option, none, some, ◌≡◌, sym, ap, ◌∙◌, arith, length}
use kordn.Cache.Assoc.{
  find, delete, put, Distinct, Distinct-delete, Distinct-put, find-delete_self, find-delete_ne,
  length-delete, length-put,
}
use kordn.Cache.Lru.{Element, Lru}
use kordn.Cache.Lru.Refs.{
  DistinctRefs, RefsBelow, RefsBelow-suc, has_ref_fresh, DistinctRefs-delete, RefsBelow-delete,
  RefsBelow-find, has_ref-delete_found,
}

abbrev pub ref_at : {V : Type 0} → Option (Element V) → Option ℕ
ref_at none = none
ref_at (some e) = some e.ref

module _ {K V : Type 0} (dec : Discrete K) where
  -- The map holds, for each key, the reference of its element, and nothing else.
  pub record IsLinked (items : List (K × ℕ)) (order : List (K × Element V)) (fresh : ℕ)
      : Type 0 where
    pub keys : Distinct dec order
    pub refs : DistinctRefs order
    pub below : RefsBelow fresh order
    pub item_keys : Distinct dec items
    pub sized : length items ≡ length order
    pub linked : (k : K) → find dec k items ≡ ref_at (find dec k order)

  pub record IsValid (c : Lru K V) : Type 0 where
    pub positive : 0 < c.capacity
    pub bounded : length c.order ≤ c.capacity
    pub is_linked : IsLinked c.items c.order c.fresh

  linked-front :
      (j k : K) (items : List (K × ℕ)) (order : List (K × Element V)) (e e' : Element V)
      → find dec j items ≡ ref_at (find dec j order)
      → find dec k order ≡ some e
      → e'.ref ≡ e.ref
      → find dec j items ≡ ref_at (find dec j ((k, e') ∷ delete dec k order))
  unfolding find
  linked-front j k items order e e' h found same = ground (arith, find-delete_ne dec j k order)

  linked-delete :
      (j k : K) (items : List (K × ℕ)) (order : List (K × Element V))
      → find dec j items ≡ ref_at (find dec j order)
      → find dec j (delete dec k items) ≡ ref_at (find dec j (delete dec k order))
  linked-delete j k items order h = elim (dec k j) [
    | yes p ↦ rw p (find-delete_self dec j items ∙ ap ref_at (sym (find-delete_self dec j order)))
    | no p ↦ find-delete_ne dec j k items p ∙ h ∙ ap ref_at (sym (find-delete_ne dec j k order p))
  ]

  linked-push :
      (j k : K) (items : List (K × ℕ)) (order : List (K × Element V)) (fresh : ℕ) (v : V)
      → find dec j items ≡ ref_at (find dec j order)
      → find dec j (put dec k fresh items)
        ≡ ref_at (find dec j ((k, record { ref = fresh; value = v }) ∷ order))
  unfolding find put
  linked-push j k items order fresh v h = ground (arith, find-delete_ne dec j k items)

  -- An element that moves to the front, with any value, keeps its link.
  pub IsLinked-front :
      {items : List (K × ℕ)} {order : List (K × Element V)} {fresh : ℕ} (k : K) (e e' : Element V)
      → IsLinked items order fresh
      → find dec k order ≡ some e
      → e'.ref ≡ e.ref
      → IsLinked items ((k, e') ∷ delete dec k order) fresh
  IsLinked-front {items} {order} {fresh} k e e' h found same = record {
    keys = (find-delete_self dec k order, Distinct-delete dec k order h.keys);
    refs = (
      rw same (has_ref-delete_found dec k order e h.refs h.keys found),
      DistinctRefs-delete dec k order h.refs,
    );
    below = (
      rw same (RefsBelow-find dec fresh k order e h.below found),
      RefsBelow-delete dec fresh k order h.below,
    );
    item_keys = h.item_keys;
    sized = omega (arith, h.sized, length-delete dec k order e h.keys found);
    linked = λ j. linked-front j k items order e e' (h.linked j) found same;
  }

  -- A deleted key leaves the map and the list together.
  pub IsLinked-delete :
      {items : List (K × ℕ)} {order : List (K × Element V)} {fresh : ℕ} (k : K) (e : Element V)
      → IsLinked items order fresh
      → find dec k order ≡ some e
      → IsLinked (delete dec k items) (delete dec k order) fresh
  IsLinked-delete {items} {order} {fresh} k e h found = record {
    keys = Distinct-delete dec k order h.keys;
    refs = DistinctRefs-delete dec k order h.refs;
    below = RefsBelow-delete dec fresh k order h.below;
    item_keys = Distinct-delete dec k items h.item_keys;
    sized = omega (
      arith,
      h.sized,
      length-delete dec k order e h.keys found,
      length-delete dec k items e.ref h.item_keys (h.linked k ∙ ap ref_at found),
    );
    linked = λ j. linked-delete j k items order (h.linked j);
  }

  -- A new element with a fresh reference, for a key that is not there.
  pub IsLinked-push :
      {items : List (K × ℕ)} {order : List (K × Element V)} {fresh : ℕ} (k : K) (v : V)
      → IsLinked items order fresh
      → find dec k order ≡ none
      → IsLinked
          (put dec k fresh items)
          ((k, record { ref = fresh; value = v }) ∷ order)
          (fresh + 1)
  IsLinked-push {items} {order} {fresh} k v h absent = record {
    keys = (absent, h.keys);
    refs = (has_ref_fresh fresh order h.below, h.refs);
    below = (omega arith, RefsBelow-suc fresh order h.below);
    item_keys = Distinct-put dec k fresh items h.item_keys;
    sized = omega (arith, h.sized, length-put dec k fresh items (h.linked k ∙ ap ref_at absent));
    linked = λ j. linked-push j k items order fresh v (h.linked j);
  }
