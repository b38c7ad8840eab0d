-- ===== src/Cache/Lru.antt =====
-- internal/cache/lru.go: the bounded cache. `container/list` is the list of its elements, front
-- first; an element is known by a reference, as the map of the cache holds pointers to elements.
-- Each method runs under the cache's mutex, so it is one step.
use kordn.Base.{
  ℕ, ◌+◌, ◌%◌, ◌^◌, List, [], ◌∷◌, map, Bool, true, false, Option, none, some, length, ◌==◌, leb,
  if◌then◌else◌,
}
use kordn.Cache.Assoc.{find, delete, put, back}
pub mod Refs
pub mod Valid
pub mod Methods
pub mod Updates
pub mod Kept
pub mod History

-- `list.Element` with its `entry`; the key stands beside it in the order.
pub record Element (V : Type 0) : Type 0 where
  pub ref : ℕ
  pub value : V

-- `fresh` is a reference that no element has yet.
pub record Lru (K V : Type 0) : Type 0 where
  pub capacity : ℕ
  pub items : List (K × ℕ)
  pub order : List (K × Element V)
  pub hits : ℕ
  pub misses : ℕ
  pub evictions : ℕ
  pub fresh : ℕ

pub record Stats : Type 0 where
  pub hits : ℕ
  pub misses : ℕ
  pub evictions : ℕ
  pub size : ℕ
  pub capacity : ℕ

-- A uint64 counter.
abbrev pub next_count : ℕ → ℕ
next_count n = (n + 1) % 2 ^ 64

abbrev pub empty_cache : {K V : Type 0} → ℕ → Lru K V
empty_cache capacity = record {
  capacity = capacity;
  items = [];
  order = [];
  hits = 0;
  misses = 0;
  evictions = 0;
  fresh = 0;
}

-- `NewLRU`; `none` is the error.
unfoldable pub new_lru : {K V : Type 0} → ℕ → Option (Lru K V)
new_lru capacity = if leb capacity 0 then none else some (empty_cache capacity)

module _ {K V : Type 0} where
  -- The element behind a pointer.
  unfoldable pub find_element : ℕ → List (K × Element V) → Option (K × Element V)
  find_element r [] = none
  find_element r ((k, e) ∷ l) = if e.ref == r then some (k, e) else find_element r l

  -- `order.Remove`.
  unfoldable pub remove_element : ℕ → List (K × Element V) → List (K × Element V)
  remove_element r [] = []
  remove_element r ((k, e) ∷ l) = if e.ref == r then l else (k, e) ∷ remove_element r l

module _ {K V : Type 0} (dec : Discrete K) where
  -- `Get` on a cache that is not nil.
  unfoldable pub get_locked : Lru K V → K → Lru K V × Option V
  get_locked c key = elim (find dec key c.items) [
    | none ↦ (record c { misses = next_count c.misses }, none)
    | some r ↦ elim (find_element r c.order) [
      | none ↦ (record c { hits = next_count c.hits }, none)
      | some (k, e) ↦ (
        record c { hits = next_count c.hits; order = (k, e) ∷ remove_element r c.order },
        some e.value,
      )
    ]
  ]

  -- The eviction at the end of `Add`, with the flag `evicted`.
  unfoldable pub evict : Lru K V → Lru K V × Bool
  evict c = if leb (length c.order) c.capacity then (c, false) else elim (back dec c.order) [
    | none ↦ (c, false)
    | some (k, e) ↦ (
      record c {
        items = delete dec k c.items;
        order = remove_element e.ref c.order;
        evictions = next_count c.evictions;
      },
      true,
    )
  ]

  -- `PushFront` of a new element.
  unfoldable pub push_front : Lru K V → K → V → Lru K V
  push_front c key value = record c {
    order = (key, record { ref = c.fresh; value = value }) ∷ c.order;
    items = put dec key c.fresh c.items;
    fresh = c.fresh + 1;
  }

  -- `Add` on a cache that is not nil; the result is `(replaced, evicted)`.
  unfoldable pub add_locked : Lru K V → K → V → Lru K V × Bool × Bool
  add_locked c key value = elim (find dec key c.items) [
    | some r ↦ (
      record c { order = (key, record { ref = r; value = value }) ∷ remove_element r c.order },
      true,
      false,
    )
    | none ↦ let (c', evicted) = evict (push_front c key value) in (c', false, evicted)
  ]

  unfoldable pub remove_locked : Lru K V → K → Lru K V × Bool
  remove_locked c key = elim (find dec key c.items) [
    | none ↦ (c, false)
    | some r ↦ (record c { items = delete dec key c.items; order = remove_element r c.order }, true)
  ]

module _ {K V : Type 0} where
  unfoldable pub clear_locked : Lru K V → Lru K V
  clear_locked c = record c { items = []; order = [] }

  -- `Len` on a cache that is not nil.
  unfoldable pub size_locked : Lru K V → ℕ
  size_locked c = length c.items

  unfoldable pub snapshot_locked : Lru K V → List V
  snapshot_locked c = map (λ e. e.1.value) c.order

  unfoldable pub stats_locked : Lru K V → Stats
  stats_locked c = record {
    hits = c.hits;
    misses = c.misses;
    evictions = c.evictions;
    size = size_locked c;
    capacity = c.capacity;
  }

-- The exported methods: a nil cache answers with zero values.
module _ {K V : Type 0} (dec : Discrete K) where
  unfoldable pub get : Option (Lru K V) → K → Option (Lru K V) × Option V
  get none key = (none, none)
  get (some c) key = let (c', v) = get_locked dec c key in (some c', v)

  unfoldable pub add : Option (Lru K V) → K → V → Option (Lru K V) × Bool × Bool
  add none key value = (none, false, false)
  add (some c) key value =
      let (c', replaced, evicted) = add_locked dec c key value in (some c', replaced, evicted)

  unfoldable pub remove : Option (Lru K V) → K → Option (Lru K V) × Bool
  remove none key = (none, false)
  remove (some c) key = let (c', removed) = remove_locked dec c key in (some c', removed)

module _ {K V : Type 0} where
  unfoldable pub size : Option (Lru K V) → ℕ
  size none = 0
  size (some c) = size_locked c

  unfoldable pub capacity_of : Option (Lru K V) → ℕ
  capacity_of none = 0
  capacity_of (some c) = c.capacity

  unfoldable pub stats : Option (Lru K V) → Stats
  stats none = record { hits = 0; misses = 0; evictions = 0; size = 0; capacity = 0 }
  stats (some c) = stats_locked c

  unfoldable pub clear : Option (Lru K V) → Option (Lru K V)
  clear none = none
  clear (some c) = some (clear_locked c)

  unfoldable pub snapshot : Option (Lru K V) → List V
  snapshot none = []
  snapshot (some c) = snapshot_locked c
