-- ===== src/Cache/Lru/History.antt =====
-- A cache under a sequence of calls, against the list of the most recently used entries.
use kordn.Base.{
  ◌≤◌, some, ℕ, ◌+◌, List, [], ◌∷◌, Bool, not, ◌&&◌, Option, ◌≡◌, refl, ap, ap₂, ◌∙◌, arith, length,
  take, ltb,
}
use kordn.Cache.Assoc.{find, delete}
use kordn.Cache.Lru.{
  Lru, new_lru, size_locked, get_locked, evict, push_front, add_locked, remove_locked, clear_locked,
}
use kordn.Cache.Lru.Valid.{IsValid}
use kordn.Cache.Lru.Methods.{view, is_some, promote, get_locked-promote}
use kordn.Cache.Lru.Updates.{
  new_lru-IsValid, size_locked-le-capacity, add_locked-take, remove_locked-delete,
  clear_locked-IsValid,
}

pub data Call (K V : Type 0) : Type 0 where
  get : K → Call K V
  add : K → V → Call K V
  remove : K → Call K V
  clear_all : Call K V

pub data Reply (V : Type 0) : Type 0 where
  got : Option V → Reply V
  added : Bool → Bool → Reply V
  removed : Bool → Reply V
  cleared : Reply V

module _ {K V : Type 0} (dec : Discrete K) where
  unfoldable pub step : Lru K V → Call K V → Lru K V × Reply V
  step c (get k) = let (c', v) = get_locked dec c k in (c', got v)
  step c (add k v) =
      let (c', replaced, evicted) = add_locked dec c k v in (c', added replaced evicted)
  step c (remove k) = let (c', flag) = remove_locked dec c k in (c', removed flag)
  step c clear_all = (clear_locked c, cleared)

  unfoldable pub run : List (Call K V) → Lru K V → Lru K V × List (Reply V)
  run [] c = (c, [])
  run (call ∷ calls) c =
      let (c₁, reply) = step c call in let (c₂, replies) = run calls c₁ in (c₂, reply ∷ replies)

  -- The same on the list of entries, most recently used first.
  unfoldable pub list_step : ℕ → List (K × V) → Call K V → List (K × V) × Reply V
  list_step capacity l (get k) = (promote dec k l, got (find dec k l))
  list_step capacity l (add k v) = (
    take capacity ((k, v) ∷ delete dec k l),
    added (is_some (find dec k l)) (not (is_some (find dec k l)) && ltb capacity (length l + 1)),
  )
  list_step capacity l (remove k) = (delete dec k l, removed (is_some (find dec k l)))
  list_step capacity l clear_all = ([], cleared)

  unfoldable pub list_run : ℕ → List (Call K V) → List (K × V) → List (K × V) × List (Reply V)
  list_run capacity [] l = (l, [])
  list_run capacity (call ∷ calls) l =
      let (l₁, reply) = list_step capacity l call in
      let (l₂, replies) = list_run capacity calls l₁ in (l₂, reply ∷ replies)

  -- One call: the invariant, the entries, the reply, and the capacity.
  pub record Agrees (c : Lru K V) (r : Lru K V × Reply V) (s : List (K × V) × Reply V)
      : Type 0 where
    pub valid : IsValid dec r.0
    pub entries : view r.0 ≡ s.0
    pub reply : r.1 ≡ s.1
    pub capacity : r.0.capacity ≡ c.capacity

  get-capacity : (c : Lru K V) (k : K) → (get_locked dec c k).0.capacity ≡ c.capacity
  unfolding get_locked
  get-capacity c k = ground arith

  evict-capacity : (c : Lru K V) → (evict dec c).0.capacity ≡ c.capacity
  unfolding evict
  evict-capacity c = ground arith

  add-capacity : (c : Lru K V) (k : K) (v : V) → (add_locked dec c k v).0.capacity ≡ c.capacity
  unfolding add_locked push_front
  add-capacity c k v = ground (arith, evict-capacity (push_front dec c k v))

  remove-capacity : (c : Lru K V) (k : K) → (remove_locked dec c k).0.capacity ≡ c.capacity
  unfolding remove_locked
  remove-capacity c k = ground arith

  clear_empty : (c : Lru K V) → view (clear_locked c) ≡ []
  unfolding clear_locked
  clear_empty c = refl

  clear_capacity : (c : Lru K V) → (clear_locked c).capacity ≡ c.capacity
  unfolding clear_locked
  clear_capacity c = refl

  step-Agrees :
      (c : Lru K V) (call : Call K V)
      → IsValid dec c
      → Agrees c (step c call) (list_step c.capacity (view c) call)
  unfolding step list_step
  step-Agrees c (get k) h =
      let (valid, value, entries) = get_locked-promote dec c k h in
      record { valid = valid; entries = entries; reply = ap got value; capacity = get-capacity c k }
  step-Agrees c (add k v) h =
      let (valid, entries, replaced, evicted) = add_locked-take dec c k v h in
      record {
        valid = valid;
        entries = entries;
        reply = ap₂ added replaced evicted;
        capacity = add-capacity c k v;
      }
  step-Agrees c (remove k) h =
      let (valid, entries, flag) = remove_locked-delete dec c k h in
      record {
        valid = valid;
        entries = entries;
        reply = ap removed flag;
        capacity = remove-capacity c k;
      }
  step-Agrees c clear_all h = record {
    valid = clear_locked-IsValid dec c h;
    entries = clear_empty c;
    reply = refl;
    capacity = clear_capacity c;
  }

  -- Under every sequence of calls the cache gives the replies of the list and holds its entries: what
  -- is evicted is always the least recently used entry.
  pub run-list_run :
      (calls : List (Call K V)) (c : Lru K V)
      → IsValid dec c
      → IsValid dec (run calls c).0
        × (view (run calls c).0 ≡ (list_run c.capacity calls (view c)).0)
        × ((run calls c).1 ≡ (list_run c.capacity calls (view c)).1)
  unfolding run list_run
  run-list_run [] c h = (h, refl, refl)
  run-list_run (call ∷ calls) c h =
      let a = step-Agrees c call h in
      let (valid, entries, replies) = run-list_run calls (step c call).0 a.valid in
      (
        valid,
        entries ∙ ap₂ (λ n l. (list_run n calls l).0) a.capacity a.entries,
        ap₂ ◌∷◌ a.reply (replies ∙ ap₂ (λ n l. (list_run n calls l).1) a.capacity a.entries),
      )

  run-capacity :
      (calls : List (Call K V)) (c : Lru K V)
      → IsValid dec c
      → (run calls c).0.capacity ≡ c.capacity
  unfolding run
  run-capacity [] c h = refl
  run-capacity (call ∷ calls) c h =
      let a = step-Agrees c call h in run-capacity calls (step c call).0 a.valid ∙ a.capacity

  -- A cache that `NewLRU` made replies to every sequence of calls as a list cut at its capacity does,
  -- and never holds more entries than that.
  pub new_lru-run :
      (capacity : ℕ) (c : Lru K V) (calls : List (Call K V))
      → new_lru capacity ≡ some c
      → ((run calls c).1 ≡ (list_run capacity calls []).1)
        × (size_locked (run calls c).0 ≤ capacity)
  new_lru-run capacity c calls made =
      let (valid, empty, e) = new_lru-IsValid dec capacity c made in
      let (valid', entries, replies) = run-list_run calls c valid in
      (
        replies ∙ ap₂ (λ n l. (list_run n calls l).1) e empty,
        omega (
          arith,
          (size_locked-le-capacity dec (run calls c).0 valid').1,
          run-capacity calls c valid,
          e,
        ),
      )
