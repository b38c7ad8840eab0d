-- ===== src/Cache/Lru/Refs.antt =====
-- Elements found by reference and by key are the same.
use mathlib.Core.Logic.{if_pos, if_neg}
use kordn.Base.{ℕ, ◌+◌, ◌<◌, List, [], ◌∷◌, Bool, true, false, ◌||◌, some, ◌≡◌, refl, arith, ◌==◌}
use kordn.Cache.Assoc.{find, delete, Distinct, delete_absent}
use kordn.Cache.Lru.{Element, find_element, remove_element}

module _ {K V : Type 0} where
  abbrev pub has_ref : ℕ → List (K × Element V) → Bool
  has_ref r [] = false
  has_ref r ((k, e) ∷ l) = e.ref == r || has_ref r l

  -- No reference stands twice.
  abbrev pub DistinctRefs : List (K × Element V) → Type 0
  DistinctRefs [] = Unit
  DistinctRefs ((k, e) ∷ l) = (has_ref e.ref l ≡ false) × DistinctRefs l

  -- Every reference is older than `n`.
  abbrev pub RefsBelow : ℕ → List (K × Element V) → Type 0
  RefsBelow n [] = Unit
  RefsBelow n ((k, e) ∷ l) = (e.ref < n) × RefsBelow n l

  pub RefsBelow-suc : (n : ℕ) (l : List (K × Element V)) → RefsBelow n l → RefsBelow (n + 1) l
  RefsBelow-suc n [] h = tt
  RefsBelow-suc n ((k, e) ∷ l) (h, t) = (omega arith, RefsBelow-suc n l t)

  pub has_ref_fresh : (n : ℕ) (l : List (K × Element V)) → RefsBelow n l → has_ref n l ≡ false
  has_ref_fresh n [] h = refl
  has_ref_fresh n ((k, e) ∷ l) (h, t) = ground (arith, has_ref_fresh n l t)

module _ {K V : Type 0} (dec : Discrete K) where
  has_ref-delete :
      (k : K) (r : ℕ) (l : List (K × Element V))
      → has_ref r l ≡ false
      → has_ref r (delete dec k l) ≡ false
  unfolding delete
  has_ref-delete k r [] h = refl
  has_ref-delete k r ((j, e) ∷ l) h = ground (arith, has_ref-delete k r l)

  pub DistinctRefs-delete :
      (k : K) (l : List (K × Element V)) → DistinctRefs l → DistinctRefs (delete dec k l)
  unfolding delete
  DistinctRefs-delete k [] h = tt
  DistinctRefs-delete k ((j, e) ∷ l) (h, t) = elim (dec j k) [
    | yes p ↦ rw (if_pos _ p) (DistinctRefs-delete k l t)
    | no p ↦ rw (if_neg _ p) (has_ref-delete k e.ref l h, DistinctRefs-delete k l t)
  ]

  pub RefsBelow-delete :
      (n : ℕ) (k : K) (l : List (K × Element V)) → RefsBelow n l → RefsBelow n (delete dec k l)
  unfolding delete
  RefsBelow-delete n k [] h = tt
  RefsBelow-delete n k ((j, e) ∷ l) (h, t) = elim (dec j k) [
    | yes p ↦ rw (if_pos _ p) (RefsBelow-delete n k l t)
    | no p ↦ rw (if_neg _ p) (h, RefsBelow-delete n k l t)
  ]

  -- A found element is below every bound on the references, and its reference is there.
  pub RefsBelow-find :
      (n : ℕ) (k : K) (l : List (K × Element V)) (e : Element V)
      → RefsBelow n l
      → find dec k l ≡ some e
      → e.ref < n
  unfolding find
  RefsBelow-find n k [] e b h = absurd (ground arith)
  RefsBelow-find n k ((j, f) ∷ l) e (b, bs) h = ground (arith, RefsBelow-find n k l e bs)

  pub has_ref-find :
      (k : K) (l : List (K × Element V)) (e : Element V)
      → find dec k l ≡ some e
      → has_ref e.ref l ≡ true
  unfolding find
  has_ref-find k [] e h = absurd (ground arith)
  has_ref-find k ((j, f) ∷ l) e h = ground (arith, has_ref-find k l e)

  -- The pointer of a key leads to its element.
  pub find_element-find :
      (k : K) (l : List (K × Element V)) (e : Element V)
      → DistinctRefs l
      → find dec k l ≡ some e
      → find_element e.ref l ≡ some (k, e)
  unfolding find find_element
  find_element-find k [] e d h = absurd (ground arith)
  find_element-find k ((j, f) ∷ l) e (r, d) h =
      ground (arith, find_element-find k l e d, has_ref-find k l e)

  -- To remove that element is to delete the key.
  pub remove_element-delete :
      (k : K) (l : List (K × Element V)) (e : Element V)
      → Distinct dec l
      → DistinctRefs l
      → find dec k l ≡ some e
      → remove_element e.ref l ≡ delete dec k l
  unfolding find remove_element delete
  remove_element-delete k [] e dk d h = absurd (ground arith)
  remove_element-delete k ((j, f) ∷ l) e (a, dk) (r, d) h =
      ground (arith, remove_element-delete k l e dk d, has_ref-find k l e, delete_absent dec k l)

  -- A deleted key takes its reference with it.
  pub has_ref-delete_found :
      (k : K) (l : List (K × Element V)) (e : Element V)
      → DistinctRefs l
      → Distinct dec l
      → find dec k l ≡ some e
      → has_ref e.ref (delete dec k l) ≡ false
  unfolding find delete
  has_ref-delete_found k [] e d dk h = absurd (ground arith)
  has_ref-delete_found k ((j, f) ∷ l) e (r, d) (a, dk) h =
      ground (arith, has_ref-delete_found k l e d dk, has_ref-find k l e, delete_absent dec k l)
