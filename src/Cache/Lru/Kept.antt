-- ===== src/Cache/Lru/Kept.antt =====
-- internal/cache/lru.go: what all entries of a cache satisfy, through lookups and additions.
use mathlib.Core.Path.{subst}
use mathlib.Core.Logic.{if_pos, if_neg}
use kordn.Base.{
  ℕ, zero, suc, List, [], ◌∷◌, Option, Option-cases, none, some, inl, inr, ◌≡◌, sym, All, take,
}
use kordn.Cache.Assoc.{find, delete}
use kordn.Cache.Lru.{Lru, new_lru, get_locked, add_locked}
use kordn.Cache.Lru.Valid.{IsValid}
use kordn.Cache.Lru.Methods.{view, promote, get_locked-promote}
use kordn.Cache.Lru.Updates.{new_lru-IsValid, add_locked-take}

-- A value that was found has `P`.
abbrev pub Found : {A : Type 0} → (A → Type 0) → Option A → Type 0
Found P none = Unit
Found P (some a) = P a

pub Found-Unit : {A : Type 0} → (found : Option A) → Found (λ a. Unit) found
Found-Unit none = tt
Found-Unit (some a) = tt

module _ {K V : Type 0} (dec : Discrete K) (P : K → V → Type 0) where
  abbrev pub AllEntries : List (K × V) → Type 0
  AllEntries l = All (λ x. P x.0 x.1) l

  -- The invariant of the cache, and `P` of every entry.
  pub record Holds (c : Lru K V) : Type 0 where
    pub valid : IsValid dec c
    pub entries : AllEntries (view c)

  find-AllEntries : (k : K) (l : List (K × V)) → AllEntries l → Found (P k) (find dec k l)
  unfolding find
  find-AllEntries k [] h = tt
  find-AllEntries k ((j, v) ∷ l) h = elim (dec j k) [
    | yes p ↦ rw (if_pos _ p) (subst (λ key. P key v) p h.0)
    | no p ↦ rw (if_neg _ p) (find-AllEntries k l h.1)
  ]

  delete-AllEntries : (k : K) (l : List (K × V)) → AllEntries l → AllEntries (delete dec k l)
  unfolding delete
  delete-AllEntries k [] h = tt
  delete-AllEntries k ((j, v) ∷ l) h = elim (dec j k) [
    | yes p ↦ rw (if_pos _ p) (delete-AllEntries k l h.1)
    | no p ↦ rw (if_neg _ p) (h.0, delete-AllEntries k l h.1)
  ]

  take-AllEntries : (n : ℕ) (l : List (K × V)) → AllEntries l → AllEntries (take n l)
  take-AllEntries n [] h = tt
  take-AllEntries zero (x ∷ l) h = tt
  take-AllEntries (suc n) (x ∷ l) h = (h.0, take-AllEntries n l h.1)

  promote-AllEntries : (k : K) (l : List (K × V)) → AllEntries l → AllEntries (promote dec k l)
  unfolding promote
  promote-AllEntries k l h = elim (Option-cases (find dec k l)) [
    | inl e ↦ rw (e, promote) h
    | inr (v, e) ↦
        rw (e, promote) (subst (Found (P k)) e (find-AllEntries k l h), delete-AllEntries k l h)
  ]

  -- A lookup keeps the entries, and what it finds is of them.
  pub get_locked-Holds :
      (c : Lru K V) (k : K)
      → Holds c
      → Holds (get_locked dec c k).0 × Found (P k) (get_locked dec c k).1
  get_locked-Holds c k h =
      let (valid, value, entries) = get_locked-promote dec c k h.valid in
      (
        record {
          valid = valid;
          entries = subst AllEntries (sym entries) (promote-AllEntries k (view c) h.entries);
        },
        subst (Found (P k)) (sym value) (find-AllEntries k (view c) h.entries),
      )

  pub add_locked-Holds :
      (c : Lru K V) (k : K) (v : V) → P k v → Holds c → Holds (add_locked dec c k v).0
  add_locked-Holds c k v known h =
      let (valid, entries, replaced, evicted) = add_locked-take dec c k v h.valid in
      record {
        valid = valid;
        entries = subst AllEntries (sym entries) (
            take-AllEntries c.capacity ((k, v) ∷ delete dec k (view c))
              (known, delete-AllEntries k (view c) h.entries));
      }

  pub new_lru-Holds : (capacity : ℕ) (c : Lru K V) → new_lru capacity ≡ some c → Holds c
  new_lru-Holds capacity c made =
      let (valid, empty, bound) = new_lru-IsValid dec capacity c made in
      record { valid = valid; entries = subst AllEntries (sym empty) tt }
