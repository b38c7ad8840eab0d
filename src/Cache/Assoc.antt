-- ===== src/Cache/Assoc.antt =====
-- Maps as association lists, and lists of keyed entries.
use mathlib.Core.Logic.{ite, if_pos, if_neg}
use kordn.Base.{
  ℕ, zero, suc, ◌+◌, List, [], ◌∷◌, Option, none, some, ◌≡◌, ◌≢◌, refl, arith, length, take,
}

module _ {K : Type 0} (dec : Discrete K) where
  unfoldable pub find : {A : Type 0} → K → List (K × A) → Option A
  find k [] = none
  find k ((j, a) ∷ l) = ite (dec j k) (some a) (find k l)

  -- `delete(m, k)`.
  unfoldable pub delete : {A : Type 0} → K → List (K × A) → List (K × A)
  delete k [] = []
  delete k ((j, a) ∷ l) = ite (dec j k) (delete k l) ((j, a) ∷ delete k l)

  -- `m[k] = a`.
  unfoldable pub put : {A : Type 0} → K → A → List (K × A) → List (K × A)
  put k a l = (k, a) ∷ delete k l

  -- No key stands twice.
  abbrev pub Distinct : {A : Type 0} → List (K × A) → Type 0
  Distinct [] = Unit
  Distinct ((k, a) ∷ l) = (find k l ≡ none) × Distinct l

  module _ {A : Type 0} where
    pub find-delete_self : (k : K) (l : List (K × A)) → find k (delete k l) ≡ none
    unfolding find delete
    find-delete_self k [] = refl
    find-delete_self k ((j, a) ∷ l) = ground (arith, find-delete_self k l)

    pub find-delete_ne : (j k : K) (l : List (K × A)) → k ≢ j → find j (delete k l) ≡ find j l
    unfolding find delete
    find-delete_ne j k [] h = refl
    find-delete_ne j k ((i, a) ∷ l) h = ground (arith, find-delete_ne j k l)

    pub delete_absent : (k : K) (l : List (K × A)) → find k l ≡ none → delete k l ≡ l
    unfolding find delete
    delete_absent k [] h = refl
    delete_absent k ((j, a) ∷ l) h = ground (arith, delete_absent k l)

    find-delete-none : (j k : K) (l : List (K × A)) → find j l ≡ none → find j (delete k l) ≡ none
    unfolding find delete
    find-delete-none j k [] h = refl
    find-delete-none j k ((i, a) ∷ l) h = ground (arith, find-delete-none j k l)

    pub Distinct-delete : (k : K) (l : List (K × A)) → Distinct l → Distinct (delete k l)
    unfolding delete
    Distinct-delete k [] h = tt
    Distinct-delete k ((j, a) ∷ l) (h, t) = elim (dec j k) [
      | yes p ↦ rw (if_pos _ p) (Distinct-delete k l t)
      | no p ↦ rw (if_neg _ p) (find-delete-none j k l h, Distinct-delete k l t)
    ]

    pub Distinct-put : (k : K) (a : A) (l : List (K × A)) → Distinct l → Distinct (put k a l)
    unfolding put
    Distinct-put k a l h = (find-delete_self k l, Distinct-delete k l h)

    pub length-delete :
        (k : K) (l : List (K × A)) (a : A)
        → Distinct l
        → find k l ≡ some a
        → length (delete k l) + 1 ≡ length l
    unfolding find delete
    length-delete k [] a d h = absurd (ground arith)
    length-delete k ((j, b) ∷ l) a (absent, d) h =
        ground (arith, delete_absent k l, length-delete k l a d)

    pub length-put :
        (k : K) (a : A) (l : List (K × A)) → find k l ≡ none → length (put k a l) ≡ length l + 1
    unfolding put
    length-put k a l h = ground (arith, delete_absent k l h)

    -- The last entry.
    abbrev pub back : List (K × A) → Option (K × A)
    back [] = none
    back (e ∷ []) = some e
    back (e ∷ f ∷ l) = back (f ∷ l)

    pub find-back :
        (l : List (K × A)) (k : K) (a : A) → Distinct l → back l ≡ some (k, a) → find k l ≡ some a
    unfolding find
    find-back [] k a d h = absurd (ground arith)
    find-back ((j, b) ∷ []) k a d h = ground arith
    find-back ((j, b) ∷ f ∷ l) k a (absent, d) h = ground (arith, find-back (f ∷ l) k a d)

    -- To delete the last entry is to keep all but one.
    pub delete-back :
        (n : ℕ) (l : List (K × A)) (k : K) (a : A)
        → Distinct l
        → length l ≡ suc n
        → back l ≡ some (k, a)
        → delete k l ≡ take n l
    unfolding delete find
    delete-back n [] k a d e h = absurd (ground arith)
    delete-back zero ((j, b) ∷ []) k a d e h = ground arith
    delete-back zero ((j, b) ∷ f ∷ l) k a d e h = absurd (omega arith)
    delete-back (suc n) ((j, b) ∷ []) k a d e h = absurd (omega arith)
    delete-back (suc n) ((j, b) ∷ f ∷ l) k a (absent, d) e h =
        ground (arith, find-back (f ∷ l) k a d, delete-back n (f ∷ l) k a d)
