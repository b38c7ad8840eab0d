-- ===== src/Base/Sort.antt =====
-- `sort.Slice` and `sort.Strings`, as insertion sort, and what a sort keeps.
use mathlib.Core.Path.{◌≡◌, refl, ap, ◌∙◌}
use mathlib.Core.Bool.{Bool, ◌&&◌, ◌||◌}
use mathlib.Core.List.{List, [], ◌∷◌}
use native.Mathlib.Omega.{arith}
use kordn.Base.Bools.{if◌then◌else◌}
use kordn.Base.Lists.{any, all}
use kordn.Base.Strings.{Bytes, bytes_lt}

module _ {ℓ} {A : Type ℓ} where
  unfoldable pub insert_by : (A → A → Bool) → A → List A → List A
  insert_by lt x [] = x ∷ []
  insert_by lt x (y ∷ ys) = if lt y x then y ∷ insert_by lt x ys else x ∷ y ∷ ys

  unfoldable pub sort_by : (A → A → Bool) → List A → List A
  sort_by lt [] = []
  sort_by lt (x ∷ xs) = insert_by lt x (sort_by lt xs)

  any-insert_by :
      (lt : A → A → Bool) (p : A → Bool) (x : A) (xs : List A)
      → any p (insert_by lt x xs) ≡ (p x || any p xs)
  unfolding insert_by
  any-insert_by lt p x [] = refl
  any-insert_by lt p x (y ∷ ys) = ground (arith, any-insert_by lt p x ys)

  -- A sort keeps what some element satisfies, and so what every element does.
  pub any-sort_by :
      (lt : A → A → Bool) (p : A → Bool) (xs : List A) → any p (sort_by lt xs) ≡ any p xs
  unfolding sort_by
  any-sort_by lt p [] = refl
  any-sort_by lt p (x ∷ xs) =
      any-insert_by lt p x (sort_by lt xs) ∙ ap (λ b. p x || b) (any-sort_by lt p xs)

  all-insert_by :
      (lt : A → A → Bool) (p : A → Bool) (x : A) (xs : List A)
      → all p (insert_by lt x xs) ≡ (p x && all p xs)
  unfolding insert_by
  all-insert_by lt p x [] = refl
  all-insert_by lt p x (y ∷ ys) = ground (arith, all-insert_by lt p x ys)

  pub all-sort_by :
      (lt : A → A → Bool) (p : A → Bool) (xs : List A) → all p (sort_by lt xs) ≡ all p xs
  unfolding sort_by
  all-sort_by lt p [] = refl
  all-sort_by lt p (x ∷ xs) =
      all-insert_by lt p x (sort_by lt xs) ∙ ap (λ b. p x && b) (all-sort_by lt p xs)

abbrev pub sort_strings : List Bytes → List Bytes
sort_strings = sort_by bytes_lt
