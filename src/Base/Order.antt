-- ===== src/Base/Order.antt =====
-- The order of strings, and sorts that do not depend on the order of their input.
use mathlib.Core.Path.{◌≡◌, refl, ap₂, ◌∙◌}
use mathlib.Core.Bool.{Bool, true, false, ◌||◌}
use mathlib.Core.List.{List, [], ◌∷◌, Permᴰ}
use native.Mathlib.Omega.{arith}
use kordn.Base.Strings.{Bytes, bytes_lt}
use kordn.Base.Sort.{insert_by, sort_by, sort_strings}

-- A strict total order, as a test.
pub record IsTotal {ℓ} {A : Type ℓ} (lt : A → A → Bool) : Type ℓ where
  pub asymmetric : (a b : A) → lt a b ≡ true → lt b a ≡ false
  pub connected : (a b : A) → lt a b ≡ false → lt b a ≡ false → a ≡ b
  pub cotransitive : (a b c : A) → lt a c ≡ true → (lt a b || lt b c) ≡ true

module _ {ℓ} {A : Type ℓ} (lt : A → A → Bool) (total : IsTotal lt) where
  -- Of two elements that are not in order either way, there is only one.
  same_pair : (x y : A) (l : List A) → lt x y ≡ false → lt y x ≡ false → x ∷ y ∷ l ≡ y ∷ x ∷ l
  same_pair x y l h h' = cc (total.connected x y h h')

  insert_swap :
      (x y : A) (l : List A) → insert_by lt x (insert_by lt y l) ≡ insert_by lt y (insert_by lt x l)
  unfolding insert_by
  insert_swap x y [] = ground (arith, total.asymmetric x y, total.asymmetric y x, same_pair x y [])
  insert_swap x y (z ∷ zs) = ground (
    arith,
    total.asymmetric x y,
    total.asymmetric y x,
    same_pair x y (z ∷ zs),
    total.cotransitive z x y,
    total.cotransitive z y x,
    insert_swap x y zs,
  )

  -- A sort forgets the order of its input.
  pub sort_by-perm : (xs ys : List A) → Permᴰ xs ys → sort_by lt xs ≡ sort_by lt ys
  unfolding sort_by
  sort_by-perm _ _ Permᴰ.nil = refl
  sort_by-perm _ _ (Permᴰ.cons e p) = ap₂ (insert_by lt) e (sort_by-perm _ _ p)
  sort_by-perm _ _ (Permᴰ.swap {a = a} {b = b} {l = l} e e') =
      insert_swap a b (sort_by lt l)
      ∙ ap₂ (λ x y. insert_by lt x (insert_by lt y (sort_by lt l))) e' e
  sort_by-perm _ _ (Permᴰ.trans p q) = sort_by-perm _ _ p ∙ sort_by-perm _ _ q

bytes_lt-asymmetric : (a b : Bytes) → bytes_lt a b ≡ true → bytes_lt b a ≡ false
unfolding bytes_lt
bytes_lt-asymmetric [] [] h = refl
bytes_lt-asymmetric [] (y ∷ b) h = refl
bytes_lt-asymmetric (x ∷ a) [] h = absurd (ground arith)
bytes_lt-asymmetric (x ∷ a) (y ∷ b) h = ground (arith, bytes_lt-asymmetric a b)

bytes_lt-connected : (a b : Bytes) → bytes_lt a b ≡ false → bytes_lt b a ≡ false → a ≡ b
unfolding bytes_lt
bytes_lt-connected [] [] h h' = refl
bytes_lt-connected [] (y ∷ b) h h' = absurd (ground arith)
bytes_lt-connected (x ∷ a) [] h h' = absurd (ground arith)
bytes_lt-connected (x ∷ a) (y ∷ b) h h' =
    let e : x ≡ y = ground arith in
    let t : a ≡ b = bytes_lt-connected a b (ground arith) (ground arith) in ap₂ ◌∷◌ e t

bytes_lt-cotransitive :
    (a b c : Bytes) → bytes_lt a c ≡ true → (bytes_lt a b || bytes_lt b c) ≡ true
unfolding bytes_lt
bytes_lt-cotransitive [] [] [] h = absurd (ground arith)
bytes_lt-cotransitive (x ∷ a) b [] h = absurd (ground arith)
bytes_lt-cotransitive [] [] (z ∷ c) h = refl
bytes_lt-cotransitive [] (y ∷ b) c h = refl
bytes_lt-cotransitive (x ∷ a) [] (z ∷ c) h = ground arith
bytes_lt-cotransitive (x ∷ a) (y ∷ b) (z ∷ c) h = ground (arith, bytes_lt-cotransitive a b c)

pub bytes_lt-IsTotal : IsTotal bytes_lt
bytes_lt-IsTotal = record {
  asymmetric = bytes_lt-asymmetric;
  connected = bytes_lt-connected;
  cotransitive = bytes_lt-cotransitive;
}

pub sort_strings-perm : (xs ys : List Bytes) → Permᴰ xs ys → sort_strings xs ≡ sort_strings ys
sort_strings-perm = sort_by-perm bytes_lt bytes_lt-IsTotal
