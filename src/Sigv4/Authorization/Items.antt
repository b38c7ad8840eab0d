-- ===== src/Sigv4/Authorization/Items.antt =====
-- internal/sigv4/verify.go: texts cut at a byte, and split at ", ".
use kordn.Base.{
  ℕ, ◌≡◌, refl, ap, List, [], ◌∷◌, ◌++◌, Bool, true, false, not, ◌&&◌, some, Option-cases, Bytes,
  arith, ◌⊎◌, All, has_byte, cut, split_pair, push_front, ◌==◌, length, join, Bool-cases, inl, inr,
  ==_iff, ==_refl, &&-true,
}

-- What is cut is the text, with no such byte in front of the cut.
pub cut-join :
    (s : Bytes) (c : ℕ) (front rest : Bytes)
    → cut s c ≡ some (front, rest)
    → (s ≡ front ++ (c ∷ rest)) × (has_byte front c ≡ false)
unfolding cut has_byte
cut-join [] c front rest h = ground arith
cut-join (a ∷ s) c front rest h = elim (Option-cases (cut s c)) [
  | inl e ↦ ground (arith, e, ==_iff a c)
  | inr ((f, r), e) ↦ ground (arith, e, ==_iff a c, cut-join s c f r e)
]

-- A text with no such byte in its front is cut behind it.
pub cut_front :
    (front : Bytes) (c : ℕ) (rest : Bytes)
    → has_byte front c ≡ false
    → cut (front ++ (c ∷ rest)) c ≡ some (front, rest)
unfolding cut has_byte
cut_front [] c rest h = ground (arith, ==_refl c)
cut_front (a ∷ s) c rest h = ground (arith, cut_front s c rest)

-- No place of the text holds the byte `a` and then the byte `b`.
unfoldable pub free_of : ℕ → ℕ → Bytes → Bool
free_of a b [] = true
free_of a b (x ∷ []) = true
free_of a b (x ∷ y ∷ s) = not (x == a && y == b) && free_of a b (y ∷ s)

pub split_pair-free : (a b : ℕ) (s : Bytes) → free_of a b s ≡ true → split_pair a b s ≡ s ∷ []
unfolding split_pair free_of
split_pair-free a b [] h = refl
split_pair-free a b (x ∷ []) h = refl
split_pair-free a b (x ∷ y ∷ s) h = ground (arith, split_pair-free a b (y ∷ s))

split_pair_last :
    (a b x : ℕ) (s : Bytes)
    → (a == b) ≡ false
    → split_pair a b (x ∷ a ∷ b ∷ s) ≡ (x ∷ []) ∷ split_pair a b s
unfolding split_pair
split_pair_last a b x s h = ground (arith, ==_refl a, ==_refl b)

pub split_pair_front :
    (a b : ℕ) (front s : Bytes)
    → (a == b) ≡ false
    → free_of a b front ≡ true
    → split_pair a b (front ++ (a ∷ b ∷ s)) ≡ front ∷ split_pair a b s
unfolding split_pair free_of
split_pair_front a b [] s ne h = ground (arith, ==_refl a, ==_refl b)
split_pair_front a b (x ∷ []) s ne h = split_pair_last a b x s ne
split_pair_front a b (x ∷ y ∷ front) s ne h = ground (arith, split_pair_front a b (y ∷ front) s ne)

-- What stands in front of a text and has no byte `a` changes nothing.
pub free_of-front :
    (a b : ℕ) (front s : Bytes)
    → has_byte front a ≡ false
    → free_of a b (front ++ s) ≡ free_of a b s
unfolding free_of has_byte
free_of-front a b [] s h = refl
free_of-front a b (x ∷ []) [] h = refl
free_of-front a b (x ∷ []) (y ∷ s) h = ground arith
free_of-front a b (x ∷ y ∷ front) s h = ground (arith, free_of-front a b (y ∷ front) s)

-- The first part is empty or starts with this byte.
abbrev Starts : ℕ → List Bytes → Type 0
Starts y [] = false ≡ true
Starts y (p ∷ ps) = (p ≡ []) ⊎ ((q : Bytes) × (p ≡ y ∷ q))

push_front-Starts : (y : ℕ) (ps : List Bytes) → Starts y (push_front y ps)
push_front-Starts y [] = inr ([], refl)
push_front-Starts y (p ∷ ps) = inr (p, refl)

split_pair-Starts : (a b y : ℕ) (s : Bytes) → Starts y (split_pair a b (y ∷ s))
unfolding split_pair
split_pair-Starts a b y [] = inr ([], refl)
split_pair-Starts a b y (z ∷ s) = elim (Bool-cases (y == a && z == b)) [
  | inl e ↦ rw (e, split_pair) (inl refl)
  | inr e ↦ rw (e, split_pair) (push_front-Starts y (split_pair a b (z ∷ s)))
]

-- The parts hold no separator, and the text is the parts with separators between them.
abbrev pub IsSplit : ℕ → ℕ → Bytes → List Bytes → Type 0
IsSplit a b s parts =
    ((length parts == 0) ≡ false)
    × (join parts (a ∷ b ∷ []) ≡ s)
    × All (λ p. free_of a b p ≡ true) parts

push-free_of :
    (a b x y : ℕ) (p : Bytes)
    → (x == a && y == b) ≡ false
    → (p ≡ []) ⊎ ((q : Bytes) × (p ≡ y ∷ q))
    → free_of a b p ≡ true
    → free_of a b (x ∷ p) ≡ true
unfolding free_of
push-free_of a b x y [] ne starts h = refl
push-free_of a b x y (z ∷ p) ne (inl e) h = ground (arith, e)
push-free_of a b x y (z ∷ p) ne (inr (q, e)) h = ground (arith, e, h, ne)

push_front-IsSplit :
    (a b x y : ℕ) (s : Bytes) (parts : List Bytes)
    → (x == a && y == b) ≡ false
    → Starts y parts
    → IsSplit a b (y ∷ s) parts
    → IsSplit a b (x ∷ y ∷ s) (push_front x parts)
unfolding join
push_front-IsSplit a b x y s [] ne starts h = absurd (ground (arith, starts))
push_front-IsSplit a b x y s (p ∷ []) ne starts (some_part, joined, (free, rest)) =
    (ground arith, ap (λ l. x ∷ l) joined, (push-free_of a b x y p ne starts free, tt))
push_front-IsSplit a b x y s (p ∷ q ∷ ps) ne starts (some_part, joined, (free, rest)) =
    (ground arith, ap (λ l. x ∷ l) joined, (push-free_of a b x y p ne starts free, rest))

empty_first-IsSplit :
    (a b : ℕ) (s : Bytes) (parts : List Bytes)
    → IsSplit a b s parts
    → IsSplit a b (a ∷ b ∷ s) ([] ∷ parts)
unfolding join free_of
empty_first-IsSplit a b s [] h = absurd (ground (arith, h.0))
empty_first-IsSplit a b s (p ∷ ps) (some_part, joined, free) =
    (ground arith, ap (λ l. a ∷ b ∷ l) joined, (refl, free))

pub split_pair-IsSplit : (a b : ℕ) (s : Bytes) → IsSplit a b s (split_pair a b s)
unfolding split_pair free_of join
split_pair-IsSplit a b [] = (refl, refl, (refl, tt))
split_pair-IsSplit a b (x ∷ []) = (refl, refl, (refl, tt))
split_pair-IsSplit a b (x ∷ y ∷ s) = elim (Bool-cases (x == a && y == b)) [
  | inl e ↦
      (let ex = (==_iff x a).0 (&&-true (x == a) (y == b) e).0 in
        let ey = (==_iff y b).0 (&&-true (x == a) (y == b) e).1 in
        rw (e, split_pair)
          (rw (ex, ey) (empty_first-IsSplit a b s (split_pair a b s) (split_pair-IsSplit a b s))))
  | inr e ↦
      rw (e, split_pair)
        (push_front-IsSplit a b x y s (split_pair a b (y ∷ s)) e (split_pair-Starts a b y s)
          (split_pair-IsSplit a b (y ∷ s)))
]
