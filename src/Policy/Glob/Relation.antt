-- ===== src/Policy/Glob/Relation.antt =====
-- What a glob means, with no table in it, and a reference matcher that decides it.
use kordn.Base.{
  ℕ, [], ◌∷◌, Bool, true, false, ◌&&◌, ◌||◌, ◌≡◌, ◌≢◌, refl, ◌↔◌, ◌⊎◌, inl, inr, Bytes, ◌==◌,
  if◌then◌else◌, rev_onto, rev_onto_twice, arith, Bool-cases, has_byte,
}
use mathlib.Core.List.{append-nil}

abbrev star : ℕ
star = b'*'

-- One pattern byte, not a star, accepts one byte.
abbrev pub Accepts : ℕ → ℕ → Type 0
Accepts x c = (x ≢ b'*') × ((x ≡ b'?') ⊎ (x ≡ c))

-- `Matches p v`: the whole of `v` matches `p`.
pub data Matches : Bytes → Bytes → Type 0 where
  empty : Matches [] []
  byte : {x c : ℕ} {p v : Bytes} → Accepts x c → Matches p v → Matches (x ∷ p) (c ∷ v)
  leave : {x : ℕ} {p v : Bytes} → x ≡ b'*' → Matches p v → Matches (x ∷ p) v
  take : {x c : ℕ} {p v : Bytes} → x ≡ b'*' → Matches (x ∷ p) v → Matches (x ∷ p) (c ∷ v)

-- The reference: recursion on both texts.
unfoldable pub matches : Bytes → Bytes → Bool
matches [] [] = true
matches [] (c ∷ v) = false
matches (x ∷ p) [] = matches p [] && x == b'*'
matches (x ∷ p) (c ∷ v) =
    if x == b'*'
    then matches (x ∷ p) v || matches p (c ∷ v)
    else if x == b'?'
    then matches p v
    else matches p v && x == c

pub matches→Matches : (p v : Bytes) → matches p v ≡ true → Matches p v
unfolding matches
matches→Matches [] [] h = empty
matches→Matches [] (c ∷ v) h = absurd (ground arith)
matches→Matches (x ∷ p) [] h = leave (ground arith) (matches→Matches p [] (ground arith))
matches→Matches (x ∷ p) (c ∷ v) h = elim (Bool-cases (x == b'*')) [
  | inl s ↦ elim (Bool-cases (matches (x ∷ p) v)) [
    | inl more ↦ take (ground arith) (matches→Matches (x ∷ p) v more)
    | inr done ↦ leave (ground arith) (matches→Matches p (c ∷ v) (ground arith))
  ]
  | inr n ↦ byte (ground arith) (matches→Matches p v (ground arith))
]

pub Matches→matches : {p v : Bytes} → Matches p v → matches p v ≡ true
unfolding matches
Matches→matches empty = refl
Matches→matches (byte a d) = ground (arith, Matches→matches d)
Matches→matches {v = []} (leave e d) = ground (arith, Matches→matches d)
Matches→matches {v = c ∷ v} (leave e d) = ground (arith, Matches→matches d)
Matches→matches (take e d) = ground (arith, Matches→matches d)

-- A match read from the other end: the texts already read stand in `q` and `w`, turned round.
mutual
  rev_onto_star :
      {x : ℕ} {p v : Bytes} (q w : Bytes)
      → x ≡ b'*'
      → Matches (x ∷ p) v
      → Matches (x ∷ q) w
      → Matches (rev_onto p (x ∷ q)) (rev_onto v w)
  rev_onto_star q w e (leave _ d) s = rev_onto-Matches (_ ∷ q) w d s
  rev_onto_star q w e (take {c} _ d) s = rev_onto_star q (c ∷ w) e d (take e s)
  rev_onto_star q w e (byte a d) s = absurd (a.0 e)

  rev_onto-Matches :
      {p v : Bytes} (q w : Bytes)
      → Matches p v
      → Matches q w
      → Matches (rev_onto p q) (rev_onto v w)
  rev_onto-Matches q w empty s = s
  rev_onto-Matches q w (byte {x} {c} a d) s = rev_onto-Matches (x ∷ q) (c ∷ w) d (byte a s)
  rev_onto-Matches q w (leave {x} e d) s = rev_onto-Matches (x ∷ q) w d (leave e s)
  rev_onto-Matches q w (take {x} {c} e d) s = rev_onto_star q (c ∷ w) e d (take e (leave e s))

-- A text matches exactly when it does from right to left.
pub Matches-rev_onto : (p v : Bytes) → Matches (rev_onto p []) (rev_onto v []) ↔ Matches p v
Matches-rev_onto p v = (
  λ d.
      let back = rev_onto-Matches [] [] d empty in
      simp (rev_onto_twice p [] [], rev_onto_twice v [] [], append-nil) at back,
  λ d. rev_onto-Matches [] [] d empty,
)

Matches-literal :
    {p v : Bytes} → has_byte p b'*' ≡ false → has_byte p b'?' ≡ false → Matches p v → p ≡ v
unfolding has_byte
Matches-literal hs hq empty = refl
Matches-literal {p = x ∷ p} {v = c ∷ v} hs hq (byte a d) =
    let tail = Matches-literal {p = p} {v = v} (ground arith) (ground arith) d in ground arith
Matches-literal {p = x ∷ p} hs hq (leave e d) = absurd (ground arith)
Matches-literal {p = x ∷ p} hs hq (take e d) = absurd (ground arith)

Matches-self : (p : Bytes) → has_byte p b'*' ≡ false → Matches p p
unfolding has_byte
Matches-self [] h = empty
Matches-self (x ∷ p) h = byte (ground arith, inr refl) (Matches-self p (ground arith))

-- A pattern with no operator matches itself and nothing else.
pub Matches-literal_iff :
    (p v : Bytes) → has_byte p b'*' ≡ false → has_byte p b'?' ≡ false → Matches p v ↔ (p ≡ v)
Matches-literal_iff p v hs hq = (Matches-literal hs hq, λ e. rw (← e) (Matches-self p hs))

-- A lone star matches everything.
pub Matches-star : (v : Bytes) → Matches (b'*' ∷ []) v
Matches-star [] = leave refl empty
Matches-star (c ∷ v) = take refl (Matches-star v)
