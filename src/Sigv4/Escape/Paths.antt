-- ===== src/Sigv4/Escape/Paths.antt =====
-- The canonical form of an escaped path.
use native.Mathlib.Decide.{ℕ_discrete}
use kordn.Base.{
  ℕ, ◌<◌, [], ◌∷◌, All, none, some, ◌≡◌, ◌≢◌, refl, sym, ◌∙◌, arith, Bytes, ◌⊎◌, inl, inr,
}
use kordn.Sigv4.Escape.{upper_hex, keep_escape, path_byte, canonical_escaped_path}
use kordn.Sigv4.Escape.Steps.{
  IsCanonical, canonical_plain, IsCanonical-byte, IsCanonical-escape, emit-eq-some,
  keep_escape-eq-some,
}

-- A byte other than a percent sign, before a rest of which the claim holds.
IsCanonical-plain :
    (c : ℕ) (s q : Bytes)
    → c ≢ b'%'
    → c < 256
    → ((r : Bytes) → canonical_escaped_path s ≡ some r → IsCanonical s r)
    → canonical_escaped_path (c ∷ s) ≡ some q
    → IsCanonical (c ∷ s) q
IsCanonical-plain c s q ne bound rest e =
    let (r, er, eq) =
      emit-eq-some (path_byte c) (canonical_escaped_path s) q (sym (canonical_plain c s ne) ∙ e) in
    rw (← eq) (IsCanonical-byte c s r ne bound (rest r er))

canonical_short :
    (c : ℕ) (s : Bytes)
    → c ≡ b'%'
    → (s ≡ []) ⊎ ((a : ℕ) × (s ≡ a ∷ []))
    → canonical_escaped_path (c ∷ s) ≡ none
unfolding canonical_escaped_path
canonical_short c s h (inl e) = rw (e, h) refl
canonical_short c s h (inr (a, e)) = rw (e, h) refl

canonical_percent :
    (c a b : ℕ) (s : Bytes)
    → c ≡ b'%'
    → canonical_escaped_path (c ∷ a ∷ b ∷ s) ≡ keep_escape a b (canonical_escaped_path s)
unfolding canonical_escaped_path
canonical_percent c a b s h = rw h refl

IsCanonical-nil : (q : Bytes) → canonical_escaped_path [] ≡ some q → IsCanonical [] q
unfolding canonical_escaped_path
IsCanonical-nil q e =
    let n : [] ≡ q = ground arith in
    rw (← n) (record { again = refl; decoded = refl; slashes = refl })

-- The canonical form of a path is its own canonical form, decodes to the same bytes, and has the same
-- separators: no escape becomes one.
pub canonical_escaped_path-IsCanonical :
    (p q : Bytes) → All (λ c. c < 256) p → canonical_escaped_path p ≡ some q → IsCanonical p q
canonical_escaped_path-IsCanonical [] q bound e = IsCanonical-nil q e
canonical_escaped_path-IsCanonical (c ∷ []) q (b, bs) e = elim (ℕ_discrete c b'%') [
  | yes p ↦ absurd (ground (arith, canonical_short c [] p (inl refl)))
  | no ne ↦ IsCanonical-plain c [] q ne b IsCanonical-nil e
]
canonical_escaped_path-IsCanonical (c ∷ a ∷ []) q (b, bs) e = elim (ℕ_discrete c b'%') [
  | yes p ↦ absurd (ground (arith, canonical_short c (a ∷ []) p (inr (a, refl))))
  | no ne ↦
      IsCanonical-plain c (a ∷ []) q ne b (λ r. canonical_escaped_path-IsCanonical (a ∷ []) r bs) e
]
canonical_escaped_path-IsCanonical (c ∷ a ∷ b ∷ s) q (bc, bs) e = elim (ℕ_discrete c b'%') [
  | yes p ↦
      let (h, l, high, low, e₁) =
        keep_escape-eq-some a b (canonical_escaped_path s) q
          (sym (canonical_percent c a b s p) ∙ e) in
      let (r, er, eq) =
        emit-eq-some (b'%' ∷ upper_hex a ∷ upper_hex b ∷ []) (canonical_escaped_path s) q e₁ in
      rw (p, ← eq)
        (IsCanonical-escape a b h l s r high low (canonical_escaped_path-IsCanonical s r bs.1.1 er))
  | no ne ↦
      IsCanonical-plain c (a ∷ b ∷ s) q ne bc
        (λ r. canonical_escaped_path-IsCanonical (a ∷ b ∷ s) r bs) e
]
