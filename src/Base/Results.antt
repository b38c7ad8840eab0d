-- ===== src/Base/Results.antt =====
-- `(value, error)` results as values, with `do` blocks.
use mathlib.Core.Path.{◌≡◌, refl}
use mathlib.Core.Bool.{Bool, true, false}
use mathlib.Core.Logic.{◌⊎◌, inl, inr}
use native.Mathlib.Omega.{arith}

pub data Result {ℓ} (Err : Type 0) (Val : Type ℓ) : Type ℓ where
  err : Err → Result Err Val
  ok : Val → Result Err Val

module _ {ℓ κ} {Err : Type 0} {Val : Type ℓ} {Out : Type κ} where
  infixl 5 ◌>>=◌
  abbrev pub ◌>>=◌ : Result Err Val → (Val → Result Err Out) → Result Err Out
  err e >>= next = err e
  ok v >>= next = next v

module _ {κ} {Err : Type 0} {Out : Type κ} where
  infixl 5 ◌>>◌
  abbrev pub ◌>>◌ : Result Err (Unit {0}) → Result Err Out → Result Err Out
  first >> next = first >>= λ _. next

-- `if cond { return err }`.
abbrev pub fail_if : {E : Type 0} → Bool → E → Result E (Unit {0})
fail_if true e = err e
fail_if false e = ok tt

abbrev pub is_ok {ℓ} : {E : Type 0} {A : Type ℓ} → Result E A → Bool
is_ok (ok a) = true
is_ok (err e) = false

-- A chain that ends well has a first step that does.
pub ok_of_chain {ℓ κ} :
    {Err : Type 0} {Val : Type ℓ} {Out : Type κ} (first : Result Err Val)
    (next : Val → Result Err Out) {out : Out}
    → (first >>= next) ≡ ok out
    → (v : Val) × (first ≡ ok v) × (next v ≡ ok out)
ok_of_chain (err e) next chain = ground arith
ok_of_chain (ok v) next chain = (v, refl, chain)

pub fail_if-eq-ok {ℓ} :
    {E : Type 0} {B : Type ℓ} (c : Bool) (e : E) (k : Result E B) {b : B}
    → (fail_if c e >> k) ≡ ok b
    → (c ≡ false) × (k ≡ ok b)
fail_if-eq-ok true e k h = ground arith
fail_if-eq-ok false e k h = (refl, h)

pub Result-cases {ℓ} :
    {E : Type 0} {A : Type ℓ} (r : Result E A) → ((e : E) × (r ≡ err e)) ⊎ ((a : A) × (r ≡ ok a))
Result-cases (ok a) = inr (a, refl)
Result-cases (err e) = inl (e, refl)
