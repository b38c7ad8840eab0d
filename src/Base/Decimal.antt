-- ===== src/Base/Decimal.antt =====
-- strconv.Itoa on a number that is not negative.
use Prim.Native.Nat.{ℕ, zero, suc, ◌+◌, ◌-◌, ◌*◌, ◌/◌, ◌%◌, ◌≤◌, ◌<◌}
use mathlib.Core.Path.{◌≡◌, refl, ap, ◌∙◌}
use mathlib.Core.Bool.{Bool, true, ◌&&◌}
use mathlib.Core.List.{[], ◌∷◌}
use mathlib.Core.Logic.{inl, inr}
use native.Mathlib.Omega.{arith}
use kordn.Base.Bools.{◌==◌, leb, if◌then◌else◌, Bool-cases}
use kordn.Base.Lists.{all}
use kordn.Base.Strings.{Bytes}

-- `for value > 0 { … buf[i] = byte('0' + value%10); value /= 10 }`, with fuel.
unfoldable pub digits : ℕ → ℕ → Bytes → Bytes
digits zero n acc = acc
digits (suc fuel) n acc =
    let rest = digits fuel (n / 10) ((48 + n % 10) ∷ acc) in if n == 0 then acc else rest

unfoldable pub itoa : ℕ → Bytes
itoa n = if n == 0 then b'0' ∷ [] else digits n n []

abbrev pub is_digit_byte : ℕ → Bool
is_digit_byte c = leb 48 c && leb c 57

pub parse_from : ℕ → Bytes → ℕ
parse_from n [] = n
parse_from n (c ∷ s) = parse_from (n * 10 + (c - 48)) s

parse-digits :
    (fuel n : ℕ) (acc : Bytes) → n ≤ fuel → parse_from 0 (digits fuel n acc) ≡ parse_from n acc
unfolding digits parse_from
parse-digits zero n acc h = let e : n ≡ 0 = omega arith in rw e refl
parse-digits (suc fuel) n acc h = elim (Bool-cases (n == 0)) [
  | inl done ↦ let e : n ≡ 0 = ground arith in rw e refl
  | inr more ↦
      let pos : 0 < n = ground arith in
      let whole : n / 10 * 10 + (48 + n % 10 - 48) ≡ n = omega arith in
      rw more (
        parse-digits fuel (n / 10) ((48 + n % 10) ∷ acc) (omega arith)
        ∙ ap (λ m. parse_from m acc) whole)
]

digits-all :
    (fuel n : ℕ) (acc : Bytes)
    → all is_digit_byte acc ≡ true
    → all is_digit_byte (digits fuel n acc) ≡ true
unfolding digits
digits-all zero n acc h = h
digits-all (suc fuel) n acc h = ground (arith, digits-all fuel (n / 10) ((48 + n % 10) ∷ acc))

-- The printed number reads back.
pub parse-itoa : (n : ℕ) → parse_from 0 (itoa n) ≡ n
unfolding itoa parse_from
parse-itoa n = ground (arith, parse-digits n n [])

pub itoa-all_digits : (n : ℕ) → all is_digit_byte (itoa n) ≡ true
unfolding itoa
itoa-all_digits n = ground (arith, digits-all n n [])
