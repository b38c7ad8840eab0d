-- ===== src/Sigv4/Escape/Digits.antt =====
-- Hexadecimal digits and single escapes.
use kordn.Base.{
  ℕ, zero, suc, ◌<◌, Bool, true, false, ◌&&◌, Option, none, some, ◌≡◌, ◌≢◌, refl, ap, arith, ◌==◌,
  ==_iff, Bool-cases, inl, inr,
}
use kordn.Sigv4.Escape.{is_unreserved, hex_digit, hex_value, upper_hex}

-- Checks one number after the other, from `n` down.
all_below : (ℕ → Bool) → ℕ → Bool
all_below p zero = true
all_below p (suc n) = p n && all_below p n

all_below_sound : (p : ℕ → Bool) (k n : ℕ) → all_below p k ≡ true → n < k → p n ≡ true
unfolding all_below
all_below_sound p zero n h b = absurd (omega arith)
all_below_sound p (suc k) n h b = elim (Bool-cases (n == k)) [
  | inl e ↦ ground (arith, ap p ((==_iff n k).0 e))
  | inr e ↦ all_below_sound p k n (ground arith) (ground arith)
]

abbrev is_value : Option ℕ → ℕ → Bool
is_value none n = false
is_value (some m) n = m == n

is_value-eq : (v : Option ℕ) (n : ℕ) → is_value v n ≡ true → v ≡ some n
is_value-eq none n h = absurd (ground arith)
is_value-eq (some m) n h = ap some (ground arith)

digits_checked : all_below (λ n. is_value (hex_value (hex_digit n)) n) 16 ≡ true
unfolding all_below hex_value hex_digit
digits_checked = refl

pub hex_value-hex_digit : (n : ℕ) → n < 16 → hex_value (hex_digit n) ≡ some n
hex_value-hex_digit n h =
    is_value-eq _ n
      (all_below_sound (λ n. is_value (hex_value (hex_digit n)) n) 16 n digits_checked h)

-- Capital digits have the same values.
pub hex_value-upper_hex : (c : ℕ) → hex_value (upper_hex c) ≡ hex_value c
unfolding hex_value upper_hex
hex_value-upper_hex c = ground arith

pub upper_hex-upper_hex : (c : ℕ) → upper_hex (upper_hex c) ≡ upper_hex c
unfolding upper_hex
upper_hex-upper_hex c = ground arith

-- The bytes that stand for themselves are not the ones with a meaning.
pub unreserved_ne : (c : ℕ) → is_unreserved c ≡ true → (c ≢ b'%') × (c ≢ b'/')
unfolding is_unreserved
unreserved_ne c h = ground arith

capitals_checked : all_below (λ n. upper_hex (hex_digit n) == hex_digit n) 16 ≡ true
unfolding all_below upper_hex hex_digit
capitals_checked = refl

pub upper_hex-hex_digit : (n : ℕ) → n < 16 → upper_hex (hex_digit n) ≡ hex_digit n
upper_hex-hex_digit n h =
    (==_iff _ _).0
      (all_below_sound (λ n. upper_hex (hex_digit n) == hex_digit n) 16 n capitals_checked h)

-- A digit is not a separator.
pub hex_ne_slash : (c v : ℕ) → hex_value c ≡ some v → c ≢ b'/'
unfolding hex_value
hex_ne_slash c v h = ground arith
