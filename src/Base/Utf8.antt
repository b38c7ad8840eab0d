-- ===== src/Base/Utf8.antt =====
-- UTF-8 as Go reads it: `utf8.ValidString`, and the runes that `for _, r := range s` yields.
use Prim.Native.Nat.{ℕ, zero, suc, ◌+◌, ◌-◌, ◌*◌}
use mathlib.Core.Bool.{Bool, true, false, not, ◌&&◌, ◌||◌}
use mathlib.Core.List.{List, [], ◌∷◌}
use kordn.Base.Bools.{◌==◌, ltb, leb, if◌then◌else◌}
use kordn.Base.Strings.{Bytes}

-- A decoded rune, the bytes it takes, and whether its encoding is valid.
pub record Rune : Type 0 where
  pub value : ℕ
  pub width : ℕ
  pub is_valid : Bool

abbrev pub rune_error : Rune
rune_error = record { value = 0xFFFD; width = 1; is_valid = false }

abbrev pub between : ℕ → ℕ → ℕ → Bool
between lo hi b = leb lo b && leb b hi

abbrev pub cont : ℕ → Bool
cont = between 0x80 0xBF

unfoldable pub two_bytes : ℕ → Bytes → Rune
two_bytes a (b ∷ _) =
    if cont b
    then record { value = (a - 0xC0) * 64 + (b - 0x80); width = 2; is_valid = true }
    else rune_error
two_bytes a [] = rune_error

-- The second byte of a three-byte form is bounded by the first.
unfoldable pub three_bytes : ℕ → Bytes → Rune
three_bytes a (b ∷ c ∷ _) =
    if between (if a == 0xE0 then 0xA0 else 0x80) (if a == 0xED then 0x9F else 0xBF) b && cont c
    then record {
      value = (a - 0xE0) * 4096 + (b - 0x80) * 64 + (c - 0x80);
      width = 3;
      is_valid = true;
    }
    else rune_error
three_bytes a _ = rune_error

unfoldable pub four_bytes : ℕ → Bytes → Rune
four_bytes a (b ∷ c ∷ d ∷ _) =
    if between (if a == 0xF0 then 0x90 else 0x80) (if a == 0xF4 then 0x8F else 0xBF) b
      && cont c
      && cont d
    then record {
      value = (a - 0xF0) * 262144 + (b - 0x80) * 4096 + (c - 0x80) * 64 + (d - 0x80);
      width = 4;
      is_valid = true;
    }
    else rune_error
four_bytes a _ = rune_error

unfoldable pub decode_rune : ℕ → Bytes → Rune
decode_rune a rest =
    if ltb a 0x80
    then record { value = a; width = 1; is_valid = true }
    else if between 0xC2 0xDF a
    then two_bytes a rest
    else if between 0xE0 0xEF a
    then three_bytes a rest
    else if between 0xF0 0xF4 a
    then four_bytes a rest
    else rune_error

-- `skip` counts the bytes of the current rune that are still to pass.
unfoldable pub runes_from : ℕ → Bytes → List Rune
runes_from skip [] = []
runes_from (suc skip) (a ∷ s) = runes_from skip s
runes_from zero (a ∷ s) = let r = decode_rune a s in r ∷ runes_from (r.width - 1) s

abbrev pub runes : Bytes → List Rune
runes s = runes_from 0 s

unfoldable pub valid_runes : List Rune → Bool
valid_runes [] = true
valid_runes (r ∷ rs) = r.is_valid && valid_runes rs

unfoldable pub valid_string : Bytes → Bool
valid_string s = valid_runes (runes s)

unfoldable pub any_value : (ℕ → Bool) → List Rune → Bool
any_value p [] = false
any_value p (r ∷ rs) = p r.value || any_value p rs

-- Some rune of the text passes the test, and every rune does.
unfoldable pub any_rune : (ℕ → Bool) → Bytes → Bool
any_rune p s = any_value p (runes s)

unfoldable pub all_runes : (ℕ → Bool) → Bytes → Bool
all_runes p s = not (any_rune (λ r. not (p r)) s)

-- unicode.IsControl: the category Cc.
unfoldable pub is_control : ℕ → Bool
is_control r = ltb r 0x20 || between 0x7F 0x9F r

-- unicode.IsSpace: the property White_Space.
unfoldable pub is_space : ℕ → Bool
is_space r =
    between 0x09 0x0D r
    || r == 0x20
    || r == 0x85
    || r == 0xA0
    || r == 0x1680
    || between 0x2000 0x200A r
    || r == 0x2028
    || r == 0x2029
    || r == 0x202F
    || r == 0x205F
    || r == 0x3000

-- The ASCII ranges that the source tests by comparison.
unfoldable pub is_digit : ℕ → Bool
is_digit r = between b'0' b'9' r

unfoldable pub is_lower : ℕ → Bool
is_lower r = between b'a' b'z' r

unfoldable pub is_upper : ℕ → Bool
is_upper r = between b'A' b'Z' r

unfoldable pub is_alnum : ℕ → Bool
unfolding is_digit is_lower is_upper
is_alnum r = is_lower r || is_upper r || is_digit r

-- `strings.TrimSpace(s) == ""`.
unfoldable pub is_blank : Bytes → Bool
is_blank s = all_runes is_space s
