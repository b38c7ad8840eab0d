-- ===== src/Base/Text.antt =====
-- More of package strings: cutting, trimming, two-byte separators and folded names.
use Prim.Native.Nat.{ℕ, ◌+◌, ◌-◌}
use mathlib.Core.Bool.{Bool, true, false, ◌&&◌}
use mathlib.Core.Option.{Option, none, some}
use mathlib.Core.List.{List, [], ◌∷◌}
use kordn.Base.Bools.{◌==◌, if◌then◌else◌}
use kordn.Base.Lists.{length, take, drop, rev_onto}
use kordn.Base.Strings.{Bytes, bytes_eq, push_front, replace_front, lower_byte}
use kordn.Base.Utf8.{Rune, runes, is_space}

abbrev pub front_with : ℕ → Option (Bytes × Bytes) → Option (Bytes × Bytes)
front_with a none = none
front_with a (some (front, rest)) = some (a ∷ front, rest)

-- strings.Cut at a byte; `none` when the byte does not occur.
unfoldable pub cut : Bytes → ℕ → Option (Bytes × Bytes)
cut [] c = none
cut (a ∷ s) c = let rest = cut s c in if a == c then some ([], s) else front_with a rest

-- strings.Split with a separator of the two bytes `a` and `b`.
unfoldable pub split_pair : ℕ → ℕ → Bytes → List Bytes
split_pair a b [] = [] ∷ []
split_pair a b (x ∷ []) = (x ∷ []) ∷ []
split_pair a b (x ∷ y ∷ s) = elim (x == a && y == b) [
  | true ↦ [] ∷ split_pair a b s
  | false ↦ push_front x (split_pair a b (y ∷ s))
]

-- The letters outside ASCII that fold to an ASCII letter: the Kelvin sign and the long S.
abbrev pub fold_table : List (Bytes × ℕ)
fold_table = (0xE2 ∷ 0x84 ∷ 0xAA ∷ [], b'k') ∷ (0xC5 ∷ 0xBF ∷ [], b's') ∷ []

unfoldable pub fold_case : Bytes → Bytes
fold_case [] = []
fold_case (c ∷ s) = replace_front fold_table (lower_byte c ∷ fold_case s)

-- strings.EqualFold, of two texts of which one is ASCII.
unfoldable pub equal_fold : Bytes → Bytes → Bool
equal_fold s t = bytes_eq (fold_case s) (fold_case t)

-- The bytes of the white space that a list of runes starts with.
unfoldable pub space_width : List Rune → ℕ
space_width [] = 0
space_width (r ∷ rs) = let rest = space_width rs in if is_space r.value then r.width + rest else 0

-- strings.TrimSpace.
unfoldable pub trim_space : Bytes → Bytes
trim_space s =
    let from = drop (space_width (runes s)) s in
    take (length from - space_width (rev_onto (runes from) [])) from
