-- ===== src/Base/Strings.antt =====
-- Go strings as lists of bytes, and the functions of package strings that the source uses.
use Prim.Native.Nat.{ℕ, zero, suc, ◌+◌, ◌-◌}
use Prim.Native.Char.{code}
use Prim.Native.String.{String}
use mathlib.Core.Path.{◌≡◌, refl}
use mathlib.Core.Logic.{◌↔◌}
use mathlib.Core.Bool.{Bool, true, false, ◌&&◌, ◌||◌}
use mathlib.Core.Option.{Option, none, some}
use mathlib.Core.List.{List, [], ◌∷◌, ◌++◌}
use native.Mathlib.Omega.{arith}
use kordn.Base.Bools.{◌==◌, ltb, leb, if◌then◌else◌}
use kordn.Base.Lists.{length, drop}

abbrev pub Bytes : Type 0
Bytes = List ℕ

-- The bytes of an ASCII literal.
abbrev pub codes : String → Bytes
codes String.[] = []
codes (String.◌∷◌ c s) = code c ∷ codes s

unfoldable pub bytes_eq : Bytes → Bytes → Bool
bytes_eq [] [] = true
bytes_eq (a ∷ s) (b ∷ t) = a == b && bytes_eq s t
bytes_eq _ _ = false

pub bytes_eq→eq : (s t : Bytes) → bytes_eq s t ≡ true → s ≡ t
unfolding bytes_eq
bytes_eq→eq [] [] h = refl
bytes_eq→eq [] (b ∷ t) h = ground arith
bytes_eq→eq (a ∷ s) [] h = ground arith
bytes_eq→eq (a ∷ s) (b ∷ t) h = ground (arith, bytes_eq→eq s t)

pub bytes_eq_refl : (s : Bytes) → bytes_eq s s ≡ true
unfolding bytes_eq
bytes_eq_refl [] = refl
bytes_eq_refl (a ∷ s) = ground (arith, bytes_eq_refl s)

pub eq→bytes_eq : (s t : Bytes) → s ≡ t → bytes_eq s t ≡ true
eq→bytes_eq s t e = ground (arith, bytes_eq_refl s)

pub bytes_eq_iff : (s t : Bytes) → (bytes_eq s t ≡ true) ↔ (s ≡ t)
bytes_eq_iff s t = (bytes_eq→eq s t, eq→bytes_eq s t)

-- `a < b` on strings: bytewise lexicographic order.
unfoldable pub bytes_lt : Bytes → Bytes → Bool
bytes_lt [] [] = false
bytes_lt [] (b ∷ t) = true
bytes_lt (a ∷ s) [] = false
bytes_lt (a ∷ s) (b ∷ t) = if ltb a b then true else a == b && bytes_lt s t

-- Membership in a `map[string]struct{}`, kept as a list of its keys.
unfoldable pub contains : List Bytes → Bytes → Bool
contains [] x = false
contains (y ∷ ys) x = bytes_eq y x || contains ys x

unfoldable pub has_prefix : Bytes → Bytes → Bool
has_prefix s [] = true
has_prefix [] (c ∷ p) = false
has_prefix (a ∷ s) (c ∷ p) = a == c && has_prefix s p

-- strings.Count of a one-byte text.
unfoldable pub count_byte : Bytes → ℕ → ℕ
count_byte [] c = 0
count_byte (a ∷ s) c = (if a == c then 1 else 0) + count_byte s c

-- strings.IndexByte; -1 is `none`.
unfoldable pub index_byte : Bytes → ℕ → Option ℕ
index_byte [] c = none
index_byte (a ∷ s) c =
    if a == c then some 0 else elim (index_byte s c) [ none ↦ none | some i ↦ some (suc i) ]

-- A byte that occurs in the text.
unfoldable pub has_byte : Bytes → ℕ → Bool
has_byte [] c = false
has_byte (a ∷ s) c = a == c || has_byte s c

abbrev pub push_front : ℕ → List Bytes → List Bytes
push_front a [] = (a ∷ []) ∷ []
push_front a (part ∷ parts) = (a ∷ part) ∷ parts

-- strings.SplitN with a one-byte separator: at most `n` parts for `n` > 0.
unfoldable pub split_n : Bytes → ℕ → ℕ → List Bytes
split_n s c zero = []
split_n s c (suc zero) = s ∷ []
split_n [] c (suc (suc n)) = [] ∷ []
split_n (a ∷ s) c (suc (suc n)) = elim (a == c) [
  | true ↦ [] ∷ split_n s c (suc n)
  | false ↦ push_front a (split_n s c (suc (suc n)))
]

-- strings.Split with a one-byte separator.
unfoldable pub split : Bytes → ℕ → List Bytes
split [] c = [] ∷ []
split (a ∷ s) c = let parts = split s c in if a == c then [] ∷ parts else push_front a parts

-- strings.Join.
unfoldable pub join : List Bytes → Bytes → Bytes
join [] sep = []
join (s ∷ []) sep = s
join (s ∷ t ∷ ss) sep = s ++ (sep ++ join (t ∷ ss) sep)

-- A letter outside ASCII at the front, replaced by the letter that the table gives.
unfoldable pub replace_front : List (Bytes × ℕ) → Bytes → Bytes
replace_front [] s = s
replace_front ((letter, c) ∷ table) s =
    let rest = replace_front table s in
    if has_prefix s letter then c ∷ drop (length letter) s else rest

-- The capital I with a dot and the Kelvin sign; the small I without a dot and the long S.
abbrev pub lower_table : List (Bytes × ℕ)
lower_table = (0xC4 ∷ 0xB0 ∷ [], b'i') ∷ (0xE2 ∷ 0x84 ∷ 0xAA ∷ [], b'k') ∷ []

abbrev pub upper_table : List (Bytes × ℕ)
upper_table = (0xC4 ∷ 0xB1 ∷ [], b'I') ∷ (0xC5 ∷ 0xBF ∷ [], b'S') ∷ []

abbrev pub lower_byte : ℕ → ℕ
lower_byte c = if leb b'A' c && leb c b'Z' then c + 32 else c

abbrev pub upper_byte : ℕ → ℕ
upper_byte c = if leb b'a' c && leb c b'z' then c - 32 else c

-- strings.ToLower and strings.ToUpper, where the letter in the other case is ASCII; other letters stay.
unfoldable pub to_lower : Bytes → Bytes
to_lower [] = []
to_lower (c ∷ s) = replace_front lower_table (lower_byte c ∷ to_lower s)

unfoldable pub to_upper : Bytes → Bytes
to_upper [] = []
to_upper (c ∷ s) = replace_front upper_table (upper_byte c ∷ to_upper s)

unfoldable pub has_suffix_byte : Bytes → ℕ → Bool
has_suffix_byte [] c = false
has_suffix_byte (a ∷ []) c = a == c
has_suffix_byte (a ∷ b ∷ s) c = has_suffix_byte (b ∷ s) c

-- strings.ContainsAny with an ASCII set.
unfoldable pub contains_any : Bytes → Bytes → Bool
contains_any [] set = false
contains_any (a ∷ s) set = has_byte set a || contains_any s set
