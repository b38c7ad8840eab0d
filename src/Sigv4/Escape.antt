-- ===== src/Sigv4/Escape.antt =====
-- internal/sigv4/canonical.go: the percent coding of paths and of query components.
use kordn.Base.{
  ℕ, ◌+◌, ◌-◌, ◌*◌, ◌/◌, ◌%◌, [], ◌∷◌, ◌++◌, Bool, true, false, ◌||◌, ◌&&◌, Option, none, some,
  Bytes, codes, get_or, ◌==◌, leb, if◌then◌else◌,
}
pub mod Digits
pub mod Queries
pub mod Steps
pub mod Paths

unfoldable pub is_unreserved : ℕ → Bool
is_unreserved c =
    (leb b'A' c && leb c b'Z')
    || (leb b'a' c && leb c b'z')
    || (leb b'0' c && leb c b'9')
    || c == b'-'
    || c == b'.'
    || c == b'_'
    || c == b'~'

-- `digits[n]`, for the half `n` of a byte.
unfoldable pub hex_digit : ℕ → ℕ
hex_digit n = get_or (codes "0123456789ABCDEF") n 0

-- `writeEscape`, as the bytes that it writes.
unfoldable pub write_escape : ℕ → Bytes
write_escape c = b'%' ∷ hex_digit (c / 16) ∷ hex_digit (c % 16) ∷ []

-- `hexValue`; `none` is -1.
unfoldable pub hex_value : ℕ → Option ℕ
hex_value c =
    if leb b'0' c && leb c b'9'
    then some (c - b'0')
    else if leb b'a' c && leb c b'f'
    then some (c - b'a' + 10)
    else if leb b'A' c && leb c b'F'
    then some (c - b'A' + 10)
    else none

unfoldable pub upper_hex : ℕ → ℕ
upper_hex c = if leb b'a' c && leb c b'f' then c - (b'a' - b'A') else c

abbrev pub emit : Bytes → Option Bytes → Option Bytes
emit out none = none
emit out (some rest) = some (out ++ rest)

-- An escape with the two digits `a` and `b`, in front of the rest of the loop.
unfoldable pub keep_escape : ℕ → ℕ → Option Bytes → Option Bytes
keep_escape a b rest = elim (hex_value a) [
  | none ↦ none
  | some h ↦ elim (hex_value b) [
    | none ↦ none
    | some l ↦ emit (b'%' ∷ upper_hex a ∷ upper_hex b ∷ []) rest
  ]
]

-- What the path's other bytes become.
unfoldable pub path_byte : ℕ → Bytes
path_byte c = if c == b'/' then c ∷ [] else if is_unreserved c then c ∷ [] else write_escape c

-- `canonicalEscapedPath`; `none` is the error.
unfoldable pub canonical_escaped_path : Bytes → Option Bytes
canonical_escaped_path [] = some []
canonical_escaped_path (c ∷ a ∷ b ∷ s) = elim (c == b'%') [
  | true ↦ keep_escape a b (canonical_escaped_path s)
  | false ↦ emit (path_byte c) (canonical_escaped_path (a ∷ b ∷ s))
]
canonical_escaped_path (c ∷ s) = elim (c == b'%') [
  | true ↦ none
  | false ↦ emit (path_byte c) (canonical_escaped_path s)
]

unfoldable pub aws_encode : Bytes → Bytes
aws_encode [] = []
aws_encode (c ∷ s) = (if is_unreserved c then c ∷ [] else write_escape c) ++ aws_encode s

-- `h<<4 | l` of the halves of a byte.
unfoldable pub decode_escape : ℕ → ℕ → Option Bytes → Option Bytes
decode_escape a b rest = elim (hex_value a) [
  | none ↦ none
  | some h ↦ elim (hex_value b) [ none ↦ none | some l ↦ emit ((h * 16 + l) ∷ []) rest ]
]

-- `percentDecodeQuery`; `none` is the error.
unfoldable pub percent_decode_query : Bytes → Option Bytes
percent_decode_query [] = some []
percent_decode_query (c ∷ a ∷ b ∷ s) = elim (c == b'%') [
  | true ↦ decode_escape a b (percent_decode_query s)
  | false ↦ emit (c ∷ []) (percent_decode_query (a ∷ b ∷ s))
]
percent_decode_query (c ∷ s) = elim (c == b'%') [
  | true ↦ none
  | false ↦ emit (c ∷ []) (percent_decode_query s)
]
