-- ===== src/Sigv4/Query.antt =====
-- internal/sigv4/canonical.go: the canonical query.
use kordn.Base.{
  ◌+◌, List, [], ◌∷◌, ◌++◌, map, Bool, Option, none, some, Bytes, length, take, drop, ◌==◌,
  if◌then◌else◌, bytes_eq, bytes_lt, index_byte, split, join, sort_by,
}
use kordn.Sigv4.Escape.{aws_encode, percent_decode_query}
pub mod Order

infixl 5 ◌>>=◌
abbrev pub ◌>>=◌ : {A B : Type 0} → Option A → (A → Option B) → Option B
none >>= f = none
some a >>= f = f a

-- `queryPair`.
pub record QueryPair : Type 0 where
  pub key : Bytes
  pub value : Bytes

-- The key and the value of one part, as they stand.
unfoldable pub cut_part : Bytes → QueryPair
cut_part part = elim (index_byte part b'=') [
  | none ↦ record { key = part; value = [] }
  | some at ↦ record { key = take at part; value = drop (at + 1) part }
]

-- One round of the loop over the parts; `none` is an error.
unfoldable pub encode_part : Bytes → Option QueryPair
encode_part part = do
  decoded_key ← percent_decode_query (cut_part part).key
  decoded_value ← percent_decode_query (cut_part part).value
  some (record { key = aws_encode decoded_key; value = aws_encode decoded_value })

unfoldable pub encode_parts : List Bytes → Option (List QueryPair)
encode_parts [] = some []
encode_parts (part ∷ parts) =
    let rest = encode_parts parts in do pair ← encode_part part; pairs ← rest; some (pair ∷ pairs)

unfoldable pub pair_lt : QueryPair → QueryPair → Bool
pair_lt p q = if bytes_eq p.key q.key then bytes_lt p.value q.value else bytes_lt p.key q.key

abbrev pub pair_text : QueryPair → Bytes
pair_text p = p.key ++ (b'=' ∷ p.value)

-- `canonicalRawQuery`.
unfoldable pub canonical_raw_query : Bytes → Option Bytes
canonical_raw_query raw = if length raw == 0 then some [] else (do
  pairs ← encode_parts (split raw b'&')
  some (join (map pair_text (sort_by pair_lt pairs)) (b'&' ∷ [])))
