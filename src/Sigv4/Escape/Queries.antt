-- ===== src/Sigv4/Escape/Queries.antt =====
-- What is encoded for a query decodes to itself.
use kordn.Base.{
  ℕ, ◌+◌, ◌*◌, ◌/◌, ◌%◌, ◌<◌, [], ◌∷◌, ◌++◌, All, Option, some, ◌≡◌, ◌≢◌, refl, ap, ◌∙◌, arith,
  Bytes, Bool-cases, inl, inr,
}
use kordn.Sigv4.Escape.{
  is_unreserved, write_escape, hex_value, emit, decode_escape, percent_decode_query, aws_encode,
}
use kordn.Sigv4.Escape.Digits.{hex_value-hex_digit, unreserved_ne}

pub percent_decode_plain :
    (c : ℕ) (s : Bytes)
    → c ≢ b'%'
    → percent_decode_query (c ∷ s) ≡ emit (c ∷ []) (percent_decode_query s)
unfolding percent_decode_query
percent_decode_plain c [] h = ground arith
percent_decode_plain c (a ∷ []) h = ground arith
percent_decode_plain c (a ∷ b ∷ s) h = ground arith

pub decode_escape-some :
    (a b h l : ℕ) (rest : Option Bytes)
    → hex_value a ≡ some h
    → hex_value b ≡ some l
    → decode_escape a b rest ≡ emit ((h * 16 + l) ∷ []) rest
unfolding decode_escape
decode_escape-some a b h l rest high low = ground arith

pub percent_decode-write_escape :
    (c : ℕ) (s : Bytes)
    → c < 256
    → percent_decode_query (write_escape c ++ s) ≡ emit (c ∷ []) (percent_decode_query s)
unfolding percent_decode_query write_escape
percent_decode-write_escape c s h =
    let high = hex_value-hex_digit (c / 16) (omega arith) in
    let low = hex_value-hex_digit (c % 16) (omega arith) in
    let whole : c / 16 * 16 + c % 16 ≡ c = omega arith in
    decode_escape-some _ _ _ _ (percent_decode_query s) high low
    ∙ ap (λ n. emit (n ∷ []) (percent_decode_query s)) whole

pub percent_decode_nil : percent_decode_query [] ≡ some []
unfolding percent_decode_query
percent_decode_nil = refl

-- Every text of bytes that `awsEncode` writes is read back by `percentDecodeQuery`.
pub percent_decode-aws_encode :
    (s : Bytes) → All (λ c. c < 256) s → percent_decode_query (aws_encode s) ≡ some s
unfolding aws_encode
percent_decode-aws_encode [] h = percent_decode_nil
percent_decode-aws_encode (c ∷ s) (b, bs) =
    let rest = percent_decode-aws_encode s bs in
    elim (Bool-cases (is_unreserved c)) [
      | inl plain ↦ rw plain (
          percent_decode_plain c (aws_encode s) (unreserved_ne c plain).0 ∙ ap (emit (c ∷ [])) rest)
      | inr other ↦
          rw other (percent_decode-write_escape c (aws_encode s) b ∙ ap (emit (c ∷ [])) rest)
    ]
