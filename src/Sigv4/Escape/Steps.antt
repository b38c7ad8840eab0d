-- ===== src/Sigv4/Escape/Steps.antt =====
-- The steps of the canonical form of an escaped path, and what each keeps.
use kordn.Base.{
  ℕ, ◌+◌, ◌*◌, ◌/◌, ◌%◌, ◌<◌, [], ◌∷◌, ◌++◌, true, false, Option, none, some, ◌≡◌, ◌≢◌, refl, sym,
  ap, ap₂, ◌∙◌, arith, Bytes, ◌==◌, if◌then◌else◌, ◌⊎◌, Bool-cases, Option-cases, inl, inr,
  count_byte, ==_iff,
}
use kordn.Sigv4.Escape.{
  is_unreserved, write_escape, hex_value, upper_hex, emit, keep_escape, path_byte,
  percent_decode_query, canonical_escaped_path,
}
use kordn.Sigv4.Escape.Digits.{
  hex_value-hex_digit, hex_value-upper_hex, upper_hex-upper_hex, upper_hex-hex_digit, hex_ne_slash,
}
use kordn.Sigv4.Escape.Queries.{
  decode_escape-some, percent_decode_plain, percent_decode-write_escape,
}

pub canonical_plain :
    (c : ℕ) (s : Bytes)
    → c ≢ b'%'
    → canonical_escaped_path (c ∷ s) ≡ emit (path_byte c) (canonical_escaped_path s)
unfolding canonical_escaped_path
canonical_plain c [] h = ground arith
canonical_plain c (a ∷ []) h = ground arith
canonical_plain c (a ∷ b ∷ s) h = ground arith

-- What the canonical form `q` of `p` keeps.
pub record IsCanonical (p q : Bytes) : Type 0 where
  pub again : canonical_escaped_path q ≡ some q
  pub decoded : percent_decode_query q ≡ percent_decode_query p
  pub slashes : count_byte q b'/' ≡ count_byte p b'/'

keep_escape-some :
    (a b h l : ℕ) (rest : Option Bytes)
    → hex_value a ≡ some h
    → hex_value b ≡ some l
    → keep_escape a b rest ≡ emit (b'%' ∷ upper_hex a ∷ upper_hex b ∷ []) rest
unfolding keep_escape
keep_escape-some a b h l rest high low = ground arith

-- An escape whose digits are upper case already.
canonical_escape :
    (a b h l : ℕ) (s : Bytes)
    → hex_value a ≡ some h
    → hex_value b ≡ some l
    → upper_hex a ≡ a
    → upper_hex b ≡ b
    → canonical_escaped_path (b'%' ∷ a ∷ b ∷ s)
      ≡ emit (b'%' ∷ a ∷ b ∷ []) (canonical_escaped_path s)
unfolding canonical_escaped_path
canonical_escape a b h l s high low ua ub =
    keep_escape-some a b h l (canonical_escaped_path s) high low
    ∙ ap₂ (λ x y. emit (b'%' ∷ x ∷ y ∷ []) (canonical_escaped_path s)) ua ub

canonical-write_escape :
    (c : ℕ) (s : Bytes)
    → c < 256
    → canonical_escaped_path (write_escape c ++ s)
      ≡ emit (write_escape c) (canonical_escaped_path s)
unfolding write_escape
canonical-write_escape c s h =
    canonical_escape _ _ _ _ s (hex_value-hex_digit (c / 16) (omega arith))
      (hex_value-hex_digit (c % 16) (omega arith)) (upper_hex-hex_digit (c / 16) (omega arith))
      (upper_hex-hex_digit (c % 16) (omega arith))

path_byte_kept : (c : ℕ) → c ≡ b'/' ⊎ (is_unreserved c ≡ true) → path_byte c ≡ c ∷ []
unfolding path_byte
path_byte_kept c (inl e) = rw e refl
path_byte_kept c (inr e) = ground arith

path_byte_escaped :
    (c : ℕ) → (c == b'/') ≡ false → is_unreserved c ≡ false → path_byte c ≡ write_escape c
unfolding path_byte
path_byte_escaped c slash other = ground arith

-- A byte that stands for itself.
IsCanonical-kept :
    (c : ℕ) (s r : Bytes)
    → c ≢ b'%'
    → path_byte c ≡ c ∷ []
    → IsCanonical s r
    → IsCanonical (c ∷ s) (path_byte c ++ r)
unfolding count_byte
IsCanonical-kept c s r ne kept h = rw kept (record {
  again = canonical_plain c r ne ∙ ap₂ emit kept h.again;
  decoded =
      percent_decode_plain c r ne
      ∙ ap (emit (c ∷ [])) h.decoded
      ∙ sym (percent_decode_plain c s ne);
  slashes = ap (λ n. (if c == b'/' then 1 else 0) + n) h.slashes;
})

count-write_escape :
    (c : ℕ) (r : Bytes) → c < 256 → count_byte (write_escape c ++ r) b'/' ≡ count_byte r b'/'
unfolding count_byte write_escape
count-write_escape c r h = ground (
  arith,
  hex_ne_slash _ _ (hex_value-hex_digit (c / 16) (omega arith)),
  hex_ne_slash _ _ (hex_value-hex_digit (c % 16) (omega arith)),
)

-- A byte that is escaped.
IsCanonical-escaped :
    (c : ℕ) (s r : Bytes)
    → c ≢ b'%'
    → c ≢ b'/'
    → c < 256
    → path_byte c ≡ write_escape c
    → IsCanonical s r
    → IsCanonical (c ∷ s) (path_byte c ++ r)
unfolding count_byte
IsCanonical-escaped c s r ne slash bound escaped h = rw escaped (record {
  again = canonical-write_escape c r bound ∙ ap (emit (write_escape c)) h.again;
  decoded =
      percent_decode-write_escape c r bound
      ∙ ap (emit (c ∷ [])) h.decoded
      ∙ sym (percent_decode_plain c s ne);
  slashes = ground (arith, count-write_escape c r bound, h.slashes);
})

pub IsCanonical-byte :
    (c : ℕ) (s r : Bytes)
    → c ≢ b'%'
    → c < 256
    → IsCanonical s r
    → IsCanonical (c ∷ s) (path_byte c ++ r)
IsCanonical-byte c s r ne bound h = elim (Bool-cases (c == b'/')) [
  | inl slash ↦ IsCanonical-kept c s r ne (path_byte_kept c (inl ((==_iff _ _).0 slash))) h
  | inr no_slash ↦ elim (Bool-cases (is_unreserved c)) [
    | inl plain ↦ IsCanonical-kept c s r ne (path_byte_kept c (inr plain)) h
    | inr other ↦
        IsCanonical-escaped c s r ne (λ e. ground arith) bound (path_byte_escaped c no_slash other)
          h
  ]
]

count-escape :
    (a b h l : ℕ) (s : Bytes)
    → hex_value a ≡ some h
    → hex_value b ≡ some l
    → count_byte (b'%' ∷ a ∷ b ∷ s) b'/' ≡ count_byte s b'/'
unfolding count_byte
count-escape a b h l s high low = ground (arith, hex_ne_slash a h high, hex_ne_slash b l low)

percent_decode_escape :
    (a b h l : ℕ) (s : Bytes)
    → hex_value a ≡ some h
    → hex_value b ≡ some l
    → percent_decode_query (b'%' ∷ a ∷ b ∷ s) ≡ emit ((h * 16 + l) ∷ []) (percent_decode_query s)
unfolding percent_decode_query
percent_decode_escape a b h l s high low =
    decode_escape-some a b h l (percent_decode_query s) high low

-- An escape of the path.
pub IsCanonical-escape :
    (a b h l : ℕ) (s r : Bytes)
    → hex_value a ≡ some h
    → hex_value b ≡ some l
    → IsCanonical s r
    → IsCanonical (b'%' ∷ a ∷ b ∷ s) (b'%' ∷ upper_hex a ∷ upper_hex b ∷ r)
IsCanonical-escape a b h l s r high low hs =
    let high' = hex_value-upper_hex a ∙ high in
    let low' = hex_value-upper_hex b ∙ low in
    record {
      again =
          canonical_escape _ _ h l r high' low' (upper_hex-upper_hex a) (upper_hex-upper_hex b)
          ∙ ap (emit (b'%' ∷ upper_hex a ∷ upper_hex b ∷ [])) hs.again;
      decoded =
          percent_decode_escape _ _ h l r high' low'
          ∙ ap (emit ((h * 16 + l) ∷ [])) hs.decoded
          ∙ sym (percent_decode_escape a b h l s high low);
      slashes =
          count-escape _ _ h l r high' low' ∙ hs.slashes ∙ sym (count-escape a b h l s high low);
    }

pub emit-eq-some :
    (out : Bytes) (o : Option Bytes) (q : Bytes)
    → emit out o ≡ some q
    → (r : Bytes) × (o ≡ some r) × (out ++ r ≡ q)
emit-eq-some out none q e = absurd (ground arith)
emit-eq-some out (some r) q e = (r, refl, ground arith)

pub keep_escape-eq-some :
    (a b : ℕ) (o : Option Bytes) (q : Bytes)
    → keep_escape a b o ≡ some q
    → (h l : ℕ) × (hex_value a ≡ some h)
      × (hex_value b ≡ some l)
      × (emit (b'%' ∷ upper_hex a ∷ upper_hex b ∷ []) o ≡ some q)
unfolding keep_escape
keep_escape-eq-some a b o q e = elim (Option-cases (hex_value a)) [
  | inl p ↦ absurd (ground arith)
  | inr (h, p) ↦ elim (Option-cases (hex_value b)) [
    | inl r ↦ absurd (ground arith)
    | inr (l, r) ↦ (h, l, p, r, ground arith)
  ]
]
