-- ===== src/Sigv4/Authorization/Grammar.antt =====
-- internal/sigv4/verify.go: parseAuthorization reads one form of text, and reads it back.
use mathlib.Core.Path.{subst}
use kordn.Base.{
  ◌≡◌, refl, [], ◌∷◌, ◌++◌, Bool, true, false, not, ◌&&◌, Option-cases, Bytes, codes, arith,
  has_byte, cut, ◌==◌, length, all, bytes_eq_refl, bytes_eq→eq, ok, Result, ok_of_chain, ◌>>=◌,
  ◌>>◌, fail_if, inl, inr,
}
use kordn.Sigv4.Request.{SigError}
use kordn.Sigv4.Authorization.{Authorization, item_of, is_hex, parse_items, bad_signature}
use kordn.Sigv4.Authorization.Items.{cut-join, cut_front, free_of, free_of-front}

-- The text with the key in front of the item.
abbrev pub keyed : Bytes → Bytes → Bytes
keyed key item = key ++ (b'=' ∷ item)

-- The text of an Authorization header.
abbrev pub authorization_text : Authorization → Bytes
authorization_text a =
    a.algorithm
    ++ (b' ' ∷ keyed (codes "Credential") a.credential
        ++ (b',' ∷ b' ' ∷ keyed (codes "SignedHeaders") a.signed_headers
            ++ (b',' ∷ b' ' ∷ keyed (codes "Signature") a.signature)))

-- An item is not empty, and holds no `=` and no separator.
abbrev pub is_item : Bytes → Bool
is_item item = not (length item == 0) && not (has_byte item b'=') && free_of b',' b' ' item

pub record IsAuthorization (a : Authorization) : Type 0 where
  pub algorithm_named : (length a.algorithm == 0) ≡ false
  pub algorithm_solid : has_byte a.algorithm b' ' ≡ false
  pub credential_item : is_item a.credential ≡ true
  pub headers_item : is_item a.signed_headers ≡ true
  pub signature_item : is_item a.signature ≡ true
  pub signature_sized : length a.signature ≡ 64
  pub signature_hex : all is_hex a.signature ≡ true

item_of-keyed :
    (expected part item : Bytes)
    → item_of expected part ≡ ok item
    → (part ≡ keyed expected item) × (length item == 0) ≡ false × (has_byte item b'=' ≡ false)
unfolding item_of
item_of-keyed expected part item h = elim (Option-cases (cut part b'=')) [
  | inl e ↦ ground (arith, e)
  | inr ((key, value), e) ↦
      ground (arith, e, cut-join part b'=' key value e, bytes_eq→eq key expected)
]

pub keyed-item_of :
    (expected item : Bytes)
    → has_byte expected b'=' ≡ false
    → is_item item ≡ true
    → item_of expected (keyed expected item) ≡ ok item
unfolding item_of
keyed-item_of expected item plain h =
    ground (arith, cut_front expected b'=' item plain, bytes_eq_refl expected)

abbrev pub made : Bytes → Bytes → Bytes → Bytes → Authorization
made algorithm credential signed_headers signature = record {
  algorithm = algorithm;
  credential = credential;
  signed_headers = signed_headers;
  signature = signature;
}

-- The end of `parse_items`.
abbrev pub sized_signature : Bytes → Authorization → Result SigError Authorization
sized_signature signature a = do
  fail_if (not (length signature == 64)) bad_signature
  fail_if (not (all is_hex signature)) bad_signature
  ok a

sized_signature-ok :
    (signature : Bytes) (a b : Authorization)
    → sized_signature signature a ≡ ok b
    → (a ≡ b) × (length signature ≡ 64) × (all is_hex signature ≡ true)
sized_signature-ok signature a b h = ground arith

-- The items of a header, with the parts that they stand in.
pub record IsItems (algorithm first second third : Bytes) (a : Authorization) : Type 0 where
  pub algorithm_kept : a.algorithm ≡ algorithm
  pub first_keyed : first ≡ keyed (codes "Credential") a.credential
  pub second_keyed : second ≡ keyed (codes "SignedHeaders") a.signed_headers
  pub third_keyed : third ≡ keyed (codes "Signature") a.signature
  pub first_item : is_item a.credential ≡ true
  pub second_item : is_item a.signed_headers ≡ true
  pub third_item : is_item a.signature ≡ true
  pub signature_sized : length a.signature ≡ 64
  pub signature_hex : all is_hex a.signature ≡ true

item_of-is_item :
    (expected part item : Bytes)
    → has_byte expected b',' ≡ false
    → free_of b',' b' ' part ≡ true
    → item_of expected part ≡ ok item
    → (part ≡ keyed expected item) × (is_item item ≡ true)
unfolding has_byte
item_of-is_item expected part item plain free h =
    let (e, filled, once) = item_of-keyed expected part item h in
    let at_key = free_of-front b',' b' ' expected (b'=' ∷ item) plain in
    let at_item = free_of-front b',' b' ' (b'=' ∷ []) item refl in
    (e, ground (arith, filled, once, free, e, at_key, at_item))

pub parse_items-IsItems :
    (algorithm first second third : Bytes) (a : Authorization)
    → free_of b',' b' ' first ≡ true
    → free_of b',' b' ' second ≡ true
    → free_of b',' b' ' third ≡ true
    → parse_items algorithm (first ∷ second ∷ third ∷ []) ≡ ok a
    → IsItems algorithm first second third a
unfolding parse_items has_byte
parse_items-IsItems algorithm first second third a f1 f2 f3 h =
    let (c, e1, h1) =
      ok_of_chain (item_of (codes "Credential") first)
        (λ c. item_of (codes "SignedHeaders") second >>= λ s.
          item_of (codes "Signature") third >>= λ g. sized_signature g (made algorithm c s g))
        h in
    let (s, e2, h2) =
      ok_of_chain (item_of (codes "SignedHeaders") second)
        (λ s. item_of (codes "Signature") third >>= λ g. sized_signature g (made algorithm c s g))
        h1 in
    let (g, e3, h3) =
      ok_of_chain (item_of (codes "Signature") third)
        (λ g. sized_signature g (made algorithm c s g)) h2 in
    let (e, sized, hex) = sized_signature-ok g (made algorithm c s g) a h3 in
    let (k1, i1) = item_of-is_item (codes "Credential") first c refl f1 e1 in
    let (k2, i2) = item_of-is_item (codes "SignedHeaders") second s refl f2 e2 in
    let (k3, i3) = item_of-is_item (codes "Signature") third g refl f3 e3 in
    subst (IsItems algorithm first second third) e (record {
      algorithm_kept = refl;
      first_keyed = k1;
      second_keyed = k2;
      third_keyed = k3;
      first_item = i1;
      second_item = i2;
      third_item = i3;
      signature_sized = sized;
      signature_hex = hex;
    })
