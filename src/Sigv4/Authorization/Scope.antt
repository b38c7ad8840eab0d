-- ===== src/Sigv4/Authorization/Scope.antt =====
-- internal/sigv4/verify.go: parseCredential and the text of a credential are inverse.
use mathlib.Core.Path.{subst}
use kordn.Base.{
  ◌≡◌, ◌↔◌, ◌∙◌, refl, sym, ap, List, [], ◌∷◌, ◌++◌, false, true, Bool-cases, inl, inr, ℕ, Bytes,
  codes, arith, has_byte, ◌==◌, length, all, ok, split, push_front, join, bytes_eq→eq,
  bytes_eq_refl, ==_iff, ==_refl, All,
}
use kordn.Sigv4.Authorization.{CredentialScope, is_decimal, credential_of_parts, parse_credential}

abbrev IsJoined : ℕ → Bytes → List Bytes → Type 0
IsJoined c s parts =
    ((length parts == 0) ≡ false)
    × (join parts (c ∷ []) ≡ s)
    × All (λ p. has_byte p c ≡ false) parts

push_front-IsJoined :
    (a c : ℕ) (s : Bytes) (parts : List Bytes)
    → (a == c) ≡ false
    → IsJoined c s parts
    → IsJoined c (a ∷ s) (push_front a parts)
unfolding join has_byte
push_front-IsJoined a c s [] ne h = absurd (ground (arith, h.0))
push_front-IsJoined a c s (p ∷ []) ne (_, joined, (free, rest)) =
    (ground arith, ap (λ l. a ∷ l) joined, (ground (arith, free, ne), tt))
push_front-IsJoined a c s (p ∷ q ∷ ps) ne (_, joined, (free, rest)) =
    (ground arith, ap (λ l. a ∷ l) joined, (ground (arith, free, ne), rest))

empty_first-IsJoined :
    (c : ℕ) (s : Bytes) (parts : List Bytes) → IsJoined c s parts → IsJoined c (c ∷ s) ([] ∷ parts)
unfolding join has_byte
empty_first-IsJoined c s [] h = absurd (ground (arith, h.0))
empty_first-IsJoined c s (p ∷ ps) (_, joined, free) =
    (ground arith, ap (λ l. c ∷ l) joined, (refl, free))

-- A split text is its parts with the byte between them, and no part holds that byte.
pub split-IsJoined : (s : Bytes) (c : ℕ) → IsJoined c s (split s c)
unfolding split join has_byte
split-IsJoined [] c = (refl, refl, (refl, tt))
split-IsJoined (a ∷ s) c = elim (Bool-cases (a == c)) [
  | inl e ↦
      (let same = (==_iff a c).0 e in
        rw (e, split) (rw same (empty_first-IsJoined c s (split s c) (split-IsJoined s c))))
  | inr e ↦ rw (e, split) (push_front-IsJoined a c s (split s c) e (split-IsJoined s c))
]

-- The last part of a text.
pub split_last : (s : Bytes) (c : ℕ) → has_byte s c ≡ false → split s c ≡ s ∷ []
unfolding split has_byte
split_last [] c h = refl
split_last (a ∷ s) c h = ground (arith, split_last s c)

pub split_front :
    (front : Bytes) (c : ℕ) (rest : Bytes)
    → has_byte front c ≡ false
    → split (front ++ (c ∷ rest)) c ≡ front ∷ split rest c
unfolding split has_byte
split_front [] c rest h = ground (arith, ==_refl c)
split_front (a ∷ s) c rest h = ground (arith, split_front s c rest)

-- The text of a credential with its scope.
abbrev pub credential_text : CredentialScope → Bytes
credential_text s =
    s.access_key
    ++ (b'/'
        ∷ (s.date ++ (b'/' ∷ (s.region ++ (b'/' ∷ (s.service ++ (b'/' ∷ codes "aws4_request")))))))

pub record IsScope (s : CredentialScope) : Type 0 where
  pub key_filled : (length s.access_key == 0) ≡ false
  pub key_plain : has_byte s.access_key b'/' ≡ false
  pub date_sized : length s.date ≡ 8
  pub date_decimal : all is_decimal s.date ≡ true
  pub date_plain : has_byte s.date b'/' ≡ false
  pub region_plain : has_byte s.region b'/' ≡ false
  pub service_plain : has_byte s.service b'/' ≡ false

abbrev scope_of : Bytes → Bytes → Bytes → Bytes → CredentialScope
scope_of key date region service = record {
  access_key = key;
  date = date;
  region = region;
  service = service;
}

five_parts :
    (k d r v t : Bytes) (s : CredentialScope)
    → credential_of_parts (k ∷ d ∷ r ∷ v ∷ t ∷ []) ≡ ok s
    → (scope_of k d r v ≡ s)
      × (t ≡ codes "aws4_request")
      × ((length k == 0) ≡ false)
      × (length d ≡ 8)
      × (all is_decimal d ≡ true)
unfolding credential_of_parts
five_parts k d r v t s h = ground (arith, bytes_eq→eq t (codes "aws4_request"))

parts-IsScope :
    (value : Bytes) (parts : List Bytes) (s : CredentialScope)
    → IsJoined b'/' value parts
    → credential_of_parts parts ≡ ok s
    → (value ≡ credential_text s) × IsScope s
unfolding credential_of_parts join
parts-IsScope value (k ∷ d ∷ r ∷ v ∷ t ∷ []) s (_, joined, (fk, (fd, (fr, (fv, _))))) h =
    let (same, last, filled, sized, decimal) = five_parts k d r v t s h in
    let text : value ≡ credential_text (scope_of k d r v) = sym joined ∙ rw last refl in
    subst (λ s. (value ≡ credential_text s) × IsScope s) same
      (
        text,
        record {
          key_filled = filled;
          key_plain = fk;
          date_sized = sized;
          date_decimal = decimal;
          date_plain = fd;
          region_plain = fr;
          service_plain = fv;
        },
      )
parts-IsScope value [] s joined h = ground arith
parts-IsScope value (_ ∷ []) s joined h = ground arith
parts-IsScope value (_ ∷ _ ∷ []) s joined h = ground arith
parts-IsScope value (_ ∷ _ ∷ _ ∷ []) s joined h = ground arith
parts-IsScope value (_ ∷ _ ∷ _ ∷ _ ∷ []) s joined h = ground arith
parts-IsScope value (_ ∷ _ ∷ _ ∷ _ ∷ _ ∷ _ ∷ _) s joined h = ground arith

split-credential_text :
    (s : CredentialScope)
    → IsScope s
    → split (credential_text s) b'/'
      ≡ s.access_key ∷ s.date ∷ s.region ∷ s.service ∷ codes "aws4_request" ∷ []
unfolding has_byte
split-credential_text s h =
    let last = split_last (codes "aws4_request") b'/' refl in
    let after_service = split_front s.service b'/' (codes "aws4_request") h.service_plain in
    let after_region =
      split_front s.region b'/' (s.service ++ (b'/' ∷ codes "aws4_request")) h.region_plain in
    let after_date =
      split_front s.date b'/' (s.region ++ (b'/' ∷ (s.service ++ (b'/' ∷ codes "aws4_request"))))
        h.date_plain in
    split_front s.access_key b'/'
      (s.date ++ (b'/' ∷ (s.region ++ (b'/' ∷ (s.service ++ (b'/' ∷ codes "aws4_request"))))))
      h.key_plain
    ∙ rw (after_date, after_region, after_service, last) refl

text_read : (s : CredentialScope) → IsScope s → parse_credential (credential_text s) ≡ ok s
unfolding parse_credential credential_of_parts
text_read s h = ground (
  arith,
  split-credential_text s h,
  bytes_eq_refl (codes "aws4_request"),
  h.key_filled,
  h.date_sized,
  h.date_decimal,
)

-- parseCredential accepts exactly the texts that credential_text writes of a scope with an access
-- key, a date of eight digits and no slash in a part, and reads back what was written.
pub parse_credential_iff :
    (value : Bytes) (s : CredentialScope)
    → (parse_credential value ≡ ok s) ↔ ((value ≡ credential_text s) × IsScope s)
unfolding parse_credential
parse_credential_iff value s = (
  parts-IsScope value (split value b'/') s (split-IsJoined value b'/'),
  λ h. ap parse_credential h.0 ∙ text_read s h.1,
)
