-- ===== src/Sigv4/Authorization/Roundtrip.antt =====
-- internal/sigv4/verify.go: parseAuthorization and the text of a header are inverse.
use kordn.Base.{
  ◌≡◌, ◌↔◌, ◌∙◌, refl, sym, ap, List, [], ◌∷◌, ◌++◌, false, true, ◌||◌, some, Option-cases, inl,
  inr, Bytes, codes, arith, has_byte, cut, split_pair, ◌==◌, length, ok, Result, ◌>>◌, fail_if,
  fail_if-eq-ok, join,
}
use kordn.Sigv4.Request.{SigError}
use kordn.Sigv4.Authorization.{Authorization, parse_items, parse_authorization, bad_grammar}
use kordn.Sigv4.Authorization.Items.{
  cut-join, cut_front, free_of, free_of-front, IsSplit, split_pair-IsSplit, split_pair-free,
  split_pair_front,
}
use kordn.Sigv4.Authorization.Grammar.{
  keyed, authorization_text, is_item, IsAuthorization, IsItems, parse_items-IsItems, keyed-item_of,
}

-- The text behind the algorithm.
abbrev items_text : Authorization → Bytes
items_text a =
    keyed (codes "Credential") a.credential
    ++ (b',' ∷ b' ' ∷ keyed (codes "SignedHeaders") a.signed_headers
        ++ (b',' ∷ b' ' ∷ keyed (codes "Signature") a.signature))

parts-IsItems :
    (algorithm rest : Bytes) (parts : List Bytes) (a : Authorization)
    → IsSplit b',' b' ' rest parts
    → parse_items algorithm parts ≡ ok a
    → (rest ≡ items_text a) × ((b c d : Bytes) × IsItems algorithm b c d a)
unfolding parse_items join
parts-IsItems algorithm rest [] a split h = ground arith
parts-IsItems algorithm rest (b ∷ []) a split h = ground arith
parts-IsItems algorithm rest (b ∷ c ∷ []) a split h = ground arith
parts-IsItems algorithm rest (b ∷ c ∷ d ∷ []) a (_, joined, (fb, (fc, (fd, _)))) h =
    let items = parse_items-IsItems algorithm b c d a fb fc fd h in
    (
      sym joined ∙ rw (items.first_keyed, items.second_keyed, items.third_keyed) refl,
      (b, c, d, items),
    )
parts-IsItems algorithm rest (b ∷ c ∷ d ∷ e ∷ l) a split h = ground arith

-- The rest of `parse_authorization`, behind the cut.
abbrev parse_rest : Bytes → Bytes → Result SigError Authorization
parse_rest algorithm rest = do
  fail_if (length algorithm == 0 || length rest == 0) bad_grammar
  parse_items algorithm (split_pair b',' b' ' rest)

cut-parse_rest :
    (value algorithm rest : Bytes)
    → cut value b' ' ≡ some (algorithm, rest)
    → parse_authorization value ≡ parse_rest algorithm rest
unfolding parse_authorization
cut-parse_rest value algorithm rest e = rw (e, parse_authorization) refl

parse_rest-IsAuthorization :
    (value algorithm rest : Bytes) (a : Authorization)
    → cut value b' ' ≡ some (algorithm, rest)
    → parse_rest algorithm rest ≡ ok a
    → (value ≡ authorization_text a) × IsAuthorization a
parse_rest-IsAuthorization value algorithm rest a e h =
    let (joined, solid) = cut-join value b' ' algorithm rest e in
    let (named, h1) =
      fail_if-eq-ok (length algorithm == 0 || length rest == 0) bad_grammar
        (parse_items algorithm (split_pair b',' b' ' rest)) h in
    let (text, (b, c, d, items)) =
      parts-IsItems algorithm rest (split_pair b',' b' ' rest) a (split_pair-IsSplit b',' b' ' rest)
        h1 in
    (
      joined
          ∙ ap (λ r. algorithm ++ (b' ' ∷ r)) text
          ∙ ap (λ n. n ++ (b' ' ∷ items_text a)) (sym items.algorithm_kept),
      record {
        algorithm_named = ground (arith, named, items.algorithm_kept);
        algorithm_solid = ground (arith, solid, items.algorithm_kept);
        credential_item = items.first_item;
        headers_item = items.second_item;
        signature_item = items.third_item;
        signature_sized = items.signature_sized;
        signature_hex = items.signature_hex;
      },
    )

read_text :
    (value : Bytes) (a : Authorization)
    → parse_authorization value ≡ ok a
    → (value ≡ authorization_text a) × IsAuthorization a
unfolding parse_authorization
read_text value a h = elim (Option-cases (cut value b' ')) [
  | inl e ↦ ground (arith, e)
  | inr ((algorithm, rest), e) ↦
      parse_rest-IsAuthorization value algorithm rest a e
        (sym (cut-parse_rest value algorithm rest e) ∙ h)
]

keyed-free_of :
    (key item : Bytes)
    → has_byte key b',' ≡ false
    → is_item item ≡ true
    → free_of b',' b' ' (keyed key item) ≡ true
unfolding has_byte
keyed-free_of key item plain h = ground (
  arith,
  free_of-front b',' b' ' key (b'=' ∷ item) plain,
  free_of-front b',' b' ' (b'=' ∷ []) item refl,
)

split-items_text :
    (a : Authorization)
    → IsAuthorization a
    → split_pair b',' b' ' (items_text a)
      ≡ keyed (codes "Credential") a.credential
        ∷ keyed (codes "SignedHeaders") a.signed_headers
        ∷ keyed (codes "Signature") a.signature
        ∷ []
unfolding has_byte
split-items_text a valid =
    let free1 = keyed-free_of (codes "Credential") a.credential refl valid.credential_item in
    let free2 = keyed-free_of (codes "SignedHeaders") a.signed_headers refl valid.headers_item in
    let free3 = keyed-free_of (codes "Signature") a.signature refl valid.signature_item in
    split_pair_front b',' b' ' (keyed (codes "Credential") a.credential)
      (keyed (codes "SignedHeaders") a.signed_headers
        ++ (b',' ∷ b' ' ∷ keyed (codes "Signature") a.signature))
      refl free1
    ∙ ap (λ l. keyed (codes "Credential") a.credential ∷ l)
        (split_pair_front b',' b' ' (keyed (codes "SignedHeaders") a.signed_headers)
            (keyed (codes "Signature") a.signature) refl free2
          ∙ ap (λ l. keyed (codes "SignedHeaders") a.signed_headers ∷ l)
              (split_pair-free b',' b' ' (keyed (codes "Signature") a.signature) free3))

reads_text :
    (a : Authorization) → IsAuthorization a → parse_authorization (authorization_text a) ≡ ok a
unfolding parse_items has_byte
reads_text a valid =
    cut-parse_rest (authorization_text a) a.algorithm (items_text a)
      (cut_front a.algorithm b' ' (items_text a) valid.algorithm_solid)
    ∙ ground (
      arith,
      split-items_text a valid,
      valid.algorithm_named,
      valid.signature_sized,
      valid.signature_hex,
      keyed-item_of (codes "Credential") a.credential refl valid.credential_item,
      keyed-item_of (codes "SignedHeaders") a.signed_headers refl valid.headers_item,
      keyed-item_of (codes "Signature") a.signature refl valid.signature_item,
    )

-- parseAuthorization accepts exactly the texts that authorization_text writes of a header with
-- solid items and a signature of 64 hexadecimal digits, and reads from each the header it was
-- written from.
pub parse_authorization_iff :
    (value : Bytes) (a : Authorization)
    → (parse_authorization value ≡ ok a) ↔ ((value ≡ authorization_text a) × IsAuthorization a)
parse_authorization_iff value a =
    (read_text value a, λ h. ap parse_authorization h.0 ∙ reads_text a h.1)
