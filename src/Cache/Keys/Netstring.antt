-- ===== src/Cache/Keys/Netstring.antt =====
-- The canonical key determines its parts.
use kordn.Base.{
  ℕ, List, [], ◌∷◌, ◌++◌, true, ◌≡◌, ◌≢◌, refl, sym, ap, ap₂, ◌∙◌, arith, Bytes, length, itoa, all,
  is_digit_byte, parse_from, parse-itoa, itoa-all_digits,
}
use kordn.Cache.Keys.{canonical_key}

head-eq : {x y : ℕ} {s t : Bytes} → x ∷ s ≡ y ∷ t → x ≡ y
head-eq e = cc

tail-eq : {x y : ℕ} {s t : Bytes} → x ∷ s ≡ y ∷ t → s ≡ t
tail-eq e = cc

nil-ne-append : (s : Bytes) (c : ℕ) (t : Bytes) → [] ≢ s ++ (c ∷ t)
nil-ne-append [] c t e = cc
nil-ne-append (x ∷ s) c t e = cc

-- Two digit texts in front of a colon.
digits-colon :
    (xs ys s t : Bytes)
    → all is_digit_byte xs ≡ true
    → all is_digit_byte ys ≡ true
    → xs ++ (b':' ∷ s) ≡ ys ++ (b':' ∷ t)
    → (xs ≡ ys) × (s ≡ t)
digits-colon [] [] s t hx hy e = (refl, tail-eq e)
digits-colon [] (y ∷ ys) s t hx hy e = absurd (ground arith)
digits-colon (x ∷ xs) [] s t hx hy e = absurd (ground arith)
digits-colon (x ∷ xs) (y ∷ ys) s t hx hy e =
    let (h, r) = digits-colon xs ys s t (ground arith) (ground arith) (tail-eq e) in
    (ap₂ ◌∷◌ (head-eq e) h, r)

-- Two texts of one length in front of anything.
append-eq_of_length :
    (xs ys s t : Bytes) → length xs ≡ length ys → xs ++ s ≡ ys ++ t → (xs ≡ ys) × (s ≡ t)
append-eq_of_length [] [] s t n e = (refl, e)
append-eq_of_length [] (y ∷ ys) s t n e = absurd (omega arith)
append-eq_of_length (x ∷ xs) [] s t n e = absurd (omega arith)
append-eq_of_length (x ∷ xs) (y ∷ ys) s t n e =
    let (h, r) = append-eq_of_length xs ys s t (omega arith) (tail-eq e) in
    (ap₂ ◌∷◌ (head-eq e) h, r)

-- Different lists of parts have different canonical keys.
pub canonical_key-injective : (ps qs : List Bytes) → canonical_key ps ≡ canonical_key qs → ps ≡ qs
unfolding canonical_key
canonical_key-injective [] [] e = refl
canonical_key-injective [] (q ∷ qs) e = absurd (nil-ne-append (itoa (length q)) _ _ e)
canonical_key-injective (p ∷ ps) [] e = absurd (nil-ne-append (itoa (length p)) _ _ (sym e))
canonical_key-injective (p ∷ ps) (q ∷ qs) e =
    let (numbers, rest) =
      digits-colon (itoa (length p)) (itoa (length q)) _ _ (itoa-all_digits _) (itoa-all_digits _)
        e in
    let n : length p ≡ length q =
      sym (parse-itoa (length p)) ∙ ap (parse_from 0) numbers ∙ parse-itoa (length q) in
    let (same, tails) =
      append-eq_of_length p q (0 ∷ canonical_key ps) (0 ∷ canonical_key qs) n rest in
    ap₂ ◌∷◌ same (canonical_key-injective ps qs (tail-eq tails))
