-- ===== src/Policy/Arn/Fields.antt =====
-- An ARN that parses is the text of its fields.
use kordn.Base.{
  ℕ, zero, suc, List, [], ◌∷◌, true, false, ◌||◌, ◌≡◌, refl, sym, ap, ap₂, ◌∙◌, arith, Bytes, codes,
  bytes_eq→eq, split_n, join, ok, Bool-cases, inl, inr, ◌==◌, push_front,
}
use kordn.Policy.Arn.{
  Arn, arn_of_parts, parse_arn, valid_partition, valid_region, valid_account, is_nil,
}

-- The text of an ARN.
unfoldable pub print_arn : Arn → Bytes
print_arn a =
    join (codes "arn" ∷ a.partition ∷ a.service ∷ a.region ∷ a.account ∷ a.resource ∷ [])
      (b':' ∷ [])

join-push_front :
    (a : ℕ) (part : Bytes) (parts : List Bytes) (sep : Bytes)
    → join (push_front a (part ∷ parts)) sep ≡ a ∷ join (part ∷ parts) sep
unfolding join
join-push_front a part [] sep = refl
join-push_front a part (next ∷ parts) sep = refl

split_n-cons :
    (s : Bytes) (c n : ℕ)
    → (part : Bytes) × (parts : List Bytes) × (split_n s c (suc n) ≡ part ∷ parts)
unfolding split_n
split_n-cons s c zero = (s, [], refl)
split_n-cons [] c (suc n) = ([], [], refl)
split_n-cons (a ∷ s) c (suc n) = elim (Bool-cases (a == c)) [
  | inl e ↦ ([], split_n s c (suc n), rw (e, split_n))
  | inr e ↦
      let (part, parts, q) = split_n-cons s c (suc n) in (a ∷ part, parts, rw (e, split_n) (rw q))
]

split_n-at :
    (a : ℕ) (s : Bytes) (c n : ℕ)
    → (a == c) ≡ true
    → split_n (a ∷ s) c (suc (suc n)) ≡ [] ∷ split_n s c (suc n)
unfolding split_n
split_n-at a s c n e = rw (e, split_n)

split_n-before :
    (a : ℕ) (s : Bytes) (c n : ℕ)
    → (a == c) ≡ false
    → split_n (a ∷ s) c (suc (suc n)) ≡ push_front a (split_n s c (suc (suc n)))
unfolding split_n
split_n-before a s c n e = rw (e, split_n)

split_n_last : (s : Bytes) (c : ℕ) → split_n s c 1 ≡ s ∷ []
unfolding split_n
split_n_last [] c = refl
split_n_last (a ∷ s) c = refl

split_n-nil : (c n : ℕ) → split_n [] c (suc n) ≡ [] ∷ []
unfolding split_n
split_n-nil c zero = refl
split_n-nil c (suc n) = refl

-- Joining the parts of a split gives the text back.
pub join-split_n : (s : Bytes) (c n : ℕ) → join (split_n s c (suc n)) (c ∷ []) ≡ s
unfolding join
join-split_n s c zero = rw (split_n_last s c)
join-split_n [] c (suc n) = rw (split_n-nil c (suc n))
join-split_n (a ∷ s) c (suc n) = elim (Bool-cases (a == c)) [
  | inl e ↦
      let (part, parts, q) = split_n-cons s c n in
      let same : a ≡ c = ground arith in
      rw (split_n-at a s c n e)
        (rw q (ap₂ ◌∷◌ (sym same) (ap (λ l. join l (c ∷ [])) (sym q) ∙ join-split_n s c n)))
  | inr e ↦
      let (part, parts, q) = split_n-cons s c (suc n) in
      rw (split_n-before a s c n e) (
        rw q (
          join-push_front a part parts (c ∷ [])
          ∙ ap (◌∷◌ a) (ap (λ l. join l (c ∷ [])) (sym q) ∙ join-split_n s c (suc n))))
]

-- The parts that `parseARN` accepts, in their order.
arn_of_parts-fields :
    (parts : List Bytes) (a : Arn)
    → arn_of_parts parts ≡ ok a
    → parts ≡ codes "arn" ∷ a.partition ∷ a.service ∷ a.region ∷ a.account ∷ a.resource ∷ []
unfolding arn_of_parts
arn_of_parts-fields (s ∷ p ∷ v ∷ r ∷ a ∷ t ∷ []) arn h = ground (arith, bytes_eq→eq s (codes "arn"))
arn_of_parts-fields _ arn h = absurd (ground arith)

-- The checked shape of a parsed ARN.
arn_of_parts-checks :
    (parts : List Bytes) (a : Arn)
    → arn_of_parts parts ≡ ok a
    → (valid_partition a.partition ≡ true)
      × (is_nil a.service ≡ false)
      × (is_nil a.resource ≡ false)
      × ((is_nil a.region || valid_region a.region) ≡ true)
      × ((is_nil a.account || valid_account a.account) ≡ true)
unfolding arn_of_parts
arn_of_parts-checks (s ∷ p ∷ v ∷ r ∷ a ∷ t ∷ []) arn h = ground arith
arn_of_parts-checks _ arn h = absurd (ground arith)

-- A text that parses as an ARN is the text of the parsed fields, each of which passed its check.
pub parse_arn-print_arn :
    (value : Bytes) (a : Arn)
    → parse_arn value ≡ ok a
    → (value ≡ print_arn a)
      × (valid_partition a.partition ≡ true)
      × (is_nil a.service ≡ false)
      × (is_nil a.resource ≡ false)
      × ((is_nil a.region || valid_region a.region) ≡ true)
      × ((is_nil a.account || valid_account a.account) ≡ true)
unfolding parse_arn print_arn
parse_arn-print_arn value a h =
    let fields = arn_of_parts-fields _ a h in
    let (p, s, r, g, c) = arn_of_parts-checks _ a h in
    (sym (join-split_n value b':' 5) ∙ ap (λ l. join l (b':' ∷ [])) fields, p, s, r, g, c)
