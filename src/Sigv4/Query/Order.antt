-- ===== src/Sigv4/Query/Order.antt =====
-- The canonical query does not depend on the order of the parameters.
use mathlib.Core.List.{Permᴰ}
use mathlib.Core.List.Permᴰ
use kordn.Base.{
  List, [], ◌∷◌, map, true, false, ◌||◌, Option, none, some, ◌≡◌, ◌≢◌, refl, sym, ap, ◌∙◌, arith,
  Bytes, length, ◌==◌, bytes_eq, bytes_eq→eq, eq→bytes_eq, bytes_lt, split, join, sort_by,
  sort_by-perm, IsTotal, bytes_lt-IsTotal, Bool-cases, inl, inr,
}
use kordn.Sigv4.Query.{
  QueryPair, encode_part, encode_parts, pair_lt, pair_text, canonical_raw_query, ◌>>=◌,
}

bytes_eq_comm : (s t : Bytes) → bytes_eq s t ≡ bytes_eq t s
unfolding bytes_eq
bytes_eq_comm [] [] = refl
bytes_eq_comm [] (b ∷ t) = refl
bytes_eq_comm (a ∷ s) [] = refl
bytes_eq_comm (a ∷ s) (b ∷ t) = ground (arith, bytes_eq_comm s t)

lt-irreflexive : (a : Bytes) → bytes_lt a a ≡ false
unfolding bytes_lt
lt-irreflexive [] = refl
lt-irreflexive (x ∷ a) = ground (arith, lt-irreflexive a)

lt-same_key : (p q : QueryPair) → pair_lt p q ≡ false → pair_lt q p ≡ false → p.key ≡ q.key
unfolding pair_lt
lt-same_key p q h h' = elim (Bool-cases (bytes_eq p.key q.key)) [
  | inl e ↦ bytes_eq→eq p.key q.key e
  | inr e ↦
      bytes_lt-IsTotal.connected p.key q.key (ground arith)
        (ground (arith, bytes_eq_comm p.key q.key))
]

lt-same_value : (p q : QueryPair) → pair_lt p q ≡ false → pair_lt q p ≡ false → p.value ≡ q.value
unfolding pair_lt
lt-same_value p q h h' =
    let key = eq→bytes_eq p.key q.key (lt-same_key p q h h') in
    bytes_lt-IsTotal.connected p.value q.value (ground arith)
      (ground (arith, bytes_eq_comm p.key q.key))

lt-cotransitive : (p q r : QueryPair) → pair_lt p r ≡ true → (pair_lt p q || pair_lt q r) ≡ true
unfolding pair_lt
lt-cotransitive p q r h = ground (
  arith,
  bytes_eq→eq p.key q.key,
  bytes_eq→eq q.key r.key,
  bytes_eq→eq p.key r.key,
  bytes_lt-IsTotal.cotransitive p.key q.key r.key,
  bytes_lt-IsTotal.connected p.key q.key,
  bytes_lt-IsTotal.connected q.key r.key,
  bytes_lt-IsTotal.asymmetric p.key q.key,
  bytes_lt-IsTotal.cotransitive p.value q.value r.value,
)

pair_lt-IsTotal : IsTotal pair_lt
unfolding pair_lt
pair_lt-IsTotal = record {
  asymmetric = λ p q h. ground (
    arith,
    bytes_eq_comm p.key q.key,
    bytes_lt-IsTotal.asymmetric p.key q.key,
    bytes_lt-IsTotal.asymmetric p.value q.value,
  );
  connected = λ p q h h'. cc (lt-same_key p q h h', lt-same_value p q h h');
  cotransitive = lt-cotransitive;
}

-- Two results of the loop that differ in the order of the pairs.
pub data SamePairs : Option (List QueryPair) → Option (List QueryPair) → Type 0 where
  both_fail : SamePairs none none
  both_read : {ps qs : List QueryPair} → Permᴰ ps qs → SamePairs (some ps) (some qs)

abbrev extend : Option QueryPair → Option (List QueryPair) → Option (List QueryPair)
extend v o = v >>= λ p. o >>= λ ps. some (p ∷ ps)

extend-SamePairs :
    (v : Option QueryPair) (o o' : Option (List QueryPair))
    → SamePairs o o'
    → SamePairs (extend v o) (extend v o')
extend-SamePairs none _ _ h = both_fail
extend-SamePairs (some p) _ _ both_fail = both_fail
extend-SamePairs (some p) _ _ (both_read h) = both_read (Permᴰ.cons refl h)

SamePairs-swap :
    (v w : Option QueryPair) (o : Option (List QueryPair))
    → SamePairs (extend v (extend w o)) (extend w (extend v o))
SamePairs-swap none none o = both_fail
SamePairs-swap none (some q) o = both_fail
SamePairs-swap (some p) none o = both_fail
SamePairs-swap (some p) (some q) none = both_fail
SamePairs-swap (some p) (some q) (some ps) = both_read (Permᴰ.swap refl refl)

SamePairs-trans :
    (o₁ o₂ o₃ : Option (List QueryPair)) → SamePairs o₁ o₂ → SamePairs o₂ o₃ → SamePairs o₁ o₃
SamePairs-trans _ _ _ both_fail both_fail = both_fail
SamePairs-trans _ _ _ (both_read p) (both_read q) = both_read (Permᴰ.trans p q)

SamePairs-refl : (o : Option (List QueryPair)) → SamePairs o o
SamePairs-refl none = both_fail
SamePairs-refl (some ps) = both_read (Permᴰ.refl ps)

encode_parts-SamePairs :
    (ps qs : List Bytes) → Permᴰ ps qs → SamePairs (encode_parts ps) (encode_parts qs)
unfolding encode_parts
encode_parts-SamePairs _ _ Permᴰ.nil = SamePairs-refl (some [])
encode_parts-SamePairs _ _ (Permᴰ.cons {a = a} {b = b} {l₁ = l} {l₂ = l'} e p) =
    rw e (extend-SamePairs (encode_part b) _ _ (encode_parts-SamePairs l l' p))
encode_parts-SamePairs _ _ (Permᴰ.swap {a = a} {b = b} {a' = a'} {b' = b'} {l = l} e e') =
    rw (e, e') (SamePairs-swap (encode_part b') (encode_part a') (encode_parts l))
encode_parts-SamePairs _ _ (Permᴰ.trans {l₁ = l} {l₂ = l'} {l₃ = l''} p q) =
    SamePairs-trans (encode_parts l) (encode_parts l') (encode_parts l'')
      (encode_parts-SamePairs l l' p) (encode_parts-SamePairs l' l'' q)

abbrev written : Option (List QueryPair) → Option Bytes
written o = o >>= λ pairs. some (join (map pair_text (sort_by pair_lt pairs)) (b'&' ∷ []))

written-SamePairs : (o o' : Option (List QueryPair)) → SamePairs o o' → written o ≡ written o'
written-SamePairs _ _ both_fail = refl
written-SamePairs _ _ (both_read p) =
    ap (λ pairs. some (join (map pair_text pairs) (b'&' ∷ [])))
      (sort_by-perm pair_lt pair_lt-IsTotal _ _ p)

canonical_nonempty :
    (raw : Bytes) → raw ≢ [] → canonical_raw_query raw ≡ written (encode_parts (split raw b'&'))
unfolding canonical_raw_query
canonical_nonempty [] n = absurd (n refl)
canonical_nonempty (c ∷ raw) n =
    let e : (length (c ∷ raw) == 0) ≡ false = ground arith in rw (e, length) refl

-- Two queries that are not empty, with the same parameters in any order, have one canonical query, or
-- both have none.
pub canonical_raw_query-perm :
    (raw raw' : Bytes)
    → raw ≢ []
    → raw' ≢ []
    → Permᴰ (split raw b'&') (split raw' b'&')
    → canonical_raw_query raw ≡ canonical_raw_query raw'
canonical_raw_query-perm raw raw' n n' p =
    canonical_nonempty raw n
    ∙ written-SamePairs _ _ (encode_parts-SamePairs _ _ p)
    ∙ sym (canonical_nonempty raw' n')
