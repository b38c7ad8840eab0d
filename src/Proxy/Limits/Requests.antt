-- ===== src/Proxy/Limits/Requests.antt =====
-- Which requests are within the limits.
use kordn.Base.{
  ℕ, ◌+◌, ◌≤◌, List, [], ◌∷◌, Bool, true, not, ◌&&◌, some, ◌≡◌, ◌↔◌, refl, arith, Bytes, length,
  any, all, ◌==◌, ltb, ok, Result-cases, inl, inr,
}
use kordn.Proxy.Limits.{Limits, HttpRequest, too_large, count_values, validate_request}

-- All values of a header field have a place: its name and each of them are within the limit.
unfoldable pub field_fits : ℕ → Bytes × List Bytes → Bool
field_fits limit (key, values) =
    not (length values == 0)
    && not (ltb limit (length key))
    && not (any (too_large limit key) values)

unfoldable pub values_in : List (Bytes × List Bytes) → ℕ
values_in [] = 0
values_in ((key, values) ∷ header) = length values + values_in header

count_values-ok :
    (limit count total : ℕ) (header : List (Bytes × List Bytes))
    → count_values limit count header ≡ ok total
    → (all (field_fits limit) header ≡ true) × (total ≡ count + values_in header)
unfolding count_values field_fits values_in
count_values-ok limit count total [] h = (refl, ground arith)
count_values-ok limit count total ((key, values) ∷ header) h =
    let rest : count_values limit (count + length values) header ≡ ok total = ground arith in
    let (fits, e) = count_values-ok limit (count + length values) total header rest in
    (ground arith, ground arith)

count_values-total :
    (limit count : ℕ) (header : List (Bytes × List Bytes))
    → all (field_fits limit) header ≡ true
    → count_values limit count header ≡ ok (count + values_in header)
unfolding count_values field_fits values_in
count_values-total limit count [] h = ground arith
count_values-total limit count ((key, values) ∷ header) h =
    let e : count + length values + values_in header ≡ count + (length values + values_in header) =
      omega arith in
    let rest = count_values-total limit (count + length values) header (ground arith) in
    ground (arith, rest, e)

-- The bounds on a whole request.
pub record IsWithin (l : Limits) (r : HttpRequest) : Type 0 where
  pub line : length r.request_uri ≤ l.max_request_line
  pub fields : all (field_fits l.max_header_bytes) r.header ≡ true
  pub count : values_in r.header ≤ l.max_header_count
  pub body : r.content_length ≤ l.max_spool_body_bytes

validate_request-IsWithin :
    (l : Limits) (r : HttpRequest) → validate_request l (some r) ≡ ok tt → IsWithin l r
unfolding validate_request
validate_request-IsWithin l r h = elim (Result-cases (count_values l.max_header_bytes 0 r.header)) [
  | inl (e, failed) ↦ absurd (ground arith)
  | inr (n, counted) ↦
      let (fits, total) = count_values-ok l.max_header_bytes 0 n r.header counted in
      record {
        line = ground arith;
        fields = fits;
        count = ground (arith, total);
        body = ground arith;
      }
]

IsWithin-validate_request :
    (l : Limits) (r : HttpRequest) → IsWithin l r → validate_request l (some r) ≡ ok tt
unfolding validate_request
IsWithin-validate_request l r h =
    let counted = count_values-total l.max_header_bytes 0 r.header h.fields in
    ground (arith, counted, h.line, h.count, h.body)

-- The limits let a request pass exactly when its request line, each field of its header, the number of
-- its header values and its announced length are within them, in whatever order the header is walked.
pub validate_request_iff :
    (l : Limits) (r : HttpRequest) → (validate_request l (some r) ≡ ok tt) ↔ IsWithin l r
validate_request_iff l r = (validate_request-IsWithin l r, IsWithin-validate_request l r)
