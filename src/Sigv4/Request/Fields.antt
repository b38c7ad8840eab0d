-- ===== src/Sigv4/Request/Fields.antt =====
-- internal/sigv4/verify.go: requestHeader does not depend on the order of the map.
use mathlib.Core.List.{Permᴰ}
use kordn.Base.{
  ◌≡◌, refl, sym, ◌∙◌, List, [], ◌∷◌, Bool, true, false, Bool-cases, inl, inr, Bytes, equal_fold,
}
use kordn.Sigv4.Request.{Header, Lookup, absent, duplicated, found, scan_header, request_header}

abbrev add_field : Bool → List Bytes → List (List Bytes) → List (List Bytes)
add_field false values fields = fields
add_field true values fields = values ∷ fields

-- The values of the fields of a name, field by field.
unfoldable pub fields_of : Header → Bytes → List (List Bytes)
fields_of [] name = []
fields_of ((key, values) ∷ header) name =
    add_field (equal_fold key name) values (fields_of header name)

abbrev pub lookup_of : List (List Bytes) → Lookup
lookup_of [] = absent
lookup_of ((value ∷ []) ∷ []) = found value
lookup_of _ = duplicated

scan_header-found :
    (v : Bytes) (header : Header) (name : Bytes)
    → scan_header (found v) header name ≡ lookup_of ((v ∷ []) ∷ fields_of header name)
unfolding scan_header fields_of
scan_header-found v [] name = refl
scan_header-found v ((key, values) ∷ header) name = elim (Bool-cases (equal_fold key name)) [
  | inl e ↦ rw (e, scan_header, fields_of) refl
  | inr e ↦ rw (e, scan_header, fields_of) (scan_header-found v header name)
]

scan_header-first :
    (values : List Bytes) (header : Header) (name key : Bytes)
    → equal_fold key name ≡ true
    → scan_header absent ((key, values) ∷ header) name ≡ lookup_of (values ∷ fields_of header name)
unfolding scan_header
scan_header-first [] header name key e = rw (e, scan_header) refl
scan_header-first (v ∷ []) header name key e = rw (e, scan_header) (scan_header-found v header name)
scan_header-first (v ∷ w ∷ vs) header name key e = rw (e, scan_header) refl

pub request_header-lookup_of :
    (header : Header) (name : Bytes)
    → request_header header name ≡ lookup_of (fields_of header name)
unfolding request_header scan_header fields_of
request_header-lookup_of [] name = refl
request_header-lookup_of ((key, values) ∷ header) name = elim (Bool-cases (equal_fold key name)) [
  | inl e ↦ rw (e, fields_of) (scan_header-first values header name key e)
  | inr e ↦ rw (e, fields_of, scan_header) (request_header-lookup_of header name)
]

lookup_of-many : (a b : List Bytes) (l : List (List Bytes)) → lookup_of (a ∷ b ∷ l) ≡ duplicated
lookup_of-many [] b l = refl
lookup_of-many (v ∷ []) b l = refl
lookup_of-many (v ∷ w ∷ vs) b l = refl

-- Two lists of fields that any field before them leaves alike.
abbrev Alike : List (List Bytes) → List (List Bytes) → Type 0
Alike l m = (lookup_of l ≡ lookup_of m) × ((a : List Bytes) → lookup_of (a ∷ l) ≡ lookup_of (a ∷ m))

many_Alike : (a b c d : List Bytes) (l m : List (List Bytes)) → Alike (a ∷ b ∷ l) (c ∷ d ∷ m)
many_Alike a b c d l m = (
  lookup_of-many a b l ∙ sym (lookup_of-many c d m),
  λ e. lookup_of-many e a (b ∷ l) ∙ sym (lookup_of-many e c (d ∷ m)),
)

Alike-cons : (a : List Bytes) (l m : List (List Bytes)) → Alike l m → Alike (a ∷ l) (a ∷ m)
Alike-cons a l m h = (h.1 a, λ e. lookup_of-many e a l ∙ sym (lookup_of-many e a m))

Alike-trans : (l m n : List (List Bytes)) → Alike l m → Alike m n → Alike l n
Alike-trans l m n h k = (h.0 ∙ k.0, λ a. h.1 a ∙ k.1 a)

add_field-Alike :
    (c : Bool) (a : List Bytes) (l m : List (List Bytes))
    → Alike l m
    → Alike (add_field c a l) (add_field c a m)
add_field-Alike false a l m h = h
add_field-Alike true a l m h = Alike-cons a l m h

swap_Alike :
    (c d : Bool) (a b : List Bytes) (l : List (List Bytes))
    → Alike (add_field c a (add_field d b l)) (add_field d b (add_field c a l))
swap_Alike false d a b l = (refl, λ e. refl)
swap_Alike true false a b l = (refl, λ e. refl)
swap_Alike true true a b l = many_Alike a b b a l l

fields_of-Alike :
    (h h' : Header) (name : Bytes) → Permᴰ h h' → Alike (fields_of h name) (fields_of h' name)
unfolding fields_of
fields_of-Alike _ _ name Permᴰ.nil = (refl, λ a. refl)
fields_of-Alike _ _ name (Permᴰ.cons {a = a} {b = b} {l₁ = l} {l₂ = l'} e p) = rw e (
    add_field-Alike (equal_fold b.0 name) b.1 (fields_of l name) (fields_of l' name)
      (fields_of-Alike l l' name p))
fields_of-Alike _ _ name (Permᴰ.swap {a = a} {b = b} {a' = a'} {b' = b'} {l = l} e e') =
    rw (e, e')
      (swap_Alike (equal_fold b'.0 name) (equal_fold a'.0 name) b'.1 a'.1 (fields_of l name))
fields_of-Alike _ _ name (Permᴰ.trans {l₁ = l} {l₂ = l'} {l₃ = l''} p q) =
    Alike-trans (fields_of l name) (fields_of l' name) (fields_of l'' name)
      (fields_of-Alike l l' name p) (fields_of-Alike l' l'' name q)

-- The lookup of a name in a header is the same in whatever order the map is walked.
request_header-perm :
    (h h' : Header) (name : Bytes) → Permᴰ h h' → request_header h name ≡ request_header h' name
request_header-perm h h' name p =
    request_header-lookup_of h name
    ∙ (fields_of-Alike h h' name p).0
    ∙ sym (request_header-lookup_of h' name)
