-- ===== src/Sigv4/Header/Normal.antt =====
-- The normal form of a header value.
use kordn.Base.{
  [], ◌∷◌, Bool, true, false, not, ◌&&◌, ◌||◌, ◌≡◌, refl, arith, Bytes, ◌==◌, if◌then◌else◌,
}
use kordn.Sigv4.Header.{is_gap, squeeze, normalize_header_value, valid_header_value}

-- After a byte that is no gap (`after`) or a gap: gaps are single spaces, with a byte behind each.
unfoldable pub is_spaced : Bool → Bytes → Bool
is_spaced after [] = after
is_spaced after (c ∷ s) =
    let next = is_spaced (not (is_gap c)) s in if is_gap c then after && c == b' ' && next else next

-- A text that starts with no gap, and in which gaps are single spaces between other bytes.
unfoldable pub is_squeezed : Bytes → Bool
is_squeezed [] = true
is_squeezed (c ∷ s) = not (is_gap c) && is_spaced true s

squeeze-is_spaced : (space : Bool) (s : Bytes) → is_spaced true (squeeze space true s) ≡ true
unfolding squeeze is_spaced
squeeze-is_spaced space [] = refl
squeeze-is_spaced space (c ∷ s) =
    ground (arith, squeeze-is_spaced true s, squeeze-is_spaced false s)

squeeze-is_squeezed : (space : Bool) (s : Bytes) → is_squeezed (squeeze space false s) ≡ true
unfolding squeeze is_squeezed
squeeze-is_squeezed space [] = refl
squeeze-is_squeezed space (c ∷ s) =
    ground (arith, squeeze-is_squeezed true s, squeeze-is_spaced false s)

squeeze-squeeze :
    (space started : Bool) (s : Bytes)
    → squeeze false started (squeeze space started s) ≡ squeeze space started s
unfolding squeeze
squeeze-squeeze space started [] = refl
squeeze-squeeze space started (c ∷ s) =
    ground (arith, squeeze-squeeze true started s, squeeze-squeeze false true s)

valid-squeeze :
    (space started : Bool) (s : Bytes)
    → valid_header_value s ≡ true
    → valid_header_value (squeeze space started s) ≡ true
unfolding squeeze valid_header_value
valid-squeeze space started [] h = refl
valid-squeeze space started (c ∷ s) h =
    ground (arith, valid-squeeze true started s, valid-squeeze false true s)

-- What is left when all gaps go.
unfoldable pub solid : Bytes → Bytes
solid [] = []
solid (c ∷ s) = let rest = solid s in if is_gap c then rest else c ∷ rest

solid-squeeze : (space started : Bool) (s : Bytes) → solid (squeeze space started s) ≡ solid s
unfolding squeeze solid
solid-squeeze space started [] = refl
solid-squeeze space started (c ∷ s) =
    ground (arith, solid-squeeze true started s, solid-squeeze false true s)

-- The normal form of a header value has no gaps but single spaces between other bytes, has the same
-- other bytes, is its own normal form, and is a valid header value if the value is one.
pub normalize_header_value-is_squeezed :
    (value : Bytes)
    → (is_squeezed (normalize_header_value value) ≡ true)
      × (solid (normalize_header_value value) ≡ solid value)
      × (normalize_header_value (normalize_header_value value) ≡ normalize_header_value value)
      × ((not (valid_header_value value) || valid_header_value (normalize_header_value value))
          ≡ true)
unfolding normalize_header_value
normalize_header_value-is_squeezed value = (
  squeeze-is_squeezed false value,
  solid-squeeze false false value,
  squeeze-squeeze false false value,
  ground (arith, valid-squeeze false false value),
)
