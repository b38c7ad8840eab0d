-- ===== src/Sigv4/Header.antt =====
-- internal/sigv4/canonical.go: the names and values of canonical headers, and payload hashes.
use kordn.Base.{
  ℕ, [], ◌∷◌, Bool, true, false, not, ◌&&◌, ◌||◌, Bytes, codes, length, all, ◌==◌, leb, ltb,
  if◌then◌else◌, bytes_eq,
}
pub mod Normal

abbrev pub is_gap : ℕ → Bool
is_gap c = c == b' ' || c == b'\t'

-- The loop of `normalizeHeaderValue`: `space` is its variable, `started` is `out.Len() != 0`.
unfoldable pub squeeze : Bool → Bool → Bytes → Bytes
squeeze space started [] = []
squeeze space started (c ∷ s) =
    let gap = squeeze true started s in
    let rest = squeeze false true s in
    if is_gap c then gap else if space && started then b' ' ∷ c ∷ rest else c ∷ rest

unfoldable pub normalize_header_value : Bytes → Bytes
normalize_header_value value = squeeze false false value

unfoldable pub valid_header_name : Bytes → Bool
valid_header_name name =
    not (length name == 0)
    && all (λ c. c == b'-' || (leb b'a' c && leb c b'z') || (leb b'0' c && leb c b'9')) name

unfoldable pub valid_header_value : Bytes → Bool
valid_header_value value = all (λ c. not ((ltb c 0x20 && not (c == b'\t')) || c == 0x7f)) value

unfoldable pub is_lower_hex : ℕ → Bool
is_lower_hex c = (leb b'0' c && leb c b'9') || (leb b'a' c && leb c b'f')

-- `validPayloadHash`; a SHA-256 text has 64 bytes.
unfoldable pub valid_payload_hash : Bytes → Bool
valid_payload_hash value =
    if bytes_eq value (codes "UNSIGNED-PAYLOAD") || length value == 64
    then (if not (length value == 64) then true else all is_lower_hex value)
    else false
