-- ===== src/AwsRequest/Authority.antt =====
-- internal/awsrequest/endpoint.go: NormalizeEndpointHost.
use kordn.Base.{
  ℕ, ◌+◌, ◌-◌, ◌*◌, List, [], ◌∷◌, Bool, not, ◌&&◌, ◌||◌, Option, none, some, Bytes, length, all,
  take, ◌==◌, leb, ltb, if◌then◌else◌, bytes_eq, has_prefix, has_byte, has_suffix_byte,
  contains_any, count_byte, split, cut, trim_space, to_lower, is_digit, Result, ok, err, ◌>>=◌,
  ◌>>◌, fail_if,
}
use kordn.AwsRequest.Endpoint.{bad_label, is_dns_rune, is_empty, starts_with_byte}
pub mod Normal

-- One constructor per message.
pub data AuthorityError : Type 0 where
  authority_malformed ipv6_endpoint port_invalid port_malformed ipv6_form : AuthorityError
  hostname_malformed not_idna not_dns invalid_label non_ascii_label : AuthorityError

-- The loop over the bytes of the port.
unfoldable pub port_value : ℕ → Bytes → Result AuthorityError ℕ
port_value value [] = ok value
port_value value (char ∷ text) =
    let next = value * 10 + (char - b'0') in
    let rest = port_value next text in
    do fail_if (not (is_digit char)) port_malformed; fail_if (ltb 65535 next) port_invalid; rest

unfoldable pub parse_port : Bytes → Result AuthorityError ℕ
parse_port text = do value ← port_value 0 text; fail_if (value == 0) port_invalid; ok value

-- The host and the port of an authority with one colon.
unfoldable pub cut_port : Bytes → Result AuthorityError (Bytes × ℕ)
cut_port authority = elim (cut authority b':') [
  | none ↦ err port_malformed
  | some (host, port_text) ↦ (do
    fail_if (ltb 5 (length port_text)) port_invalid
    fail_if (is_empty host || is_empty port_text) port_malformed
    port ← parse_port port_text
    ok (host, port))
]

unfoldable pub host_and_port : Bytes → Result AuthorityError (Bytes × ℕ)
host_and_port authority =
    if count_byte authority b':' == 1
    then cut_port authority
    else if has_byte authority b':'
    then err ipv6_form
    else ok (authority, 443)

-- `strings.TrimSuffix(host, ".")`.
unfoldable pub trim_root : Bytes → Bytes
trim_root host = if has_suffix_byte host b'.' then take (length host - 1) host else host

-- The decimal number of a text of digits.
unfoldable pub decimal : ℕ → Bytes → ℕ
decimal value [] = value
decimal value (c ∷ s) = decimal (value * 10 + (c - b'0')) s

-- A field of a dotted IPv4 address as net.ParseIP reads it.
unfoldable pub is_octet : Bytes → Bool
is_octet s =
    not (is_empty s)
    && all is_digit s
    && (length s == 1 || not (starts_with_byte s b'0'))
    && leb (decimal 0 s) 255

-- `net.ParseIP(s) != nil`, for a text with no colon; the loop over the labels refuses a colon.
unfoldable pub is_ip : Bytes → Bool
is_ip s = let fields = split s b'.' in length fields == 4 && all is_octet fields

-- The loop over the labels.
unfoldable pub check_host_labels : List Bytes → Result AuthorityError (Unit {0})
check_host_labels [] = ok tt
check_host_labels (label ∷ labels) =
    let rest = check_host_labels labels in
    do
      fail_if (bad_label label) invalid_label
      fail_if (not (all is_dns_rune label)) non_ascii_label
      rest

-- `to_ascii` is `idna.Lookup.ToASCII`, of golang.org/x/net.
unfoldable pub normalize_host :
    (to_ascii : Bytes → Option Bytes) → Bytes → Result AuthorityError Bytes
normalize_host to_ascii host = do
  fail_if (is_empty host || has_suffix_byte host b'.' || ltb 253 (length host)) hostname_malformed
  elim (to_ascii host) [
    | none ↦ err not_idna
    | some ascii ↦ (do
      fail_if (is_empty ascii || ltb 253 (length ascii)) not_idna
      fail_if (is_ip (to_lower ascii)) not_dns
      check_host_labels (split (to_lower ascii) b'.')
      ok (to_lower ascii))
  ]

-- `NormalizeEndpointHost`, with the host and the port.
unfoldable pub normalize_endpoint_host :
    (to_ascii : Bytes → Option Bytes) → Bytes → Result AuthorityError (Bytes × ℕ)
normalize_endpoint_host to_ascii authority = do
  fail_if
      (is_empty authority
        || not (bytes_eq (trim_space authority) authority)
        || contains_any authority (0 ∷ 13 ∷ 10 ∷ b'/' ∷ b'@' ∷ []))
      authority_malformed
  fail_if (has_prefix authority (b'[' ∷ [])) ipv6_endpoint
  (host, port) ← host_and_port authority
  ascii ← normalize_host to_ascii (trim_root host)
  ok (ascii, port)
