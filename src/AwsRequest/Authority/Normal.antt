-- ===== src/AwsRequest/Authority/Normal.antt =====
-- internal/awsrequest/endpoint.go: what a normalized host and its port look like.
use kordn.Base.{
  ℕ, ◌+◌, ◌-◌, ◌*◌, ◌≤◌, ◌≡◌, ◌∙◌, refl, List, [], ◌∷◌, true, false, not, ◌||◌, Option,
  Option-cases, inl, inr, sym, Bytes, length, all, All, ◌==◌, ltb, arith, split, to_lower, is_digit,
  Result, ok, ◌>>=◌, ◌>>◌, fail_if, ok_of_chain, fail_if-eq-ok, cut, ltb→le, bytes_eq, trim_space,
  contains_any, has_prefix,
}
use kordn.AwsRequest.Endpoint.{bad_label, is_dns_rune, is_empty}
use kordn.AwsRequest.Authority.{
  AuthorityError, port_malformed, port_invalid, port_value, parse_port, cut_port, host_and_port,
  check_host_labels, normalize_host, normalize_endpoint_host, trim_root, authority_malformed,
  invalid_label, non_ascii_label, ipv6_endpoint,
}

-- A host of DNS labels in lower case, none of them empty, too long or with a hyphen at an end; and a
-- TCP port.
pub record IsNormal (host : Bytes) (port : ℕ) : Type 0 where
  pub labels_shaped : All (λ label. bad_label label ≡ false) (split host b'.')
  pub labels_dns : All (λ label. all is_dns_rune label ≡ true) (split host b'.')
  pub port_low : 1 ≤ port
  pub port_high : port ≤ 65535

port_value-le :
    (value port : ℕ) (text : Bytes) → value ≤ 65535 → port_value value text ≡ ok port → port ≤ 65535
unfolding port_value
port_value-le value port [] low h = ground arith
port_value-le value port (c ∷ text) low h =
    let next = value * 10 + (c - b'0') in
    let (digit, h1) =
      fail_if-eq-ok (not (is_digit c)) port_malformed
        (fail_if (ltb 65535 next) port_invalid >> port_value next text) h in
    let (small, h2) = fail_if-eq-ok (ltb 65535 next) port_invalid (port_value next text) h1 in
    port_value-le next port text (ltb→le 65535 next small) h2

parse_port-IsBounded :
    (text : Bytes) (port : ℕ) → parse_port text ≡ ok port → (1 ≤ port) × (port ≤ 65535)
unfolding parse_port
parse_port-IsBounded text port h =
    let (value, read, h1) =
      ok_of_chain (port_value 0 text) (λ v. fail_if (v == 0) port_invalid >> ok v) h in
    let (positive, h2) = fail_if-eq-ok (value == 0) port_invalid (ok value) h1 in
    let high = port_value-le 0 value text (omega arith) read in ground (arith, high, positive, h2)

-- The rest of `cut_port`, behind the cut.
abbrev read_port : Bytes → Bytes → Result AuthorityError (Bytes × ℕ)
read_port name text = do
  fail_if (ltb 5 (length text)) port_invalid
  fail_if (is_empty name || is_empty text) port_malformed
  port ← parse_port text
  ok (name, port)

read_port-IsBounded :
    (name text host : Bytes) (port : ℕ)
    → read_port name text ≡ ok (host, port)
    → (1 ≤ port) × (port ≤ 65535)
read_port-IsBounded name text host port h =
    let parsed = parse_port text >>= λ v. ok (name, v) in
    let (_, h1) =
      fail_if-eq-ok (ltb 5 (length text)) port_invalid
        (fail_if (is_empty name || is_empty text) port_malformed >> parsed) h in
    let (_, h2) = fail_if-eq-ok (is_empty name || is_empty text) port_malformed parsed h1 in
    let (value, read, h3) = ok_of_chain (parse_port text) (λ v. ok (name, v)) h2 in
    let bounds = parse_port-IsBounded text value read in ground (arith, bounds, h3)

cut_port-IsBounded :
    (authority host : Bytes) (port : ℕ)
    → cut_port authority ≡ ok (host, port)
    → (1 ≤ port) × (port ≤ 65535)
unfolding cut_port
cut_port-IsBounded authority host port h = elim (Option-cases (cut authority b':')) [
  | inl e ↦ ground (arith, e)
  | inr ((name, text), e) ↦
      (let opened : cut_port authority ≡ read_port name text = rw (e, cut_port) refl in
        read_port-IsBounded name text host port (sym opened ∙ h))
]

check_host_labels-All :
    (labels : List Bytes)
    → check_host_labels labels ≡ ok tt
    → All (λ label. bad_label label ≡ false) labels
      × All (λ label. all is_dns_rune label ≡ true) labels
unfolding check_host_labels
check_host_labels-All [] h = (tt, tt)
check_host_labels-All (label ∷ labels) h =
    let (shaped, h1) =
      fail_if-eq-ok (bad_label label) invalid_label
        (fail_if (not (all is_dns_rune label)) non_ascii_label >> check_host_labels labels) h in
    let (dns, h2) =
      fail_if-eq-ok (not (all is_dns_rune label)) non_ascii_label (check_host_labels labels) h1 in
    let (rest_shaped, rest_dns) = check_host_labels-All labels h2 in
    ((shaped, rest_shaped), (ground (arith, dns), rest_dns))

normalize_host-All :
    (to_ascii : Bytes → Option Bytes) (host normal : Bytes)
    → normalize_host to_ascii host ≡ ok normal
    → All (λ label. bad_label label ≡ false) (split normal b'.')
      × All (λ label. all is_dns_rune label ≡ true) (split normal b'.')
unfolding normalize_host
normalize_host-All to_ascii host normal h = elim (Option-cases (to_ascii host)) [
  | inl e ↦ ground (arith, e)
  | inr (ascii, e) ↦ ground (arith, e, check_host_labels-All (split (to_lower ascii) b'.'))
]

host_and_port-IsBounded :
    (authority host : Bytes) (port : ℕ)
    → host_and_port authority ≡ ok (host, port)
    → (1 ≤ port) × (port ≤ 65535)
unfolding host_and_port
host_and_port-IsBounded authority host port h =
    ground (arith, cut_port-IsBounded authority host port)

-- The end of `normalize_endpoint_host`, behind its checks.
abbrev finish : (Bytes → Option Bytes) → Bytes × ℕ → Result AuthorityError (Bytes × ℕ)
finish to_ascii (host, port) = do ascii ← normalize_host to_ascii (trim_root host); ok (ascii, port)

finish-IsNormal :
    (to_ascii : Bytes → Option Bytes) (authority : Bytes) (found : Bytes × ℕ) (host : Bytes)
    (port : ℕ)
    → host_and_port authority ≡ ok found
    → finish to_ascii found ≡ ok (host, port)
    → IsNormal host port
finish-IsNormal to_ascii authority (name, number) host port cut h =
    let (ascii, normal, h1) =
      ok_of_chain (normalize_host to_ascii (trim_root name)) (λ a. ok (a, number)) h in
    let labels = normalize_host-All to_ascii (trim_root name) ascii normal in
    let bounds = host_and_port-IsBounded authority name number cut in
    ground (arith, labels, bounds, h1)

-- Every host and port that NormalizeEndpointHost returns are normal, whatever the IDNA conversion
-- answers.
pub normalize_endpoint_host-IsNormal :
    (to_ascii : Bytes → Option Bytes) (authority host : Bytes) (port : ℕ)
    → normalize_endpoint_host to_ascii authority ≡ ok (host, port)
    → IsNormal host port
unfolding normalize_endpoint_host
normalize_endpoint_host-IsNormal to_ascii authority host port h =
    let rest = host_and_port authority >>= finish to_ascii in
    let shape =
      is_empty authority
      || not (bytes_eq (trim_space authority) authority)
      || contains_any authority (0 ∷ 13 ∷ 10 ∷ b'/' ∷ b'@' ∷ []) in
    let (_, h1) =
      fail_if-eq-ok shape authority_malformed
        (fail_if (has_prefix authority (b'[' ∷ [])) ipv6_endpoint >> rest) h in
    let (_, h2) = fail_if-eq-ok (has_prefix authority (b'[' ∷ [])) ipv6_endpoint rest h1 in
    let (found, cut, h3) = ok_of_chain (host_and_port authority) (finish to_ascii) h2 in
    finish-IsNormal to_ascii authority found host port cut h3
