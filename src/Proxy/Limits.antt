-- ===== src/Proxy/Limits.antt =====
-- internal/proxy/limits.go: the bounds on the requests that the proxy reads.
use kordn.Base.{
  ℕ, ◌+◌, List, [], ◌∷◌, Bool, ◌||◌, Option, none, some, Bytes, length, any, ◌==◌, leb, ltb,
  if◌then◌else◌, Result, ok, err, ◌>>=◌, ◌>>◌, fail_if,
}
pub mod Defaults
pub mod Requests

-- `Limits`. A field of at most zero, which selects the default, stands here as zero; a duration is in
-- seconds.
pub record Limits : Type 0 where
  pub max_header_bytes : ℕ
  pub max_header_count : ℕ
  pub max_request_line : ℕ
  pub max_body_bytes : ℕ
  pub max_in_memory_body_bytes : ℕ
  pub max_spool_body_bytes : ℕ
  pub read_header_timeout : ℕ
  pub read_timeout : ℕ
  pub write_timeout : ℕ
  pub idle_timeout : ℕ
  pub connect_timeout : ℕ

abbrev pub default_limits : Limits
default_limits = record {
  max_header_bytes = 65536;
  max_header_count = 100;
  max_request_line = 8192;
  max_body_bytes = 67108864;
  max_in_memory_body_bytes = 8388608;
  max_spool_body_bytes = 67108864;
  read_header_timeout = 10;
  read_timeout = 30;
  write_timeout = 30;
  idle_timeout = 60;
  connect_timeout = 10;
}

-- `if value <= 0 { value = fallback }`.
abbrev pub or_else : ℕ → ℕ → ℕ
or_else value fallback = if leb value 0 then fallback else value

-- The assignments to the three limits of bodies, in their order.
unfoldable pub body_limits : Limits → Limits
body_limits l =
    let spool =
      if leb l.max_spool_body_bytes 0
      then or_else l.max_body_bytes default_limits.max_spool_body_bytes
      else l.max_spool_body_bytes in
    let memory = or_else l.max_in_memory_body_bytes default_limits.max_in_memory_body_bytes in
    record l {
      max_spool_body_bytes = spool;
      max_body_bytes = or_else l.max_body_bytes spool;
      max_in_memory_body_bytes = if ltb spool memory then spool else memory;
    }

-- `withDefaults`.
unfoldable pub with_defaults : Limits → Limits
with_defaults l = record (body_limits l) {
  max_header_bytes = or_else l.max_header_bytes default_limits.max_header_bytes;
  max_header_count = or_else l.max_header_count default_limits.max_header_count;
  max_request_line = or_else l.max_request_line default_limits.max_request_line;
  read_header_timeout = or_else l.read_header_timeout default_limits.read_header_timeout;
  read_timeout = or_else l.read_timeout default_limits.read_timeout;
  write_timeout = or_else l.write_timeout default_limits.write_timeout;
  idle_timeout = or_else l.idle_timeout default_limits.idle_timeout;
  connect_timeout = or_else l.connect_timeout default_limits.connect_timeout;
}

-- The parts of an http.Request that the limits bound. An unknown length, -1, stands here as zero.
pub record HttpRequest : Type 0 where
  pub request_uri : Bytes
  pub header : List (Bytes × List Bytes)
  pub content_length : ℕ

pub data LimitError : Type 0 where
  no_request request_line invalid_header large_header many_headers large_body : LimitError

unfoldable pub too_large : ℕ → Bytes → Bytes → Bool
too_large limit key value = ltb limit (length value) || ltb limit (length key + length value)

-- The loop over the header, with the count of values so far.
unfoldable pub count_values : ℕ → ℕ → List (Bytes × List Bytes) → Result LimitError ℕ
count_values limit count [] = ok count
count_values limit count ((key, values) ∷ header) =
    let rest = count_values limit (count + length values) header in
    do
      fail_if (length values == 0 || ltb limit (length key)) invalid_header
      fail_if (any (too_large limit key) values) large_header
      rest

-- `validateRequest`.
unfoldable pub validate_request : Limits → Option HttpRequest → Result LimitError (Unit {0})
validate_request l none = err no_request
validate_request l (some r) = do
  fail_if (ltb l.max_request_line (length r.request_uri)) request_line
  count ← count_values l.max_header_bytes 0 r.header
  fail_if (ltb l.max_header_count count) many_headers
  fail_if (ltb l.max_spool_body_bytes r.content_length) large_body
  ok tt
