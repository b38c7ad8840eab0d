-- ===== src/Proxy/Limits/Defaults.antt =====
-- The limits after `withDefaults`.
use kordn.Base.{◌<◌, ◌≤◌, ◌≡◌, arith}
use kordn.Proxy.Limits.{Limits, body_limits, with_defaults}

-- Every limit is set, and no more of a body is held in memory than may be read.
pub record IsComplete (l : Limits) : Type 0 where
  pub header_bytes : 0 < l.max_header_bytes
  pub header_count : 0 < l.max_header_count
  pub request_line : 0 < l.max_request_line
  pub body : 0 < l.max_body_bytes
  pub memory : 0 < l.max_in_memory_body_bytes
  pub memory_fits : l.max_in_memory_body_bytes ≤ l.max_spool_body_bytes
  pub read_header : 0 < l.read_header_timeout
  pub read : 0 < l.read_timeout
  pub write : 0 < l.write_timeout
  pub idle : 0 < l.idle_timeout
  pub connect : 0 < l.connect_timeout

with_defaults-IsComplete : (l : Limits) → IsComplete (with_defaults l)
unfolding with_defaults body_limits
with_defaults-IsComplete l = record {
  header_bytes = ground arith;
  header_count = ground arith;
  request_line = ground arith;
  body = ground arith;
  memory = ground arith;
  memory_fits = ground arith;
  read_header = ground arith;
  read = ground arith;
  write = ground arith;
  idle = ground arith;
  connect = ground arith;
}

-- Limits that are complete stay as they are.
complete_kept : (l : Limits) → IsComplete l → with_defaults l ≡ l
unfolding with_defaults body_limits
complete_kept l h =
    let header_bytes : (with_defaults l).max_header_bytes ≡ l.max_header_bytes =
      ground (arith, h.header_bytes) in
    let header_count : (with_defaults l).max_header_count ≡ l.max_header_count =
      ground (arith, h.header_count) in
    let request_line : (with_defaults l).max_request_line ≡ l.max_request_line =
      ground (arith, h.request_line) in
    let body : (with_defaults l).max_body_bytes ≡ l.max_body_bytes = ground (arith, h.body) in
    let memory : (with_defaults l).max_in_memory_body_bytes ≡ l.max_in_memory_body_bytes =
      ground (arith, h.memory, h.memory_fits) in
    let memory_fits : (with_defaults l).max_spool_body_bytes ≡ l.max_spool_body_bytes =
      ground (arith, h.memory_fits, h.memory) in
    let read_header : (with_defaults l).read_header_timeout ≡ l.read_header_timeout =
      ground (arith, h.read_header) in
    let read : (with_defaults l).read_timeout ≡ l.read_timeout = ground (arith, h.read) in
    let write : (with_defaults l).write_timeout ≡ l.write_timeout = ground (arith, h.write) in
    let idle : (with_defaults l).idle_timeout ≡ l.idle_timeout = ground (arith, h.idle) in
    let connect : (with_defaults l).connect_timeout ≡ l.connect_timeout =
      ground (arith, h.connect) in
    cc (
      header_bytes, header_count, request_line, body, memory, memory_fits, read_header, read, write,
      idle, connect,
    )

-- `withDefaults` completes every limits, and a second application changes nothing.
with_defaults_idempotent :
    (l : Limits)
    → IsComplete (with_defaults l) × (with_defaults (with_defaults l) ≡ with_defaults l)
with_defaults_idempotent l =
    (with_defaults-IsComplete l, complete_kept (with_defaults l) (with_defaults-IsComplete l))
