-- ===== src/Runtime/Capture.antt =====
-- internal/runtime/env.go: the parent's proxy settings, captured before the child's environment is made.
use kordn.Base.{List, [], ◌∷◌, Option, none, some, Bytes, codes, cut, if◌then◌else◌, bytes_eq}
pub mod Precedence

-- CapturedProxySettings. An upper-case variable that is there, if empty, is `some`.
pub record Captured : Type 0 where
  pub http_upper : Option Bytes
  pub https_upper : Option Bytes
  pub no_proxy_upper : Option Bytes
  pub all_upper : Option Bytes
  pub http_lower : Bytes
  pub https_lower : Bytes
  pub no_proxy_lower : Bytes
  pub all_lower : Bytes

abbrev pub nothing_captured : Captured
nothing_captured = record {
  http_upper = none;
  https_upper = none;
  no_proxy_upper = none;
  all_upper = none;
  http_lower = [];
  https_lower = [];
  no_proxy_lower = [];
  all_lower = [];
}

-- The switch on the name of a variable.
unfoldable pub capture_one : Bytes → Bytes → Captured → Captured
capture_one key value c =
    if bytes_eq key (codes "HTTP_PROXY")
    then record c { http_upper = some value }
    else if bytes_eq key (codes "http_proxy")
    then record c { http_lower = value }
    else if bytes_eq key (codes "HTTPS_PROXY")
    then record c { https_upper = some value }
    else if bytes_eq key (codes "https_proxy")
    then record c { https_lower = value }
    else if bytes_eq key (codes "NO_PROXY")
    then record c { no_proxy_upper = some value }
    else if bytes_eq key (codes "no_proxy")
    then record c { no_proxy_lower = value }
    else if bytes_eq key (codes "ALL_PROXY")
    then record c { all_upper = some value }
    else if bytes_eq key (codes "all_proxy")
    then record c { all_lower = value }
    else c

-- The loop over the environment.
unfoldable pub capture : List Bytes → Captured → Captured
capture [] c = c
capture (item ∷ items) c = elim (cut item b'=') [
  | none ↦ capture items c
  | some (key, value) ↦ capture items (capture_one key value c)
]

abbrev pub upper_or : Option Bytes → Bytes → Bytes
upper_or (some value) lower = value
upper_or none lower = lower

pub record ProxySettings : Type 0 where
  pub http_proxy : Bytes
  pub https_proxy : Bytes
  pub no_proxy : Bytes
  pub all_proxy : Bytes

-- `CaptureProxySettings`, in the fields that it is used for.
unfoldable pub capture_proxy_settings : List Bytes → ProxySettings
capture_proxy_settings env =
    let c = capture env nothing_captured in
    record {
      http_proxy = upper_or c.http_upper c.http_lower;
      https_proxy = upper_or c.https_upper c.https_lower;
      no_proxy = upper_or c.no_proxy_upper c.no_proxy_lower;
      all_proxy = upper_or c.all_upper c.all_lower;
    }
