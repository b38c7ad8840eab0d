-- ===== src/Runtime/Environment.antt =====
-- internal/runtime/env.go: BuildChildEnvironment.
use kordn.Base.{
  List, [], ◌∷◌, ◌++◌, Bool, true, false, not, ◌&&◌, ◌||◌, Option, none, some, Bytes, codes, all,
  cut, ltb, if◌then◌else◌, bytes_eq, has_prefix, contains, contains_any, to_upper, equal_fold,
  is_blank, is_digit, Result, ok, err, ◌>>=◌, ◌>>◌, fail_if,
}
use kordn.AwsRequest.Endpoint.{is_empty}
use kordn.AwsRequest.Authority.{decimal}
use kordn.Sigv4.Verifier.{FakeCredential}
pub mod Isolated

-- What url.Parse makes of a text, with the text of its String; `password` is there if one was given.
pub record ProxyUrl : Type 0 where
  pub scheme : Bytes
  pub host : Bytes
  pub user : Option (Bytes × Option Bytes)
  pub path : Bytes
  pub raw_query : Bytes
  pub fragment : Bytes
  pub hostname : Bytes
  pub port : Bytes
  pub shown : Bytes

pub record AwsFiles : Type 0 where
  pub credentials_path : Bytes
  pub config_path : Bytes
  pub ca_bundle_path : Bytes

pub record EnvironmentInput : Type 0 where
  pub parent_env : List Bytes
  pub fake : FakeCredential
  pub files : AwsFiles
  pub proxy_url : Bytes
  pub run_id : Bytes

-- One constructor per message.
pub data EnvironmentError : Type 0 where
  no_run incomplete_credential incomplete_files not_authenticated not_http no_username :
      EnvironmentError
  no_password not_loopback no_port bad_port : EnvironmentError

-- `safeEnvValue`.
unfoldable pub safe_env_value : Bytes → Bool
safe_env_value value = not (is_empty value) && not (contains_any value (0 ∷ b'\r' ∷ b'\n' ∷ []))

unfoldable pub check_user : Option (Bytes × Option Bytes) → Result EnvironmentError (Unit {0})
check_user none = err not_authenticated
check_user (some (username, none)) = do fail_if (is_empty username) no_username; err no_password
check_user (some (username, some password)) = do
  fail_if (is_empty username) no_username
  fail_if (is_empty password || contains_any password (0 ∷ b'\r' ∷ b'\n' ∷ [])) no_password

abbrev pub is_missing : {A : Type 0} → Option A → Bool
is_missing none = true
is_missing (some a) = false

-- The port that a URL has is of digits. The two hosts are texts of IP addresses.
unfoldable pub check_child_proxy : ProxyUrl → Result EnvironmentError Bytes
check_child_proxy u = do
  fail_if
      (is_empty u.scheme
        || is_empty u.host
        || is_missing u.user
        || not (is_empty u.path)
        || not (is_empty u.raw_query)
        || not (is_empty u.fragment))
      not_authenticated
  fail_if (not (equal_fold u.scheme (codes "http"))) not_http
  check_user u.user
  fail_if (not (bytes_eq u.hostname (codes "127.0.0.1")) && not (bytes_eq u.hostname (codes "::1")))
      not_loopback
  fail_if (is_empty u.port) no_port
  fail_if (not (all is_digit u.port) || ltb (decimal 0 u.port) 1 || ltb 65535 (decimal 0 u.port))
      bad_port
  ok u.shown

-- `validateChildProxyURL`; `parse_url` is url.Parse.
unfoldable pub validate_child_proxy_url :
    (parse_url : Bytes → Option ProxyUrl) → Bytes → Result EnvironmentError Bytes
validate_child_proxy_url parse_url value = elim (parse_url value) [
  | none ↦ err not_authenticated
  | some u ↦ check_child_proxy u
]

abbrev pub replaced_keys : List Bytes
replaced_keys =
    codes "HTTP_PROXY"
    ∷ codes "HTTPS_PROXY"
    ∷ codes "NO_PROXY"
    ∷ codes "ALL_PROXY"
    ∷ codes "FTP_PROXY"
    ∷ codes "RSYNC_PROXY"
    ∷ codes "KORDN_RUN_ID"
    ∷ codes "KORDN_ACTIVE"
    ∷ []

-- `isReplacedChildKey`.
unfoldable pub is_replaced_child_key : Bytes → Bool
is_replaced_child_key key = contains replaced_keys (to_upper key)

-- The names that a child does not take from its parent.
abbrev pub is_protected : Bytes → Bool
is_protected key = has_prefix (to_upper key) (codes "AWS_") || is_replaced_child_key (to_upper key)

abbrev pub is_passed_on : Bytes → Bool
is_passed_on item = elim (cut item b'=') [
  | none ↦ false
  | some (key, value) ↦ not (is_empty key) && not (is_protected key)
]

-- The loop over the variables of the parent.
unfoldable pub passed_on : List Bytes → List Bytes
passed_on [] = []
passed_on (item ∷ items) =
    let rest = passed_on items in if is_passed_on item then item ∷ rest else rest

abbrev pub setting : Bytes → Bytes → Bytes
setting key value = key ++ (b'=' ∷ value)

abbrev pub local_no_proxy : Bytes
local_no_proxy = codes "localhost,127.0.0.1,::1"

-- The calls of `set`, in their order.
unfoldable pub settings : EnvironmentInput → Bytes → List Bytes
settings input proxy_url =
    setting (codes "AWS_ACCESS_KEY_ID") input.fake.access_key_id
    ∷ setting (codes "AWS_SECRET_ACCESS_KEY") input.fake.secret_access_key
    ∷ setting (codes "AWS_SESSION_TOKEN") input.fake.session_token
    ∷ setting (codes "AWS_EC2_METADATA_DISABLED") (codes "true")
    ∷ setting (codes "AWS_EC2_METADATA_V1_DISABLED") (codes "true")
    ∷ setting (codes "AWS_SHARED_CREDENTIALS_FILE") input.files.credentials_path
    ∷ setting (codes "AWS_CONFIG_FILE") input.files.config_path
    ∷ setting (codes "AWS_PROFILE") (codes "kordn")
    ∷ setting (codes "AWS_DEFAULT_PROFILE") (codes "kordn")
    ∷ setting (codes "AWS_SDK_LOAD_CONFIG") (codes "1")
    ∷ setting (codes "AWS_CA_BUNDLE") input.files.ca_bundle_path
    ∷ setting (codes "HTTP_PROXY") proxy_url
    ∷ setting (codes "HTTPS_PROXY") proxy_url
    ∷ setting (codes "http_proxy") proxy_url
    ∷ setting (codes "https_proxy") proxy_url
    ∷ setting (codes "NO_PROXY") local_no_proxy
    ∷ setting (codes "no_proxy") local_no_proxy
    ∷ setting (codes "KORDN_RUN_ID") input.run_id
    ∷ setting (codes "KORDN_ACTIVE") (codes "1")
    ∷ []

-- `BuildChildEnvironment`.
unfoldable pub build_child_environment :
    (parse_url : Bytes → Option ProxyUrl) → EnvironmentInput → Result EnvironmentError (List Bytes)
build_child_environment parse_url input = do
  fail_if (not (safe_env_value input.run_id) || is_blank input.run_id) no_run
  fail_if
      (not (safe_env_value input.fake.access_key_id)
        || not (safe_env_value input.fake.secret_access_key)
        || not (safe_env_value input.fake.session_token))
      incomplete_credential
  fail_if
      (not (safe_env_value input.files.credentials_path)
        || not (safe_env_value input.files.config_path)
        || not (safe_env_value input.files.ca_bundle_path))
      incomplete_files
  proxy_url ← validate_child_proxy_url parse_url input.proxy_url
  ok (passed_on input.parent_env ++ settings input proxy_url)
