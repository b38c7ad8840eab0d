-- ===== src/Audit/Redact/Hidden.antt =====
-- internal/audit/event.go: without raw ARN logging, resources do not show in the log.
use kordn.Base.{
  ◌≡◌, refl, List, [], ◌∷◌, map, false, ◌&&◌, Bytes, codes, arith, if◌then◌else◌, bytes_eq,
}
use kordn.AwsRequest.Mapping.{IamRequirement}
use kordn.Audit.Redact.{
  ResourceMode, is_known_global, redact_for_run, requirements, requirements_for_run,
}

-- A resource without its name; the star of a known global scope stays.
abbrev pub hide_resource : IamRequirement → Bytes → Bytes
hide_resource r resource =
    if is_known_global r.scope_kind && bytes_eq resource (codes "*") then resource else []

abbrev pub hide : IamRequirement → IamRequirement
hide r = record r { resources = map (hide_resource r) r.resources }

redact-hide :
    (hmac_sha256 : Bytes → Bytes → Bytes) (run_id : Bytes) (r : IamRequirement) (rs : List Bytes)
    (mode : ResourceMode)
    → mode.log_arns ≡ false
    → mode.hash_names ≡ false
    → map (redact_for_run hmac_sha256 run_id mode r) rs
      ≡ map (redact_for_run hmac_sha256 run_id mode (hide r)) (map (hide_resource r) rs)
unfolding redact_for_run bytes_eq
redact-hide hmac_sha256 run_id r [] mode arns names = refl
redact-hide hmac_sha256 run_id r (x ∷ rs) mode arns names =
    ground (arith, arns, names, redact-hide hmac_sha256 run_id r rs mode arns names)

-- Without ARN logging and without hashes, the requirements in an audit event are those of the same
-- mapping with its resources' names taken away: no name reaches the log.
pub requirements_for_run-hide :
    (hmac_sha256 : Bytes → Bytes → Bytes) (run_id : Bytes) (mode : ResourceMode)
    (rs : List IamRequirement)
    → mode.log_arns ≡ false
    → mode.hash_names ≡ false
    → requirements_for_run hmac_sha256 run_id mode rs
      ≡ requirements_for_run hmac_sha256 run_id mode (map hide rs)
unfolding requirements_for_run requirements
requirements_for_run-hide hmac_sha256 run_id mode [] arns names = refl
requirements_for_run-hide hmac_sha256 run_id mode (r ∷ rs) arns names = ground (
  arith,
  redact-hide hmac_sha256 run_id r r.resources mode arns names,
  requirements_for_run-hide hmac_sha256 run_id mode rs arns names,
)
