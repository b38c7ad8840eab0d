-- ===== src/Audit/Redact.antt =====
-- internal/audit/event.go and redact.go: what an audit event reveals of resources.
use kordn.Base.{
  List, [], ◌∷◌, ◌++◌, map, Bool, true, false, ◌&&◌, Bytes, codes, if◌then◌else◌, bytes_eq,
}
use kordn.AwsRequest.Mapping.{IamRequirement, ScopeKind}
use kordn.Sigv4.Canonical.{hex_encode}
use kordn.Audit.Event.{Requirement}
pub mod Hidden

abbrev pub redacted : Bytes
redacted = codes "[REDACTED]"

-- How the composition root lets resources appear.
pub record ResourceMode : Type 0 where
  pub log_arns : Bool
  pub hash_names : Bool

-- `HashResourceForRun`; `hmac_sha256` is crypto/hmac.
unfoldable pub hash_resource_for_run : (hmac_sha256 : Bytes → Bytes → Bytes) → Bytes → Bytes → Bytes
hash_resource_for_run hmac_sha256 run_id resource =
    codes "hmac-sha256:"
    ++ hex_encode (hmac_sha256 (codes "kordn-audit-resource" ++ (0 ∷ run_id)) resource)

abbrev pub is_known_global : ScopeKind → Bool
is_known_global ScopeKind.known_global = true
is_known_global _ = false

-- The function that `RequirementsForRun` passes on.
unfoldable pub redact_for_run :
    (hmac_sha256 : Bytes → Bytes → Bytes) → Bytes → ResourceMode → IamRequirement → Bytes → Bytes
redact_for_run hmac_sha256 run_id mode r resource =
    if is_known_global r.scope_kind && bytes_eq resource (codes "*")
    then resource
    else if mode.hash_names
    then hash_resource_for_run hmac_sha256 run_id resource
    else if mode.log_arns
    then resource
    else redacted

-- `requirements`.
unfoldable pub requirements :
    (redact : IamRequirement → Bytes → Bytes) → List IamRequirement → List Requirement
requirements redact [] = []
requirements redact (r ∷ rs) =
    record {
      action = r.action;
      resources = map (redact r) r.resources;
      scope_kind = r.scope_kind;
      dependent = r.dependent;
    }
    ∷ requirements redact rs

-- `RequirementsForRun`.
unfoldable pub requirements_for_run :
    (hmac_sha256 : Bytes → Bytes → Bytes)
    → Bytes
    → ResourceMode
    → List IamRequirement
    → List Requirement
requirements_for_run hmac_sha256 run_id mode rs =
    requirements (redact_for_run hmac_sha256 run_id mode) rs
