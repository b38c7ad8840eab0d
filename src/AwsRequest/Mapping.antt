-- ===== src/AwsRequest/Mapping.antt =====
-- internal/awsrequest/types.go: IAM requirements and the mapper's result.
use kordn.Base.{
  ℕ, List, [], ◌∷◌, Bool, true, false, not, ◌||◌, none, some, Bytes, codes, length, ◌-◌, leb, ◌==◌,
  bytes_eq, contains, split, all_runes, is_alnum, is_blank, index_byte, count_byte, Result, ok,
  ◌>>◌, fail_if,
}
pub mod Scope

pub data ScopeKind : Type 0 where
  exact set known_global unresolved : ScopeKind
  other_kind : Bytes → ScopeKind

unfoldable pub scope_valid : ScopeKind → Bool
scope_valid (other_kind _) = false
scope_valid _ = true

pub data MappingConfidence : Type 0 where
  high medium low unknown unsupported : MappingConfidence
  other_confidence : Bytes → MappingConfidence

unfoldable pub confidence_valid : MappingConfidence → Bool
confidence_valid (other_confidence _) = false
confidence_valid _ = true

pub record IamRequirement : Type 0 where
  pub action : Bytes
  pub resources : List Bytes
  pub scope_kind : ScopeKind
  pub dependent : Bool
  -- `map[string][]string`
  pub condition_hint : List (Bytes × List Bytes)

pub data MappingError : Type 0 where
  no_action action_separator action_syntax bad_scope empty_resource duplicate_resource :
      MappingError
  exact_needs_one set_needs_some global_needs_star : MappingError
  no_service_or_operation bad_confidence no_mapper_version no_requirements bad_evidence :
      MappingError

-- `colon <= 0 || colon == len(s)-1 || strings.Count(s, ":") != 1`.
unfoldable pub separator_misplaced : Bytes → Bool
separator_misplaced s = elim (index_byte s b':') [
  | none ↦ true
  | some colon ↦ leb colon 0 || colon == length s - 1 || not (count_byte s b':' == 1)
]

unfoldable pub is_action_char : ℕ → Bool
is_action_char r = is_alnum r || r == b'-' || r == b'*' || r == b'?'

-- The loop over the parts of the action.
unfoldable pub check_parts : List Bytes → Result MappingError (Unit {0})
check_parts [] = ok tt
check_parts (part ∷ parts) =
    let rest = check_parts parts in
    do fail_if (not (all_runes is_action_char part)) action_syntax; rest

-- The loop over the resources; `seen` holds those already met.
unfoldable pub check_resources : List Bytes → List Bytes → Result MappingError (Unit {0})
check_resources seen [] = ok tt
check_resources seen (resource ∷ resources) =
    let rest = check_resources (resource ∷ seen) resources in
    do
      fail_if (length resource == 0) empty_resource
      fail_if (contains seen resource) duplicate_resource
      rest

abbrev pub is_lone_star : List Bytes → Bool
is_lone_star (r ∷ []) = bytes_eq r (codes "*")
is_lone_star _ = false

-- The `switch` on the scope.
unfoldable pub check_scope : ScopeKind → List Bytes → Result MappingError (Unit {0})
check_scope exact resources = fail_if (not (length resources == 1)) exact_needs_one
check_scope set resources = fail_if (length resources == 0) set_needs_some
check_scope known_global resources = fail_if (not (is_lone_star resources)) global_needs_star
check_scope _ resources = ok tt

unfoldable pub validate_requirement : IamRequirement → Result MappingError (Unit {0})
validate_requirement r = do
  fail_if (is_blank r.action) no_action
  fail_if (separator_misplaced r.action) action_separator
  check_parts (split r.action b':')
  fail_if (not (scope_valid r.scope_kind)) bad_scope
  check_resources [] r.resources
  check_scope r.scope_kind r.resources

pub record MappingEvidence : Type 0 where
  pub source : Bytes
  pub field : Bytes
  pub value : Bytes

pub record MappingResult : Type 0 where
  pub service : Bytes
  pub operation : Bytes
  pub requirements : List IamRequirement
  pub mapper_version : Bytes
  pub iam_live_version : Bytes
  pub authorization_data_version : Bytes
  pub confidence : MappingConfidence
  pub evidence : List MappingEvidence

unfoldable pub check_requirements : List IamRequirement → Result MappingError (Unit {0})
check_requirements [] = ok tt
check_requirements (r ∷ rs) = let rest = check_requirements rs in validate_requirement r >> rest

unfoldable pub check_evidence : List MappingEvidence → Result MappingError (Unit {0})
check_evidence [] = ok tt
check_evidence (e ∷ es) =
    let rest = check_evidence es in
    do fail_if (is_blank e.source || is_blank e.field) bad_evidence; rest

unfoldable pub validate_mapping : MappingResult → Result MappingError (Unit {0})
validate_mapping m = do
  fail_if (is_blank m.service || is_blank m.operation) no_service_or_operation
  fail_if (not (confidence_valid m.confidence)) bad_confidence
  fail_if (is_blank m.mapper_version) no_mapper_version
  fail_if (length m.requirements == 0) no_requirements
  check_requirements m.requirements
  check_evidence m.evidence
