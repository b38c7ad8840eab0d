-- ===== src/Policy/Admission.antt =====
-- internal/policy/engine.go: the inputs that Evaluate admits.
use kordn.Base.{
  ℕ, ◌+◌, List, [], ◌∷◌, Bool, true, not, ◌&&◌, ◌||◌, Bytes, codes, length, ◌==◌, ltb,
  if◌then◌else◌, bytes_eq, contains_any, has_prefix, split_n, any_rune, is_control, valid_string,
  equal_fold, Result, ok, err, ◌>>◌, fail_if,
}
use kordn.AwsRequest.Endpoint.{AwsEndpoint, is_empty, is_global, bool_eq}
use kordn.AwsRequest.Mapping.{IamRequirement, MappingResult}
use kordn.AwsRequest.Request.{DecodedAwsRequest}
use kordn.Policy.Glob.{GlobError, Glob, max_glob_length, compile_glob}
use kordn.Policy.Arn.{Arn, ArnError, max_mapper_text_length, parse_arn}

abbrev pub max_requirements : ℕ
max_requirements = 1000

abbrev pub max_requirement_values : ℕ
max_requirement_values = 1000

abbrev pub max_condition_hint_items : ℕ
max_condition_hint_items = 1000

abbrev pub max_evaluation_combos : ℕ
max_evaluation_combos = 100000

pub data EvaluationError : Type 0 where
  requirements_out_of_bounds mapping_text action_not_concrete too_many_resources : EvaluationError
  too_many_combinations service_disagrees resource_out_of_bounds control_syntax : EvaluationError
  too_many_hints hint_out_of_bounds hint_value scope_disagrees : EvaluationError
  bad_action : GlobError → EvaluationError
  bad_arn : ArnError → EvaluationError

unfoldable pub glob_part : Result GlobError Glob → Result EvaluationError (Unit {0})
glob_part (ok _) = ok tt
glob_part (err e) = err (bad_action e)

unfoldable pub arn_part : Result ArnError Arn → Result EvaluationError (Unit {0})
arn_part (ok _) = ok tt
arn_part (err e) = err (bad_arn e)

-- The loop over the resources of a requirement.
unfoldable pub check_resource_texts : List Bytes → Result EvaluationError (Unit {0})
check_resource_texts [] = ok tt
check_resource_texts (resource ∷ resources) =
    let rest = check_resource_texts resources in
    do
      fail_if
          (length resource == 0
            || ltb max_glob_length (length resource)
            || not (valid_string resource))
          resource_out_of_bounds
      fail_if (any_rune is_control resource) control_syntax
      if has_prefix resource (codes "arn:") then arn_part (parse_arn resource) else ok tt
      rest

unfoldable pub check_hint_values : List Bytes → Result EvaluationError (Unit {0})
check_hint_values [] = ok tt
check_hint_values (value ∷ values) =
    let rest = check_hint_values values in
    do fail_if (ltb max_glob_length (length value) || not (valid_string value)) hint_value; rest

-- The loop over the condition hints, in the order in which the map yields them.
unfoldable pub check_hints : List (Bytes × List Bytes) → Result EvaluationError (Unit {0})
check_hints [] = ok tt
check_hints ((key, values) ∷ hints) =
    let rest = check_hints hints in
    do
      fail_if
          (length key == 0
            || ltb max_glob_length (length key)
            || not (valid_string key)
            || ltb max_requirement_values (length values))
          hint_out_of_bounds
      check_hint_values values
      rest

-- `len(parts) != 2 || (!dependent && !strings.EqualFold(parts[0], service))`.
unfoldable pub service_mismatch : List Bytes → Bool → Bytes → Bool
service_mismatch (service ∷ operation ∷ []) dependent expected =
    not dependent && not (equal_fold service expected)
service_mismatch _ dependent expected = true

-- The loop over the requirements; `combos` counts the resources so far.
unfoldable pub check_requirement_texts :
    Bytes → ℕ → List IamRequirement → Result EvaluationError (Unit {0})
check_requirement_texts service combos [] = ok tt
check_requirement_texts service combos (r ∷ rs) =
    let rest = check_requirement_texts service (combos + length r.resources) rs in
    do
      fail_if
          (length r.action == 0
            || ltb max_glob_length (length r.action)
            || contains_any r.action (codes "*?"))
          action_not_concrete
      glob_part (compile_glob r.action true)
      fail_if (ltb max_requirement_values (length r.resources)) too_many_resources
      fail_if (ltb max_evaluation_combos (combos + length r.resources)) too_many_combinations
      fail_if (service_mismatch (split_n r.action b':' 2) r.dependent service) service_disagrees
      check_resource_texts r.resources
      fail_if (ltb max_condition_hint_items (length r.condition_hint)) too_many_hints
      check_hints r.condition_hint
      rest

unfoldable pub validate_evaluation_input :
    AwsEndpoint → DecodedAwsRequest → MappingResult → Result EvaluationError (Unit {0})
validate_evaluation_input endpoint request mapping = do
  fail_if (length mapping.requirements == 0 || ltb max_requirements (length mapping.requirements))
      requirements_out_of_bounds
  fail_if
      (ltb max_mapper_text_length (length mapping.service)
        || ltb max_mapper_text_length (length mapping.operation)
        || ltb max_mapper_text_length (length mapping.mapper_version))
      mapping_text
  check_requirement_texts mapping.service 0 mapping.requirements
  fail_if
      (not (bool_eq (is_global endpoint) (is_empty request.region))
        || not (bytes_eq endpoint.region request.region))
      scope_disagrees
  ok tt
