-- ===== src/Tests/Program.antt =====
-- The definitions that the tests run, on one line each to unfold.
use kordn.Base.{
  bytes_eq, bytes_lt, contains, has_prefix, count_byte, index_byte, has_byte, split_n, split, join,
  replace_front, fold_case, equal_fold, to_lower, to_upper, has_suffix_byte, contains_any,
  two_bytes, three_bytes, four_bytes, decode_rune, runes_from, valid_runes, valid_string, any_value,
  any_rune, all_runes, is_control, is_space, is_digit, is_lower, is_upper, is_alnum, is_blank,
  insert_by, sort_by, itoa, digits,
}
use native.Mathlib.Decide.{ℕ_discrete}
use kordn.Policy.Glob.{
  is_syntax, is_action_rune, lower_byte, ascii_lower, colon_misplaced, validate_glob_pattern,
  compile_glob, first_row, cell, fill_row, fill_rows, run_table, match, match_glob,
  match_action_glob,
}
use kordn.Cache.Requirements.{
  scope_kind_text, bool_text, condition_text, conditions_text, requirement_item, requirements_key,
}
use kordn.Proxy.Limits.{body_limits, with_defaults, too_large, count_values}
use kordn.Sigv4.Query.{cut_part, encode_part, encode_parts, pair_lt, canonical_raw_query}
use kordn.Sigv4.Header.{
  squeeze, normalize_header_value, valid_header_name, valid_header_value, is_lower_hex,
  valid_payload_hash,
}
use kordn.Sigv4.Header.Normal.{is_spaced, is_squeezed, solid}
use kordn.Proxy.Limits
use kordn.Proxy.Limits.Requests.{field_fits, values_in}
use kordn.AwsRequest.Endpoint.Identity.{identity}
use kordn.AwsRequest.Evidence.{
  valid_evidence_service, valid_operation, valid_evidence_operation, check_protocol_evidence,
  check_operation_evidence, validate_evidence, name_unknown, new_decode_failure_error,
  first_failure, evidence_from_error, conflict, merge, attach_evidence,
}
use kordn.AwsError.Denial.{
  token_rune, bounded_token, resolve_reason, resolve_event, check_denial, normalize_denial,
  denial_message, set_body, encode_json, encode_rest_json, encode_query_xml, encode_rest_xml,
  encode_local, encode,
}
use kordn.Sigv4.Escape.{
  is_unreserved, hex_digit, write_escape, hex_value, upper_hex, keep_escape, path_byte,
  canonical_escaped_path, aws_encode, decode_escape, percent_decode_query,
}
use kordn.AwsRequest.Protocol.{
  protocol_text, protocol_supported, scheme_supported, payload_mode_supported,
}
use kordn.AwsRequest.Endpoint.{
  is_global, effective_scope, starts_with_byte, bad_label, is_dns_rune, is_signing_rune,
  check_labels, validate_endpoint_service, validate_signing_service, valid_signing_identity,
  valid_signing_region, validate_endpoint_account_id, validate_host, validate_scope,
  validate_endpoint, same_scope, bool_eq, endpoint_identity_equal,
}
use kordn.AwsRequest.Value.{validate_at, validate_fields, validate_items, validate_value}
use kordn.AwsRequest.Mapping.{
  scope_valid, confidence_valid, separator_misplaced, is_action_char, check_parts, check_resources,
  check_scope, validate_requirement, check_requirements, check_evidence, validate_mapping,
}
use kordn.AwsRequest.Request.{
  validate_caller_account_id, request_endpoint, endpoint_part, parameter_part, check_parameters,
  validate_request,
}
use kordn.AwsError.Reason.{text, all_reason_codes, reason_in, reason_valid}
use kordn.Policy.Arn.{
  identifier_runes, valid_identifier, is_region_rune, valid_region, valid_account, valid_partition,
  is_service_rune, arn_of_parts, parse_arn,
}
use kordn.Policy.Rule.{
  compile_actions, compile_resources, constraint_loop, compile_constraint_set, compile_rule,
  constraint_matches, any_match, rule_has_literal_star, arn_matches, rule_matches,
}
use kordn.Policy.Decision.{
  result_valid, validate_parts, present_parts, validate_input, decision_valid,
}
use kordn.Policy.Scan.{
  poll, add_id, acknowledges, apply_rule, rule_round, scan_rules, close_resource, scan_resource,
  scan_resources, scan_requirements,
}
use kordn.Policy.Verdict.{verdict}
use kordn.Policy.Admission.{
  glob_part, arn_part, check_resource_texts, check_hint_values, check_hints, service_mismatch,
  check_requirement_texts, validate_evaluation_input,
}
use kordn.Policy.Engine.{
  requirement_key, sort_resources, snapshot_requirements, first_unresolved, conclude,
  evaluate_requirements, evaluate_valid, evaluate,
}
use kordn.Policy.Build.{
  distinct_values, normalize_values, canonical_rule, canonical_policy, compile_rules, new_engine,
}
use kordn.Cache.Assoc.{find, delete, put}
use kordn.Cache.Lru.{
  new_lru, find_element, remove_element, get_locked, evict, push_front, add_locked, remove_locked,
  clear_locked, size_locked, snapshot_locked, stats_locked, get, add, remove, size, capacity_of,
  stats, clear, snapshot,
}
use kordn.Cache.Lru.History.{step, run, list_step, list_run}
use kordn.Cache.Keys.{
  canonical_key, hash_key, endpoint_text, leaf_text, operation_text, decision_text, new_run_caches,
  clear_run_caches,
}

unfoldable pub texts : Unit {0}
unfolding bytes_eq bytes_lt contains has_prefix count_byte index_byte has_byte split_n split join
    replace_front fold_case equal_fold to_lower to_upper has_suffix_byte contains_any two_bytes
    three_bytes four_bytes decode_rune runes_from valid_runes valid_string any_value any_rune
    all_runes is_control is_space is_digit is_lower is_upper is_alnum is_blank insert_by sort_by
texts = tt

unfoldable pub globs : Unit {0}
unfolding texts is_syntax is_action_rune lower_byte ascii_lower colon_misplaced
    validate_glob_pattern compile_glob first_row cell fill_row fill_rows run_table match match_glob
    match_action_glob
globs = tt

unfoldable pub requests : Unit {0}
unfolding texts protocol_supported scheme_supported payload_mode_supported is_global effective_scope
    starts_with_byte bad_label is_dns_rune is_signing_rune check_labels validate_endpoint_service
    validate_signing_service valid_signing_identity valid_signing_region
    validate_endpoint_account_id validate_host validate_scope validate_endpoint same_scope bool_eq
    endpoint_identity_equal validate_at validate_fields validate_items validate_value scope_valid
    confidence_valid separator_misplaced is_action_char check_parts check_resources check_scope
    validate_requirement check_requirements check_evidence validate_mapping
    validate_caller_account_id request_endpoint endpoint_part parameter_part check_parameters
    validate_request text all_reason_codes reason_in reason_valid
requests = tt

unfoldable pub rules : Unit {0}
unfolding globs requests identifier_runes valid_identifier is_region_rune valid_region valid_account
    valid_partition is_service_rune arn_of_parts parse_arn compile_actions compile_resources
    constraint_loop compile_constraint_set compile_rule constraint_matches any_match
    rule_has_literal_star arn_matches rule_matches
rules = tt

unfoldable pub engines : Unit {0}
unfolding rules result_valid validate_parts present_parts validate_input decision_valid poll add_id
    acknowledges apply_rule rule_round scan_rules close_resource scan_resource scan_resources
    scan_requirements verdict glob_part arn_part check_resource_texts check_hint_values check_hints
    service_mismatch check_requirement_texts validate_evaluation_input requirement_key
    sort_resources snapshot_requirements first_unresolved conclude evaluate_requirements
    evaluate_valid evaluate
engines = tt

unfoldable pub builds : Unit {0}
unfolding engines distinct_values normalize_values canonical_rule canonical_policy compile_rules
    new_engine
builds = tt

unfoldable pub caches : Unit {0}
unfolding texts ℕ_discrete itoa digits find delete put new_lru find_element remove_element
    get_locked evict push_front add_locked remove_locked clear_locked size_locked snapshot_locked
    stats_locked get add remove size capacity_of stats clear snapshot step run list_step list_run
    canonical_key hash_key endpoint_text leaf_text operation_text decision_text new_run_caches
    clear_run_caches
caches = tt

unfoldable pub wires : Unit {0}
unfolding requests itoa digits protocol_text valid_evidence_service valid_operation
    valid_evidence_operation check_protocol_evidence check_operation_evidence validate_evidence
    name_unknown new_decode_failure_error first_failure evidence_from_error conflict merge
    attach_evidence token_rune bounded_token resolve_reason resolve_event check_denial
    normalize_denial denial_message set_body encode_json encode_rest_json encode_query_xml
    encode_rest_xml encode_local encode is_unreserved hex_digit write_escape hex_value upper_hex
    keep_escape path_byte canonical_escaped_path aws_encode decode_escape percent_decode_query
wires = tt

unfoldable pub bounds : Unit {0}
unfolding caches wires squeeze normalize_header_value valid_header_name valid_header_value
    is_lower_hex valid_payload_hash is_spaced is_squeezed solid cut_part encode_part encode_parts
    pair_lt canonical_raw_query scope_kind_text bool_text condition_text conditions_text
    requirement_item requirements_key body_limits with_defaults too_large count_values
    Limits.validate_request field_fits values_in identity
bounds = tt
