-- ===== src/Tests/Signatures.antt =====
-- What the tests of the verifier unfold.
use kordn.Tests.Program.{bounds}
use kordn.Base.{cut, split_pair, fold_case, equal_fold, space_width, trim_space}
use kordn.AwsRequest.Authority.{
  port_value, parse_port, cut_port, host_and_port, trim_root, decimal, is_octet, is_ip,
  check_host_labels, normalize_host, normalize_endpoint_host,
}
use kordn.AwsRequest.Verified.{check_endpoint, validate_verified}
use kordn.Sigv4.Request.{scan_header, request_header, header_values}
use kordn.Sigv4.Authorization.{
  item_of, is_hex, parse_items, parse_authorization, credential_of_parts, parse_credential,
  check_names, parse_signed_headers,
}
use kordn.Sigv4.Canonical.{
  escape_path, unescapes_to, escaped_path, canonical_uri, host_field, signed_host, one_value,
  announced_length, absent_field, signed_header_value, header_lines, canonical_headers, hex_encode,
  canonical_of, build_canonical_request,
}
use kordn.Sigv4.Body.{
  cleanup, resliced, create_spool, store, after_read, after_store, take_bytes, read_round,
  read_loop, or_default, is_negative, body_of, finish_body, read_body, new_body,
}
use kordn.Sigv4.Inbound.{
  close_body, close_request_body, is_readable, capture_new, capture_request_body, media_type,
  is_event_stream_content_type, check_content_type, check_payload_hash, payload_hash_of,
  payload_value, hex_decode, same_digest, match_payload, payload,
}
use kordn.Sigv4.Verifier.{validate_fake_credential, new_verifier}
use kordn.Sigv4.Target.{
  names_host, verify_request_endpoint, parts_presigned, query_signing_present, check_target,
}
use kordn.Sigv4.Claims.{
  other_algorithm, authorization_field, token_is, valid_scope_region, valid_scope_service,
  verify_signing_scope, read_claim, check_claim, authenticate,
}
use kordn.Sigv4.Dates.{http_date, signing_time_of, verify_signed_host, check_time, check_signed}
use kordn.Sigv4.Verify.{
  signing_key, string_to_sign, signature_is, check_signature, header_get, infer_protocol,
  verify_head, reject, verify_payload, verify,
}

unfoldable pub signatures : Unit {0}
unfolding bounds cut split_pair fold_case equal_fold space_width trim_space port_value parse_port
    cut_port host_and_port trim_root decimal is_octet is_ip check_host_labels normalize_host
    normalize_endpoint_host check_endpoint validate_verified scan_header request_header
    header_values item_of is_hex parse_items parse_authorization credential_of_parts
    parse_credential check_names parse_signed_headers escape_path unescapes_to escaped_path
    canonical_uri host_field signed_host one_value announced_length absent_field signed_header_value
    header_lines canonical_headers hex_encode canonical_of build_canonical_request cleanup resliced
    create_spool store after_read after_store take_bytes read_round read_loop or_default is_negative
    body_of finish_body read_body new_body close_body close_request_body is_readable capture_new
    capture_request_body media_type is_event_stream_content_type check_content_type
    check_payload_hash payload_hash_of payload_value hex_decode same_digest match_payload payload
    validate_fake_credential new_verifier names_host verify_request_endpoint parts_presigned
    query_signing_present check_target other_algorithm authorization_field token_is
    valid_scope_region valid_scope_service verify_signing_scope read_claim check_claim authenticate
    http_date signing_time_of verify_signed_host check_time check_signed signing_key string_to_sign
    signature_is check_signature header_get infer_protocol verify_head reject verify_payload verify
signatures = tt
