-- ===== src/AwsRequest.antt =====
-- internal/awsrequest: the endpoint, protocol, request and mapping contracts that the other
-- packages share.
pub mod Protocol
pub mod Endpoint
pub mod Authority
pub mod Value
pub mod Mapping
pub mod Request
pub mod Verified
pub mod Evidence
