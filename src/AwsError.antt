-- ===== src/AwsError.antt =====
-- internal/awserror: the stable reasons of local failures and the denial responses.
pub mod Reason
pub mod Denial
