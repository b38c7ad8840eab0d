-- ===== src/Policy.antt =====
-- internal/policy: the policy engine.
pub mod Glob
pub mod Arn
pub mod Rule
pub mod Decision
pub mod Scan
pub mod Verdict
pub mod Admission
pub mod Engine
pub mod Build
