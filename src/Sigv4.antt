-- ===== src/Sigv4.antt =====
-- internal/sigv4: the canonical form of a signed request, its body, and the verification of its
-- signature.
pub mod Escape
pub mod Query
pub mod Header
pub mod Request
pub mod Authorization
pub mod Canonical
pub mod Body
pub mod Inbound
pub mod Verifier
pub mod Target
pub mod Claims
pub mod Dates
pub mod Verify
