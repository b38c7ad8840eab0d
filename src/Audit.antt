-- ===== src/Audit.antt =====
-- internal/audit: the events of the audit log, and what they reveal of resources.
pub mod Event
pub mod Validation
pub mod Redact
