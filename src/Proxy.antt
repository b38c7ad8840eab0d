-- ===== src/Proxy.antt =====
-- internal/proxy: the limits, the pipeline and the connection slots of the local proxy.
pub mod Limits
pub mod Slots
pub mod Server
pub mod Failures
pub mod Replies
pub mod Lookups
pub mod Forwarding
pub mod Pipeline
