-- ===== src/Runtime.antt =====
-- internal/runtime: the environment of the child process, and the proxy settings of its parent.
pub mod Environment
pub mod Capture
