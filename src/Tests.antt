-- ===== src/Tests.antt =====
-- Tests and examples at concrete inputs.
mod Program
mod Globs
mod Engines
mod Caches
mod Policies
mod Wires
mod Bounds
mod Signatures
mod Verifications
mod Signed
mod Pipelines
mod Slots
mod Environments
mod Runs
