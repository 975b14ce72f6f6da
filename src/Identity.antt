-- ===== src/Identity.antt =====
-- identity.rs: the documents by which a node is known, and the manager that keeps them.
pub mod Documents
pub mod Facts
pub mod Checks
pub mod Fetch
pub mod Revocations
pub mod Envelope
pub mod Chains
pub mod Manager
