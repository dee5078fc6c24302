-- ===== src/Pairing.antt =====
-- src/pairing_file.rs: the pairing records in the storage, and the identity of the host.
pub mod Identity
pub mod Persistence
pub mod Finder
pub mod Matching
pub mod Answer
