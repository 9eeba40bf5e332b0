-- ===== src/Pairing.antt =====
-- crates/omacam-core/src/pairing.rs: the pairing of a phone with the desktop.
pub mod Invitation
pub mod Session
pub mod Validity
pub mod Transcripts
pub mod Approval
pub mod Claims
