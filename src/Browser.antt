-- ===== src/Browser.antt =====
-- crates/omacam-core/src/browser.rs: the session of a phone's browser.
pub mod Invitation
pub mod Session
pub mod Ceremony
pub mod Validity
