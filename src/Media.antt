-- ===== src/Media.antt =====
-- crates/omacam-core/src/media.rs: bounded framing of the media and control records that go to
-- the output worker.
pub mod Wire
pub mod Fields
pub mod Hex
pub mod Output
pub mod Stream
