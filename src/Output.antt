-- ===== src/Output.antt =====
-- crates/omacam-output: the process that owns the virtual camera.
pub mod Config
pub mod Mux
pub mod Input
pub mod Forward
pub mod Cli
pub mod Service
