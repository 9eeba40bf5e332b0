-- ===== src/Tests.antt =====
-- The theorems at concrete inputs, and the platform they run on.
mod Fixtures
mod Policy
mod Media
mod Control
mod Pairing
mod Browser
mod Camera
mod Output
mod Worker
mod Runtime
mod Provider
