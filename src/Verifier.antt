-- ===== src/Verifier.antt =====
-- verifier.c: the whole-file signature of an update package.
pub mod Model
pub mod Hashing
pub mod Marker
pub mod Verdict
pub mod Signing
mod Tests
