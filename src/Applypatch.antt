-- ===== src/Applypatch.antt =====
-- applypatch/: binary patches, and which file is patched.
pub mod Offsets
pub mod Model
pub mod Bounds
pub mod Layout
pub mod Words
pub mod Digest
pub mod Choice
pub mod Resume
pub mod Spelled
pub mod Checked
pub mod Partition
pub mod Target
mod Tests
