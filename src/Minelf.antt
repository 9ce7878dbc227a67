-- ===== src/Minelf.antt =====
-- minelf/: the retouched addresses of ELF files.
pub mod Entry
pub mod Encoded
pub mod Retouch
pub mod Masked
mod Tests
