-- ===== src/Mtd.antt =====
-- mtdutils/mtdutils.c: reading and writing the blocks of a flash partition.
pub mod Device
pub mod Write
pub mod Read
pub mod Chunks
pub mod Verified
pub mod Sound
pub mod RoundTrip
pub mod Unsupported
mod Tests
