-- ===== src/Recovery.antt =====
-- recovery.c: the command line of a recovery run and the bootloader message that keeps it.
pub mod Message
pub mod Tokens
pub mod Args
pub mod Restart
pub mod Found
mod Tests
