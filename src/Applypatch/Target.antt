-- ===== src/Applypatch/Target.antt =====
-- applypatch/: how the target is made (GenerateTarget) and what it calls, on a disk.
pub mod Calls
pub mod Runs
pub mod Sinks
pub mod Written
pub mod Image
pub mod Memory
pub mod Chunks
pub mod Space
pub mod Save
pub mod Generate
pub mod Frame
pub mod Expendable
pub mod Spared
pub mod Backup
pub mod Replace
pub mod Attempt
pub mod Room
pub mod Safe
pub mod Lost
pub mod Load
pub mod Whole
pub mod Goes
pub mod Resumed
mod Tests
