-- ===== src/Minzip/Zip.antt =====
-- minzip/Zip.c: the entries of a zip archive, how they are found and how they are extracted.
pub mod Directory
pub mod Order
pub mod Sorted
pub mod Parse
pub mod Open
pub mod Index
pub mod Find
pub mod Path
pub mod Extract
pub mod Contiguous
mod Tests
