-- ===== src/Minzip.antt =====
-- minzip/: the hash table of a zip archive's entries.
pub mod Hash
pub mod Zip
