-- ===== src/Minzip/Hash.antt =====
-- minzip/Hash.c: a hash table with open addressing and tombstones.
pub mod Table
pub mod Probe
pub mod Load
pub mod Place
pub mod Resize
pub mod Valid
pub mod Lookup
pub mod Remove
mod Tests
pub mod Round
