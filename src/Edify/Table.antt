-- ===== src/Edify/Table.antt =====
-- edify/expr.c: the table of functions. RegisterFunction appends to an array that grows,
-- FinishRegistration sorts it by name, and FindFunction searches it by halving.
pub mod Search
pub mod Slots
pub mod Registry
pub mod Correct
