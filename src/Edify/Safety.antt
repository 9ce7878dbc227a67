-- ===== src/Edify/Safety.antt =====
-- Which calls of the built-in functions read argv and the script only where they may.
pub mod Rules
pub mod Calls
pub mod Tree
