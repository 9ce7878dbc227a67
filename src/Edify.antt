-- ===== src/Edify.antt =====
-- edify/: the evaluator of updater scripts (expr.c, expr.h) and its table of functions.
pub mod Machine
pub mod Strtol
pub mod Args
pub mod Builtins
pub mod Expr
pub mod Algebra
pub mod Concat
pub mod Table
pub mod Safety
pub mod Decimal
pub mod Assert
mod Tests
mod Examples
