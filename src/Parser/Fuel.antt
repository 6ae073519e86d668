-- ===== src/Parser/Fuel.antt =====
-- parse.c: what an operation of the parser leaves as it is, and what it takes from the source.
pub mod Keeps
pub mod Scopes
pub mod Rules
pub mod Calls
pub mod Rounds
pub mod Exprs
pub mod Priority
pub mod Stmts
pub mod Blocks
pub mod Programs
