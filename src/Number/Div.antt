-- ===== src/Number/Div.antt =====
-- number.c: quotients and remainders.
pub mod Defs
pub mod Whole
pub mod Truncate
pub mod Exact
