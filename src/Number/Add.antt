-- ===== src/Number/Add.antt =====
-- number.c: addition and subtraction.
pub mod Defs
pub mod Align
pub mod Combine
pub mod Subtract
pub mod Exact
pub mod Valid
