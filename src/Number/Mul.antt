-- ===== src/Number/Mul.antt =====
-- number.c: products and powers.
pub mod Defs
pub mod Normalize
pub mod Product
pub mod Power
