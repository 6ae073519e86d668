-- ===== src/Number/Scale.antt =====
-- number.c: scaling by a power of ten.
pub mod Defs
pub mod Exact
pub mod Word
