-- ===== src/Number/Text.antt =====
-- number.c: numbers from and to text.
pub mod Parse
pub mod Print
pub mod Decimal
pub mod Integer
