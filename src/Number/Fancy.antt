-- ===== src/Number/Fancy.antt =====
-- fancy.c, fancy.h: the choice between the multiplications and the divisions of libdeci.
pub mod Spans
pub mod Defs
pub mod Exact
