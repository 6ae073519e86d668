-- ===== src/Str.antt =====
-- str.c, str.h, hash.h: strings with a cached hash, a capacity and a reference count.
pub mod Defs
pub mod Append
pub mod Order
