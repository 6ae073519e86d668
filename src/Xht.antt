-- ===== src/Xht.antt =====
-- xht.c, xht.h: the hash table. Its items lie in an array in the order of their insertion; a bucket
-- is the index of the first item of a chain, and an item has the index of the next one.
pub mod Defs
