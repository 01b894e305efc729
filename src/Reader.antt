-- ===== src/Reader.antt =====
-- c/src/reader.c: row reads and the pool of threads that does them.
pub mod Pool
pub mod Rows
