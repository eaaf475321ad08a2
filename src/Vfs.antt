-- ===== src/Vfs.antt =====
-- source/vtfs.c: the functions that the kernel calls, over a table of storage operations.
pub mod Files
pub mod Dentries
