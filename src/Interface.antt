-- ===== src/Interface.antt =====
-- source/vtfs_interface.h, and the check of source/vtfs.c that both layers call. A 64-bit word
-- (`loff_t`, `size_t`, `ino_t`) is its bit pattern, a number below 2 ^ 64.
mod Defs
pub mod IoParams
unfoldable pub use Defs.*
