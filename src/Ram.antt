-- ===== src/Ram.antt =====
-- source/impl/ram/vtfs_ram_impl.c: the storage that keeps everything in kernel memory.
pub mod State
pub mod Find
pub mod Payload
pub mod Mount
pub mod Entries
pub mod Links
pub mod Content
pub mod WellFormed
pub mod View
pub mod Laws
pub mod Safety
