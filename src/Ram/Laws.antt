-- ===== src/Ram/Laws.antt =====
-- What each operation of vtfs_ram_impl.c does, on every branch, as a change of the view.
pub mod Lookup
pub mod Named
pub mod Create
pub mod Remove
pub mod Unlink
pub mod Rmdir
pub mod Link
pub mod Grow
pub mod Write
pub mod Read
pub mod Update
pub mod Mount
pub mod Iterate
pub mod RoundTrip
