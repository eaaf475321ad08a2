-- ===== src/Ram/Safety.antt =====
-- Sequences of calls to the storage, mounting and unmounting included.
pub mod Requests
mod Keeps
pub mod Calls
pub mod Sessions
