-- ===== src/Net.antt =====
-- The storage that lives on a server: source/impl/net and source/http.c.
pub mod Base64
pub mod Encode
pub mod Decode
pub mod Http
pub mod Storage
