-- ===== src/Net/Http.antt =====
-- source/http.c: a call of the server over a socket. The kernel's sockets and allocators are
-- parameters.
pub mod Request
pub mod Response
pub mod Sockets
pub mod Call
