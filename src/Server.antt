-- ===== src/Server.antt =====
-- The event loop's structures. (core_server.c)
mod Tests
mod PoolTests
pub mod Keepalive
pub mod Limits
pub mod Memcache
pub mod Requests
pub mod Select
pub mod Sweep
