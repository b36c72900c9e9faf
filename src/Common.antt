-- ===== src/Common.antt =====
-- common_functions.c and common_types.h: the containers and text routines that the server is built on.
mod Tests
pub mod Allocator
pub mod Paths
pub mod Pool
pub mod FragPool
pub mod Pqueue
pub mod Buf
