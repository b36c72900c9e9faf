-- ===== src/Http.antt =====
-- core_http.c: requests, from the bytes that arrive to the bytes that leave.
mod Tests
pub mod Args
pub mod Chars
pub mod Headers
pub mod Hex
pub mod Uri
pub mod Send
