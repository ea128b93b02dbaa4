-- ===== src/Http.antt =====
-- The HTTP layer of cntlm-0.92.3/http.c.
pub mod Basic
pub mod Body
pub mod Header
pub mod Chunked
pub mod Receive
pub mod Transfer
