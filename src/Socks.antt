-- ===== src/Socks.antt =====
-- The SOCKS5 service: `socks5_thread` of cntlm-0.92.3/main.c, with `host_connect` of
-- cntlm-0.92.3/direct.c, from the version of the client to the tunnel.
pub mod Dialogue
pub mod Session
pub mod Guard
pub mod Service
