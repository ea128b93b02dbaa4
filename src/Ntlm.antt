-- ===== src/Ntlm.antt =====
-- The NTLM messages of cntlm-0.92.3/ntlm.c.
pub mod Buffer
pub mod Request
pub mod Target
pub mod Keys
pub mod Response
