-- ===== src/Tests.antt =====
-- Runs of the definitions at concrete inputs, and the theorems applied there.
mod Lists
mod Texts
mod Codecs
mod Access
mod Messages
mod Services
mod Bodies
mod Handshakes
mod Tunnels
mod Responses
mod Configs
mod Relays
mod Logins
mod Listening
mod Webs
