-- ===== src/Dns.antt =====
-- src/dns_parse.rs and src/dns_capture.rs: the names that clients ask for, out of raw packets, and
-- their counts.
pub mod Parse
pub mod Capture
pub mod Loop
pub mod Socket
mod Tests
