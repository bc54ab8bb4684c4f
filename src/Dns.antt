-- ===== src/Dns.antt =====
-- Package dns: the record store (dns/records.go) and the UDP server (dns/server.go).
pub mod Records
pub mod Server
mod Tests
