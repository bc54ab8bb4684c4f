-- ===== src/Httpd.antt =====
-- httpd: the HTTP test server.
pub mod Lifecycle
pub mod Schedules
pub mod Server
pub mod Geo
pub mod Inspector
mod Tests
