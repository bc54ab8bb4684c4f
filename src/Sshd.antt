-- ===== src/Sshd.antt =====
-- sshd: the mock SSH server.
pub mod Lifecycle
pub mod Sessions
pub mod HostKeys
pub mod Accept
pub mod Connection
pub mod Shell
mod Tests
