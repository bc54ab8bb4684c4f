-- ===== src/Logger.antt =====
-- Package logger (logger/logger.go): the shared log with rotation and switches for its modules.
pub mod State
pub mod Switches
pub mod Write
pub mod Lines
pub mod Tail
pub mod Init
mod Tests
