-- ===== src/Config.antt =====
-- config/config.go: the settings of a service.
mod Tests
pub mod Types
pub mod Validate
pub mod Valid
pub mod Tree
pub mod Env
pub mod Load
