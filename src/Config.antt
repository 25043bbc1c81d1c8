-- ===== src/Config.antt =====
-- internal/config/config.go: the configuration, its defaults and the lookup of projects.
pub mod Value
pub mod Types
pub mod Defaults
pub mod Manager
pub mod Reload
