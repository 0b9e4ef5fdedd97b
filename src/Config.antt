-- ===== src/Config.antt =====
-- internal/config/config.go: the configuration documents, their defaults, their validation and
-- their storage.
pub mod Types
pub mod Clone
pub mod Defaults
pub mod Validation
pub mod Documents
pub mod Raw
pub mod Storage
pub mod Pointers
