-- ===== src/Logging.antt =====
-- internal/logging/logging.go: the log file, its rotation, and its last lines.
pub mod Lines
pub mod Suffix
pub mod Tail
pub mod Reading
pub mod Logger
pub mod Rotation
