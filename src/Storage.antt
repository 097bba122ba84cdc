-- ===== src/Storage.antt =====
-- server/internal/storage: the log files on disk.
pub mod Layout
pub mod Lines
pub mod Writer
pub mod DiskGuard
pub mod Retention
mod Tests
