-- ===== src/Indexes.antt =====
-- server/internal/indexes/manager.go: inverted indexes from JSON field values to stored lines.
pub mod Reference
pub mod Available
pub mod Page
pub mod Compact
pub mod Field
pub mod Rebuild
pub mod Keys
pub mod Values
mod Tests
