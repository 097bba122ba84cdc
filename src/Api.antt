-- ===== src/Api.antt =====
-- server/internal/api: the RPC handlers that read stored logs.
pub mod Backward
pub mod Chunks
pub mod LiveTail
pub mod Logs
pub mod Merge
pub mod Search
mod Tests
