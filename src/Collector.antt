-- ===== src/Collector.antt =====
-- server/internal/collector: the streams that copy the containers' logs to the store.
pub mod Pods
pub mod ApiStream
pub mod Detect
pub mod Line
pub mod Probe
pub mod Streams
pub mod Tail
mod Tests
