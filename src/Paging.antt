-- ===== src/Paging.antt =====
-- One page of a large result with memory for one page: the bounded heaps of
-- server/internal/api/merge.go and server/internal/indexes/manager.go.
pub mod Sort
pub mod Heap
pub mod Distinct
