-- ===== src/Lib.antt =====
-- Verification of the server of simple-logging (server/internal): a process that stores container logs
-- in one file for each container and UTC day, indexes JSON fields of the lines, deletes old files and
-- serves pages of lines.
--
-- How the parts interact. The collector follows each container's log, joins and stamps its lines and
-- hands them to a segment writer and then to the indexes. The segment writer appends lines to the day files and reports where each
-- line stands; the index stores these locations as references in shard files and reads lines back
-- through them; retention and the disk guard delete day files, after which references to them no
-- longer count; the API pages through a pod's files or through an index.
--
-- Files:
-- - Prelude: shared names and lemmas. Tests (Boolean tests), Lists, Results (value or error), Order
--   (strict weak orders), Int, Text and Spaces (strings as bytes), Bufio (a line of a reader), Bytes (big-endian
--   integers), Slices, Decimal (strconv.Itoa and Atoi),
--   Assoc (maps).
-- - Storage, server/internal/storage. Layout: the listings and meta.json of layout.go, with Layout.Changes
--   and Layout.Facts. Lines: CapLine and ReadCappedLine of lines.go, with Lines.Capped.
--   Writer: SegmentWriter of writer.go as a record and WriteWithLocation as a function of the record,
--   the disk and the system's answers; Writer.Invariant and Writer.Sound have its
--   invariant, Writer.Stored what is on disk.
--   DiskGuard: check of diskguard.go. Retention: sweepPodDirLocked of retention.go, with
--   Retention.Kept; Retention.Tree: sweep and nextDailySweep, with Retention.KeptTree.
-- - Paging: Sort, a sorting function in place of sort.Slice, Heap, the bounded heaps of
--   indexes/manager.go and api/merge.go, and Distinct, heaps without ties.
-- - Indexes, server/internal/indexes/manager.go. Reference: the record format, appendReferenceLocked
--   and scanShardLocked, with Reference.RoundTrip and Reference.Scan. Available: referenceAvailable and
--   readReferencedLine. Page: readReferencePageLocked and GetLogs, with Page.Spec (the pages of the
--   whole sorted result), Page.Walk (a client that follows tokens) and Page.Hits (the lines up to their
--   order). Compact: Compact, with Compact.Kept. Field: what an index reads off a line. Rebuild:
--   rebuildLocked and backfillFileLocked on one index, with Rebuild.Segment, Rebuild.Walk and
--   Rebuild.Shards. Keys: Manager with its manifest, Create, Delete, ObserveLineAt and NewManager, with
--   Keys.KeySet, Keys.Saved and Keys.Steps (the keys over restarts), Keys.Created, Keys.Found, Keys.Timed and
--   Keys.Pages (what is found in a new index, and in which order). Values: ListValues, with Values.Tally and Values.Counted (the entry of a
--   value), Values.Less, Values.Iterated and Values.Listed (its pages).
-- - Api, server/internal/api. Of log_service.go, Backward: scanBackwardInFile, with Backward.Lines. Chunks:
--   chunkReader and findChunkPageStartBefore. Logs: GetLogs for a pod with one container, with
--   Logs.Reader (the lines of a pod as one list), Logs.Pages and Logs.Walk (a client that follows tokens).
--   Merge: mergedLogsPage of workload_service.go with merge.go, and Merge.Page. LiveTail: segmentTail and
--   tailLatestSegment, with LiveTail.Growing. Search: SearchLogs of search_service.go, with Search.Pruned
--   (the segments that the dates leave out) and Search.Found.
-- - Auth, server/internal/auth/basic.go: LoadHTPasswd with Auth.Lines and Auth.Loaded, the credentials'
--   cache and the middleware with Auth.Texts and Auth.Checked.
-- - Config, server/internal/config/config.go: Load, with Config.Bounds.
-- - Collector, server/internal/collector. Pods: what collector.go and owner.go read off a pod. Probe:
--   jsonProbe. Line: parseCRILogLine and storedLine. Detect: detectJsonFromFile and writeLogLine. Tail:
--   the loops of runFileTail, with Tail.Messages (joining the parts of a message) and Tail.Runtime (the
--   bytes that a container runtime writes). ApiStream: streamAPIOnce and runAPIStream, with ApiStream.Copied. Streams: OnAdd,
--   OnDelete and the maps they change, with Streams.Counted.
-- - Modules named Tests run the model at concrete inputs.
--
-- Conventions. Bytes, times and sizes are natural numbers; where the source has machine integers
-- whose range matters the wrap-around is written out (index records, the end of a reference, the
-- length of a written line), int64 values of records are kept as the uint64 that is written. A file is
-- the list of its bytes, none if it is missing. Errors are values. The operating system's answers to
-- a writer's, the guard's and the sweep's calls are arguments, so that theorems hold for all of them.
--
-- Parameters. JSON and base64 for page tokens, time.Parse, bufio.Scanner and the date format of
-- segments are arguments, and so are json.Valid, json.Unmarshal and the clock of the collector, SHA-256 and
-- bcrypt, regular expressions and lower case of a search; the order in which the search workers'
-- results arrive and those in which ListValues iterates its maps are too. The walk over pages assumes that tokens decode to what was encoded and are not empty.
-- container/heap is read by what it promises: Pop removes an element that Less puts first; which of equal ones
-- it removes is not promised, and the program's comparisons of heap elements have no equal ones. sort.Slice
-- leaves the order of equal elements open; the comparisons of index entries and of an index's values have no equal elements.
--
-- Fuel. scanBackwardInFile reads a byte at least in each round, so the offset bounds its rounds; a
-- shard scan consumes four bytes at least for each record, so one more round than the file has bytes is
-- given; the loop of GetLogs consumes a byte for each line, so it gets one more round than the chunks
-- have bytes; a capped read, a drain of the live tail and the reads of a log
-- file get one more round than the input has bytes. That these suffice is part
-- of the theorems about them.
--
-- Not modelled: the selection of search targets, download,
-- waiting for files and events, the migration of the former disk layout,
-- metrics and process wiring. Concurrency is left to the mutexes of the source, under which each
-- operation here is one step; files that are deleted while a request reads them show up as read
-- errors.
pub mod Prelude
pub mod Indexes
pub mod Paging
pub mod Api
pub mod Auth
pub mod Collector
pub mod Config
pub mod Storage
