-- ===== src/Indexes/Rebuild.antt =====
-- server/internal/indexes/manager.go: `rebuildLocked`, which fills a new index from the stored segments,
-- and the indexing of single lines by `ObserveLineAt`. An index is a function from a shard's number
-- to the bytes of its file. A result keeps the index also behind an error.
pub mod Segment
pub mod Walk
pub mod Shards
use simple_logging.Prelude.{
  ℕ, zero, suc, ◌+◌, ◌%◌, ◌^◌, ◌≡◌, refl, Bool, true, false, not, ◌&&◌, ◌||◌, List, [], ◌∷◌, ◌++◌,
  Option, none, some, length, ◌==◌, if◌then◌else◌, Result, ok, err,
}
use simple_logging.Prelude.Text.{codes, has_prefix, trim_right}
use simple_logging.Prelude.Bufio.{raw_line, is_complete}
use simple_logging.Storage.Layout.{DirEntry, list_dirs, list_segments}
use simple_logging.Indexes.Reference.{Reference, Error, io, stuck, append_reference, u32}
use simple_logging.Indexes.Available.{Files, join}
use simple_logging.Indexes.Field.{Codecs, Place, indexed_value, shard_number, line_reference}

abbrev pub Index : Type 0
Index = ℕ → Option (List ℕ)

-- A step on a state that may fail, and one step after the other until one fails.
abbrev pub Outcome : Type 0 → Type 0
Outcome S = S × Option Error

abbrev pub and_then : {S : Type 0} → Outcome S → (S → Outcome S) → Outcome S
and_then (s, none) f = f s
and_then (s, some e) f = (s, some e)

abbrev pub each : {A S : Type 0} → (A → S → Outcome S) → List A → S → Outcome S
each f [] s = (s, none)
each f (a ∷ as') s = and_then (f a s) (each f as')

-- What the operating system answers: the entries of a directory, `none` where it does not exist,
-- the content of a file that can be read, and whether a shard can be appended to.
pub record Disk : Type 0 where
  pub read_dir : List (List ℕ) → Result Error (Option (List DirEntry))
  pub files : Files
  pub can_append : ℕ → Bool

unfoldable pub set_shard : ℕ → Option (List ℕ) → Index → Index
set_shard n file index m = if n == m then file else index m

-- filepath.Join(m.logsRoot, namespace, pod, container, segment+".log")
abbrev pub place_path : List ℕ → Place → List ℕ
place_path logs_root at =
    join (join (join (join logs_root at.namespace) at.pod) at.container)
      (at.segment ++ codes ".log")

-- What a directory lists, and a visit of each name. A directory that does not exist is empty.
module _ (disk : Disk) where
  abbrev pub listed : (List DirEntry → List (List ℕ)) → List (List ℕ) → Result Error (List (List ℕ))
  listed names path = elim (disk.read_dir path) [
    | err e ↦ err e
    | ok found ↦ ok (elim found [ none ↦ [] | some entries ↦ names entries ])
  ]

  abbrev pub each_listed :
      (List DirEntry → List (List ℕ))
      → List (List ℕ)
      → (List ℕ → Index → Outcome Index)
      → Index
      → Outcome Index
  each_listed names path visit index = elim (listed names path) [
    | err e ↦ (index, some e)
    | ok found ↦ each visit found index
  ]

abbrev pub segment_place : List ℕ → List ℕ → List ℕ → List ℕ → Place
segment_place namespace pod container segment = record {
  namespace = namespace;
  pod = pod;
  container = container;
  segment = segment;
}

-- The namespaces: directories whose names have no dot in front.
unfoldable pub namespaces_in : List DirEntry → List (List ℕ)
namespaces_in [] = []
namespaces_in (e ∷ es) =
    let rest = namespaces_in es in
    if not e.is_dir || has_prefix e.name (codes ".") then rest else e.name ∷ rest

module _ (c : Codecs) (disk : Disk) where
  -- `appendReferenceLocked`
  unfoldable pub append_to : Reference → Index → Outcome Index
  append_to r index =
      let n = shard_number c r.value in
      if not (disk.can_append n) then (index, some io) else elim (append_reference (index n) r) [
        | err e ↦ (index, some e)
        | ok file ↦ (set_shard n file index, none)
      ]

  module _ (key : List ℕ) where
    -- What is done with a line: nothing, if it has no value for the key.
    unfoldable pub index_line : Place → ℕ → ℕ → List ℕ → Index → Outcome Index
    index_line at offset line_length line index = elim (indexed_value c line key) [
      | none ↦ (index, none)
      | some value ↦ append_to (line_reference c at line value offset line_length) index
    ]

    -- `ObserveLineAt` for one key: an error is ignored.
    unfoldable pub observe_line : Place → ℕ → ℕ → List ℕ → Index → Index
    observe_line at offset line_length line index = (index_line at offset line_length line index).0

    -- The loop of `backfillFileLocked`.
    unfoldable pub backfill_lines : ℕ → Place → ℕ → List ℕ → Index → Outcome Index
    backfill_lines zero at offset bytes index = (index, some stuck)
    backfill_lines (suc fuel) at offset bytes index =
        let raw = (raw_line bytes).0 in
        let line = trim_right raw in
        let rest = λ (index' : Index).
          backfill_lines fuel at ((offset + length raw) % 2 ^ 64) (raw_line bytes).1 index' in
        if length raw == 0
        then (index, none)
        else and_then (index_line at offset (u32 (length line)) line index)
            (λ index'. if is_complete raw then rest index' else (index', none))

    module _ (logs_root : List ℕ) where
      -- `backfillFileLocked`
      unfoldable pub backfill_file : Place → Index → Outcome Index
      unfolding backfill_lines
      backfill_file at index = elim (disk.files (place_path logs_root at)) [
        | none ↦ (index, some io)
        | some bytes ↦ backfill_lines (suc (length bytes)) at 0 bytes index
      ]

      -- The loops of `rebuildLocked`.
      module _ (parse_date : List ℕ → Option ℕ) where
        unfoldable pub rebuild_container : List ℕ → List ℕ → List ℕ → Index → Outcome Index
        rebuild_container namespace pod container =
            each_listed disk (list_segments parse_date) (namespace ∷ pod ∷ container ∷ [])
              (λ segment. backfill_file (segment_place namespace pod container segment))

        unfoldable pub rebuild_pod : List ℕ → List ℕ → Index → Outcome Index
        rebuild_pod namespace pod =
            each_listed disk list_dirs (namespace ∷ pod ∷ []) (rebuild_container namespace pod)

        unfoldable pub rebuild_namespace : List ℕ → Index → Outcome Index
        rebuild_namespace namespace =
            each_listed disk list_dirs (namespace ∷ []) (rebuild_pod namespace)

        -- `rebuildLocked`; `left` is what a failed removal of the index leaves of it.
        unfoldable pub rebuild : Option Index → Outcome Index
        rebuild (some left) = (left, some io)
        rebuild none = each_listed disk namespaces_in [] rebuild_namespace (λ n. none)
