-- ===== src/Indexes/Compact.antt =====
-- server/internal/indexes/manager.go: `Compact`, which rewrites shards without the references whose
-- lines are gone.
pub mod Kept
use simple_logging.Prelude.{
  ℕ, ◌+◌, ◌≡◌, Bool, true, false, not, List, [], ◌∷◌, ◌++◌, Option, none, some, ◌==◌, if◌then◌else◌,
  Result, ok, err, ◌>>=◌,
}
use simple_logging.Indexes.Reference.{Reference, Error, encode_reference, scan_shard}
use simple_logging.Indexes.Available.{Files, FileSizes, reference_available}

-- What the callback of `Compact` captures: the temporary file, the count, and the sizes.
pub record CompactScan : Type 0 where
  pub temp : List ℕ
  pub retained : ℕ
  pub file_sizes : FileSizes

module _ (logs_root : List ℕ) (files : Files) where
  unfoldable pub visit_compact : CompactScan → Reference → Result Error CompactScan
  visit_compact s r =
      let (available, sizes) = reference_available logs_root files r s.file_sizes in
      if not available
      then ok (record s { file_sizes = sizes })
      else (encode_reference r (s.retained == 0) >>= λ bytes.
          ok (record { temp = s.temp ++ bytes; retained = s.retained + 1; file_sizes = sizes }))

  -- One shard, `none` if it has no file, and the sizes for the next one. The file system works.
  unfoldable pub compact_shard :
      Option (List ℕ) → FileSizes → Result Error (Option (List ℕ) × FileSizes)
  unfolding visit_compact
  compact_shard none sizes = ok (none, sizes)
  compact_shard (some file) sizes =
      scan_shard visit_compact (some file) (record { temp = []; retained = 0; file_sizes = sizes })
      >>= λ s. ok (if s.retained == 0 then none else some s.temp, s.file_sizes)

  -- All shards in the order of the loops. An error leaves it and the later ones as they were.
  unfoldable pub compact_shards :
      List (Option (List ℕ)) → FileSizes → List (Option (List ℕ)) × Option Error
  unfolding compact_shard
  compact_shards [] sizes = ([], none)
  compact_shards (shard ∷ shards) sizes = elim (compact_shard shard sizes) [
    | err e ↦ (shard ∷ shards, some e)
    | ok (shard', sizes') ↦
        let (rest, error) = compact_shards shards sizes' in (shard' ∷ rest, error)
  ]
