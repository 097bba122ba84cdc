-- ===== src/Indexes/Compact/Kept.antt =====
-- server/internal/indexes/manager.go: what a compacted shard holds.
use simple_logging.Prelude.{
  ℕ, ◌+◌, ◌<◌, ◌≡◌, refl, ◌∙◌, true, false, List, [], ◌∷◌, ◌++◌, Option, none, some, ◌==◌,
  if◌then◌else◌, ok, length, length-append, All, Bool-cases, inl, inr, ◌⊎◌, arith,
}
use simple_logging.Indexes.Reference.{Reference, append_reference, shard_magic}
use simple_logging.Indexes.Reference.RoundTrip.{Fits}
use simple_logging.Indexes.Reference.Scan.{
  append_all, visit_all, record_bytes, encode_reference-record_bytes,
}
use simple_logging.Indexes.Available.{
  Files, FileSizes, IsCurrent, is_available, reference_available, reference_available-is_available,
}
use simple_logging.Indexes.Page.Spec.{Stores}
use simple_logging.Indexes.Compact.{CompactScan, visit_compact, compact_shard}

-- The shard's file if the scan ended here.
abbrev result_of : CompactScan → Option (List ℕ)
result_of s = if s.retained == 0 then none else some s.temp

-- The temporary file is empty exactly as long as nothing is retained.
abbrev IsFilled : CompactScan → Type 0
IsFilled s = ((s.retained ≡ 0) × (s.temp ≡ [])) ⊎ ((0 < s.retained) × (0 < length s.temp))

module _ (logs_root : List ℕ) (files : Files) where
  -- The references whose lines are still there.
  unfoldable pub kept : List Reference → List Reference
  kept [] = []
  kept (r ∷ rs) = if is_available logs_root files r then r ∷ kept rs else kept rs

  -- The state behind a retained reference, and that the shard is appended to.
  retained_step :
      (s : CompactScan) (r : Reference)
      → IsFilled s
      → Fits r
      → (reference_available logs_root files r s.file_sizes).0 ≡ true
      → (t : CompactScan) × (visit_compact logs_root files s r ≡ ok t)
        × (append_reference (result_of s) r ≡ ok (result_of t))
        × IsFilled t
        × (t.file_sizes ≡ (reference_available logs_root files r s.file_sizes).1)
  unfolding visit_compact append_reference
  retained_step s r (inl (n, e)) h a =
      let zero_now : (s.retained == 0) ≡ true = ground arith in
      let more : (s.retained + 1 == 0) ≡ false = ground arith in
      (
        record {
          temp = shard_magic ++ record_bytes r;
          retained = s.retained + 1;
          file_sizes = (reference_available logs_root files r s.file_sizes).1;
        },
        rw (visit_compact, a, zero_now, encode_reference-record_bytes r true h, e) refl,
        rw (zero_now, encode_reference-record_bytes r true h, more) refl,
        inr (omega arith, omega arith),
        refl,
      )
  retained_step s r (inr (n, l)) h a =
      let later : (s.retained == 0) ≡ false = ground arith in
      let more : (s.retained + 1 == 0) ≡ false = ground arith in
      let nonempty : (length s.temp == 0) ≡ false = ground arith in
      (
        record {
          temp = s.temp ++ record_bytes r;
          retained = s.retained + 1;
          file_sizes = (reference_available logs_root files r s.file_sizes).1;
        },
        rw (visit_compact, a, later, encode_reference-record_bytes r false h) refl,
        rw (later, nonempty, encode_reference-record_bytes r false h, more) refl,
        inr (omega arith, omega (arith, length-append s.temp (record_bytes r))),
        refl,
      )

  visit_all-compact :
      (rs : List Reference) (s : CompactScan)
      → IsFilled s
      → All Fits rs
      → IsCurrent logs_root files s.file_sizes
      → (t : CompactScan) × (visit_all (visit_compact logs_root files) rs s ≡ ok t)
        × (append_all (result_of s) (kept rs) ≡ ok (result_of t))
        × IsCurrent logs_root files t.file_sizes
  unfolding visit_all append_all kept visit_compact reference_available
  visit_all-compact [] s f h c = (s, refl, refl, c)
  visit_all-compact (r ∷ rs) s f (h, hs) c =
      let (same, current) = reference_available-is_available logs_root files r s.file_sizes c in
      elim (Bool-cases (is_available logs_root files r)) [
        | inl there ↦
            let (t, e, appended, filled, sizes) = retained_step s r f h (same ∙ there) in
            let (u, e', rest, current') = visit_all-compact rs t filled hs (rw sizes current) in
            (u, rw e e', rw (there, appended) rest, current')
        | inr gone ↦
            let t : CompactScan = record s {
              file_sizes = (reference_available logs_root files r s.file_sizes).1;
            } in
            let skipped : visit_compact logs_root files s r ≡ ok t =
              rw (visit_compact, same ∙ gone) refl in
            let (u, e', rest, current') = visit_all-compact rs t f hs current in
            (u, rw skipped e', rw gone rest, current')
      ]

  -- For a shard file whose scan visits given references, all of which fit the record format, and a
  -- table of file sizes that agrees with the files: compacting the shard succeeds on a working
  -- file system, gives the file that appending the references whose lines are still there to a new
  -- shard gives, in their order, or none if there is no such reference, and the table still
  -- agrees.
  pub compact_shard-kept :
      (file : List ℕ) (rs : List Reference) (sizes : FileSizes)
      → Stores (some file) rs
      → All Fits rs
      → IsCurrent logs_root files sizes
      → (shard : Option (List ℕ)) × (sizes' : FileSizes) × (compact_shard logs_root files
            (some file)
            sizes
          ≡ ok (shard, sizes'))
        × (append_all none (kept rs) ≡ ok shard)
        × IsCurrent logs_root files sizes'
  unfolding compact_shard
  compact_shard-kept file rs sizes stores fits c =
      let empty : CompactScan = record { temp = []; retained = 0; file_sizes = sizes } in
      let (t, e, appended, c') = visit_all-compact rs empty (inl (refl, refl)) fits c in
      (
        result_of t,
        t.file_sizes,
        rw (stores CompactScan (visit_compact logs_root files) empty, e) refl,
        appended,
        c',
      )
