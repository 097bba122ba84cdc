-- ===== src/Indexes/Available.antt =====
-- server/internal/indexes/manager.go: which references still point into a stored file, and
-- `readReferencedLine`. The files are a function from a path to their bytes; the sizes that one call
-- looks up are kept in `fileSizes`, where -1 (here `none`) is a file that could not be read.
use simple_logging.Prelude.{
  ℕ, ◌+◌, ◌%◌, ◌^◌, ◌≡◌, refl, Bool, false, not, ◌&&◌, List, [], ◌∷◌, ◌++◌, Option, none, some,
  length, ltb, leb, if◌then◌else◌, ◌||◌, All, Option-cases, ap, inl, inr, arith,
}
use simple_logging.Prelude.Text.{codes, text_eq, text_eq_iff}
use simple_logging.Prelude.Slices.{slice}
use simple_logging.Indexes.Reference.{Reference}

abbrev pub Files : Type 0
Files = List ℕ → Option (List ℕ)

abbrev pub FileSizes : Type 0
FileSizes = List (List ℕ × Option ℕ)

-- filepath.Join of clean names.
abbrev pub join : List ℕ → List ℕ → List ℕ
join dir name = dir ++ (codes "/" ++ name)

unfoldable pub reference_path : List ℕ → Reference → List ℕ
reference_path logs_root r =
    join (join (join (join logs_root r.namespace) r.pod) r.container) (r.segment ++ codes ".log")

-- os.Stat(path).Size()
unfoldable pub stat_size : Files → List ℕ → Option ℕ
stat_size files path = elim (files path) [ none ↦ none | some content ↦ some (length content) ]

unfoldable pub cached_size : FileSizes → List ℕ → Option (Option ℕ)
cached_size [] path = none
cached_size ((p, size) ∷ sizes) path = if text_eq p path then some size else cached_size sizes path

-- `ref.Offset >= 0 && ref.Offset + int64(ref.Length) <= size`, in int64s.
unfoldable pub fits_size : Option ℕ → Reference → Bool
fits_size none r = false
fits_size (some size) r =
    let end = (r.offset + r.line_length) % 2 ^ 64 in
    not (leb (2 ^ 63) r.offset) && (leb (2 ^ 63) end || leb end size)

module _ (logs_root : List ℕ) (files : Files) where
  unfoldable pub reference_available : Reference → FileSizes → Bool × FileSizes
  reference_available r sizes =
      let path = reference_path logs_root r in
      elim (cached_size sizes path) [
        | some size ↦ (fits_size size r, sizes)
        | none ↦ (fits_size (stat_size files path) r, (path, stat_size files path) ∷ sizes)
      ]

  -- `readReferencedLine`; `none` is an error.
  unfoldable pub read_referenced_line : Reference → Option (List ℕ)
  read_referenced_line r = elim (files (reference_path logs_root r)) [
    | none ↦ none
    | some content ↦
        if leb (2 ^ 63) r.offset || ltb (length content) (r.offset + r.line_length)
        then none
        else some (slice r.offset (r.offset + r.line_length) content)
  ]

  -- The check without the table of sizes.
  unfoldable pub is_available : Reference → Bool
  is_available r = fits_size (stat_size files (reference_path logs_root r)) r

  -- The sizes in the table are those of the files.
  abbrev pub IsCurrent : FileSizes → Type 0
  IsCurrent sizes = All (λ e. e.1 ≡ stat_size files e.0) sizes

  cached_size-current :
      (sizes : FileSizes) (path : List ℕ) (size : Option ℕ)
      → IsCurrent sizes
      → cached_size sizes path ≡ some size
      → size ≡ stat_size files path
  unfolding cached_size
  cached_size-current [] path size h e = cc
  cached_size-current ((p, z) ∷ sizes) path size h e =
      ground (arith, text_eq_iff p path, cached_size-current sizes path size h.1)

  -- If the table of file sizes agrees with the files, the check of a reference gives the answer of
  -- a check without the table, and the table still agrees afterwards.
  pub reference_available-is_available :
      (r : Reference) (sizes : FileSizes)
      → IsCurrent sizes
      → ((reference_available r sizes).0 ≡ is_available r)
        × IsCurrent (reference_available r sizes).1
  unfolding reference_available is_available
  reference_available-is_available r sizes h =
      let path = reference_path logs_root r in
      elim (Option-cases (cached_size sizes path)) [
        | inl e ↦ rw (e, reference_available) (refl, (refl, h))
        | inr (z, e) ↦
            rw (e, reference_available)
              (ap (λ size. fits_size size r) (cached_size-current sizes path z h e), h)
      ]
