-- ===== src/Storage/Retention/KeptTree.antt =====
-- server/internal/storage/retention.go: what a sweep over all namespaces keeps.
use simple_logging.Prelude.{
  ℕ, ◌+◌, ◌≡◌, refl, sym, ap, ◌∙◌, Bool, true, false, not, ◌&&◌, ◌||◌, List, [], ◌∷◌, ◌++◌, Option,
  none, some, length, ltb, ◌==◌, if◌then◌else◌, Bool-cases, and_both, inl, inr, arith,
}
use simple_logging.Storage.Retention.{FileEntry, PodDir}
use simple_logging.Storage.Retention.Kept.{
  pod_current, pod_expired_count, KeepsDir, sweep_pod_dir-kept,
}
use simple_logging.Storage.Retention.Tree.{
  LegacyFile, NamespaceEntry, pod_dir, file, NamespaceDir, is_skipped_dir, remove_if_empty,
  add_some, sweep_pods, sweep_segments, is_old_file, sweep_files, sweep_legacy_files, sweep,
  cutoff_date, legacy_cutoff,
}

-- The files of the former layout that a sweep does not remove, and how many it removes.
unfoldable pub kept_files : ℕ → List NamespaceEntry → List LegacyFile
kept_files cutoff [] = []
kept_files cutoff (pod_dir name p ∷ es) = kept_files cutoff es
kept_files cutoff (file f ∷ es) =
    let rest = kept_files cutoff es in if is_old_file cutoff f then rest else f ∷ rest

unfoldable pub old_count : ℕ → List NamespaceEntry → ℕ
old_count cutoff [] = 0
old_count cutoff (pod_dir name p ∷ es) = old_count cutoff es
old_count cutoff (file f ∷ es) = (if is_old_file cutoff f then 1 else 0) + old_count cutoff es

unfoldable pub tree_kept_files : ℕ → List NamespaceDir → List LegacyFile
tree_kept_files cutoff [] = []
tree_kept_files cutoff (d ∷ ds) = kept_files cutoff d.entries ++ tree_kept_files cutoff ds

unfoldable pub tree_old_count : ℕ → List NamespaceDir → ℕ
tree_old_count cutoff [] = 0
tree_old_count cutoff (d ∷ ds) =
    (if is_skipped_dir d || not d.readable then 0 else old_count cutoff d.entries)
    + tree_old_count cutoff ds

module _ (segment_date : List ℕ → Option ℕ) (cutoff : ℕ) where
  -- All files of pods that are no expired segments.
  unfoldable pub entries_current : List NamespaceEntry → List FileEntry
  entries_current [] = []
  entries_current (pod_dir name p ∷ es) =
      pod_current segment_date cutoff p.containers ++ entries_current es
  entries_current (file f ∷ es) = entries_current es

  unfoldable pub tree_current : List NamespaceDir → List FileEntry
  tree_current [] = []
  tree_current (d ∷ ds) = entries_current d.entries ++ tree_current ds

  -- The segments that a sweep can delete.
  unfoldable pub entries_expired_count : List NamespaceEntry → ℕ
  entries_expired_count [] = 0
  entries_expired_count (pod_dir name p ∷ es) =
      (if p.readable then pod_expired_count segment_date cutoff p.containers else 0)
      + entries_expired_count es
  entries_expired_count (file f ∷ es) = entries_expired_count es

  unfoldable pub tree_expired_count : List NamespaceDir → ℕ
  tree_expired_count [] = 0
  tree_expired_count (d ∷ ds) =
      (if is_skipped_dir d || not d.readable then 0 else entries_expired_count d.entries)
      + tree_expired_count ds

  module _ (is_active : List ℕ → List ℕ → Bool) where
    abbrev KeepsEntries : List NamespaceEntry → List NamespaceEntry × ℕ → Type 0
    KeepsEntries es (left, n) =
        (entries_current left ≡ entries_current es)
        × (n ≡ entries_expired_count es)
        × ((files : ℕ) → kept_files files left ≡ kept_files files es)
        × ((files : ℕ) → old_count files left ≡ old_count files es)

    -- One pod, by what its sweep gives.
    swept_pod-Keeps :
        (name : List ℕ) (p : PodDir) (active : Bool) (es left : List NamespaceEntry) (k n : ℕ)
        (p' : Option PodDir)
        → KeepsDir segment_date cutoff p active p'
        → n ≡ (if p.readable then pod_expired_count segment_date cutoff p.containers else 0)
        → KeepsEntries es (left, k)
        → KeepsEntries
            (pod_dir name p ∷ es)
            (add_some (elim p' [ none ↦ none | some q ↦ some (pod_dir name q) ]) left, n + k)
    unfolding entries_current entries_expired_count kept_files old_count
    swept_pod-Keeps name p active es left k n none (read, idle, nothing) m (a, b, c, o) =
        (rw nothing a, omega (arith, m, b), c, o)
    swept_pod-Keeps name p active es left k n (some q) (same, meta) m (a, b, c, o) =
        (rw (same, a) refl, omega (arith, m, b), c, o)

    sweep_pods-Keeps :
        (namespace : List ℕ) (es : List NamespaceEntry)
        → KeepsEntries es (sweep_pods segment_date is_active cutoff namespace es)
    unfolding sweep_pods entries_current entries_expired_count kept_files old_count
    sweep_pods-Keeps namespace [] = (refl, refl, λ files. refl, λ files. refl)
    sweep_pods-Keeps namespace (file f ∷ es) =
        let (a, b, c, o) = sweep_pods-Keeps namespace es in
        (
          a,
          b,
          λ files. ap (λ t. if is_old_file files f then t else f ∷ t) (c files),
          λ files. ap (λ t. (if is_old_file files f then 1 else 0) + t) (o files),
        )
    sweep_pods-Keeps namespace (pod_dir name p ∷ es) =
        let (kept, count) = sweep_pod_dir-kept segment_date cutoff p (is_active namespace name) in
        swept_pod-Keeps name p (is_active namespace name) es _ _ _ _ kept count
          (sweep_pods-Keeps namespace es)

    abbrev KeepsTree : List NamespaceDir → List NamespaceDir × ℕ → Type 0
    KeepsTree ds (left, n) =
        (tree_current left ≡ tree_current ds)
        × (n ≡ tree_expired_count ds)
        × ((files : ℕ) → tree_kept_files files left ≡ tree_kept_files files ds)
        × ((files : ℕ) → tree_old_count files left ≡ tree_old_count files ds)

    no_entries : (es : List NamespaceEntry) → (length es == 0) ≡ true → es ≡ []
    no_entries [] h = refl
    no_entries (e ∷ es) h = absurd (ground arith)

    -- One namespace that is swept: an empty one may go.
    swept_namespace-Keeps :
        (d : NamespaceDir) (ds left : List NamespaceDir) (es : List NamespaceEntry) (k n : ℕ)
        → (is_skipped_dir d || not d.readable) ≡ false
        → KeepsEntries d.entries (es, k)
        → KeepsTree ds (left, n)
        → KeepsTree (d ∷ ds) (add_some (remove_if_empty (record d { entries = es })) left, k + n)
    unfolding remove_if_empty tree_current tree_expired_count tree_kept_files tree_old_count
        entries_current kept_files old_count
    swept_namespace-Keeps d ds left es k n swept (a, b, c, o) (a', b', c', o') =
        elim (Bool-cases (d.removable && length es == 0)) [
          | inr stays ↦
              rw (remove_if_empty, stays)
                (
                  rw (a, a') refl,
                  rw swept (omega (arith, b, b')),
                  λ files. rw (c files, c' files) refl,
                  λ files. rw (swept, o files, o' files) refl,
                )
          | inl goes ↦
              let empty : es ≡ [] = no_entries es (and_both goes).1 in
              let e₁ : entries_current d.entries ≡ [] = sym a ∙ ap entries_current empty in
              let e₂ : (files : ℕ) → kept_files files d.entries ≡ [] =
                λ files. sym (c files) ∙ ap (kept_files files) empty in
              let e₃ : (files : ℕ) → old_count files d.entries ≡ 0 =
                λ files. sym (o files) ∙ ap (old_count files) empty in
              rw (remove_if_empty, goes)
                (
                  rw e₁ a',
                  rw swept (omega (arith, b, b')),
                  λ files. rw (e₂ files) (c' files),
                  λ files. rw (swept, e₃ files) (omega (arith, o' files)),
                )
        ]

    sweep_segments-Keeps :
        (ds : List NamespaceDir) → KeepsTree ds (sweep_segments segment_date is_active cutoff ds)
    unfolding sweep_segments tree_current tree_expired_count tree_kept_files tree_old_count
    sweep_segments-Keeps [] = (refl, refl, λ files. refl, λ files. refl)
    sweep_segments-Keeps (d ∷ ds) =
        let (a, b, c, o) = sweep_segments-Keeps ds in
        elim (Bool-cases (is_skipped_dir d || not d.readable)) [
          | inl skipped ↦ rw skipped (
            rw a refl,
            omega (arith, b),
            λ files. rw (c files) refl,
            λ files. rw (skipped, o files) refl,
          )
          | inr swept ↦
              let (entries, k) = sweep_pods segment_date is_active cutoff d.name d.entries in
              let (left, n) = sweep_segments segment_date is_active cutoff ds in
              let h : KeepsTree (d ∷ ds)
                  (add_some (remove_if_empty (record d { entries = entries })) left, k + n) =
                swept_namespace-Keeps d ds left entries k n swept
                  (sweep_pods-Keeps d.name d.entries) (a, b, c, o) in
              rw swept (rw swept at h)
        ]

-- The loop over the files of a namespace.
module _ (segment_date : List ℕ → Option ℕ) (cutoff files : ℕ) where
  sweep_files-Keeps :
      (es : List NamespaceEntry)
      → (entries_current segment_date cutoff (sweep_files files es).0
          ≡ entries_current segment_date cutoff es)
        × (kept_files files (sweep_files files es).0 ≡ kept_files files es)
        × ((sweep_files files es).1 ≡ old_count files es)
  unfolding sweep_files entries_current kept_files old_count
  sweep_files-Keeps [] = (refl, refl, refl)
  sweep_files-Keeps (pod_dir name p ∷ es) =
      let (a, b, c) = sweep_files-Keeps es in (rw a refl, b, c)
  sweep_files-Keeps (file f ∷ es) =
      let (a, b, c) = sweep_files-Keeps es in
      elim (Bool-cases (is_old_file files f)) [
        | inl old ↦ rw old (a, b, omega (arith, c))
        | inr new ↦ rw new (a, rw (new, b) refl, omega (arith, c))
      ]

  sweep_legacy_files-Keeps :
      (ds : List NamespaceDir)
      → (tree_current segment_date cutoff (sweep_legacy_files files ds).0
          ≡ tree_current segment_date cutoff ds)
        × (tree_kept_files files (sweep_legacy_files files ds).0 ≡ tree_kept_files files ds)
        × ((sweep_legacy_files files ds).1 ≡ tree_old_count files ds)
  unfolding sweep_legacy_files tree_current tree_kept_files tree_old_count
  sweep_legacy_files-Keeps [] = (refl, refl, refl)
  sweep_legacy_files-Keeps (d ∷ ds) =
      let (a, b, c) = sweep_legacy_files-Keeps ds in
      let (a', b', c') = sweep_files-Keeps d.entries in
      elim (Bool-cases (is_skipped_dir d || not d.readable)) [
        | inl skipped ↦ rw skipped (rw a refl, rw b refl, omega (arith, c))
        | inr swept ↦ rw swept (rw (a, a') refl, rw (b, b') refl, omega (arith, c, c'))
      ]

-- Whatever removals and reads fail, a sweep of a root that can be read keeps, in order, all files
-- of all containers that are no segments from before the cutoff date, and all files beside the
-- pods that are no .log files from before the cutoff time or cannot be removed. It counts as
-- deleted all others that can be read and removed in namespaces that are directories without a dot
-- in front, and the indexes are compacted exactly if there is any and a compactor is set.
pub sweep-kept :
    (segment_date : List ℕ → Option ℕ) (is_active : List ℕ → List ℕ → Bool)
    (retention_days today now : ℕ) (has_compactor : Bool) (root : List NamespaceDir)
    → let result = sweep segment_date is_active retention_days has_compactor today now root in
      let cutoff = cutoff_date today retention_days in
      let count =
        tree_expired_count segment_date cutoff root
        + tree_old_count (legacy_cutoff now retention_days) root in
      (tree_current segment_date cutoff result.namespaces ≡ tree_current segment_date cutoff root)
      × (tree_kept_files (legacy_cutoff now retention_days) result.namespaces
          ≡ tree_kept_files (legacy_cutoff now retention_days) root)
      × (result.deleted ≡ count)
      × (result.compacts ≡ (ltb 0 count && has_compactor))
unfolding sweep
sweep-kept segment_date is_active retention_days today now has_compactor root =
    let cutoff = cutoff_date today retention_days in
    let files = legacy_cutoff now retention_days in
    let (a, b, c, o) = sweep_segments-Keeps segment_date cutoff is_active root in
    let (a', b', c') =
      sweep_legacy_files-Keeps segment_date cutoff files
        (sweep_segments segment_date is_active cutoff root).0 in
    (a' ∙ a, b' ∙ c files, omega (arith, b, c', o files), rw (b, c', o files) refl)
