-- ===== src/Storage/Retention/Tree.antt =====
-- server/internal/storage/retention.go: `sweep` over all namespaces, with the files of the former layout.
-- Whether a directory can be read is a field of it, as in the sweep of a pod.
use simple_logging.Prelude.{
  ℕ, ◌+◌, ◌-◌, ◌*◌, ◌/◌, ◌%◌, ◌^◌, ◌≤◌, ◌<◌, ◌≡◌, Bool, false, not, ◌&&◌, ◌||◌, List, [], ◌∷◌,
  Option, none, some, length, ltb, leb, ◌==◌, if◌then◌else◌, Bool-cases, ◌⊎◌, inl, inr, arith,
}
use simple_logging.Prelude.Text.{codes, has_prefix, has_suffix}
use simple_logging.Storage.Retention.{PodDir, sweep_pod_dir}

-- A file beside the pods' directories; its modification time is `none` if it cannot be read.
pub record LegacyFile : Type 0 where
  pub name : List ℕ
  pub mod_time : Option ℕ
  pub removable : Bool

pub data NamespaceEntry : Type 0 where
  pod_dir : List ℕ → PodDir → NamespaceEntry
  file : LegacyFile → NamespaceEntry

pub record NamespaceDir : Type 0 where
  pub name : List ℕ
  pub is_dir : Bool
  pub readable : Bool
  pub entries : List NamespaceEntry
  pub removable : Bool

-- Times are nanoseconds, and a day of UTC has this many.
abbrev pub day : ℕ
day = 24 * 3600 * 10 ^ 9

-- `dailySweepDelay`
abbrev pub daily_sweep_delay : ℕ
daily_sweep_delay = 5 * 60 * 10 ^ 9

unfoldable pub next_daily_sweep : ℕ → ℕ
next_daily_sweep now =
    let next = now / day * day + daily_sweep_delay in
    if not (ltb now next) then next + day else next

-- `cutoffDate` of `sweep`: the midnight of the current day, and so many days before.
unfoldable pub cutoff_date : ℕ → ℕ → ℕ
cutoff_date now retention_days = now / day * day - retention_days * day

-- `cutoff` of `sweepLegacyFiles`: the duration is an int64 of nanoseconds.
unfoldable pub legacy_cutoff : ℕ → ℕ → ℕ
legacy_cutoff now retention_days =
    let back = retention_days * day % 2 ^ 64 in
    if leb back (2 ^ 63) then now - back else now + (2 ^ 64 - back)

abbrev pub is_skipped_dir : NamespaceDir → Bool
is_skipped_dir d = not d.is_dir || has_prefix d.name (codes ".")

-- `removeIfEmpty`
unfoldable pub remove_if_empty : NamespaceDir → Option NamespaceDir
remove_if_empty d = if d.removable && length d.entries == 0 then none else some d

abbrev pub add_some {ℓ} : {A : Type ℓ} → Option A → List A → List A
add_some none as' = as'
add_some (some a) as' = a ∷ as'

module _ (segment_date : List ℕ → Option ℕ) (is_active : List ℕ → List ℕ → Bool) (cutoff : ℕ) where
  -- The loop over the pods of a namespace, with the deleted segments.
  unfoldable pub sweep_pods : List ℕ → List NamespaceEntry → List NamespaceEntry × ℕ
  sweep_pods namespace [] = ([], 0)
  sweep_pods namespace (file f ∷ es) =
      let (left, deleted) = sweep_pods namespace es in (file f ∷ left, deleted)
  sweep_pods namespace (pod_dir name p ∷ es) =
      let (left, deleted) = sweep_pods namespace es in
      let (p', n) = sweep_pod_dir segment_date cutoff p (is_active namespace name) in
      (add_some (elim p' [ none ↦ none | some q ↦ some (pod_dir name q) ]) left, n + deleted)

  -- `sweepSegments`
  unfoldable pub sweep_segments : List NamespaceDir → List NamespaceDir × ℕ
  unfolding sweep_pods remove_if_empty
  sweep_segments [] = ([], 0)
  sweep_segments (d ∷ ds) =
      let (left, deleted) = sweep_segments ds in
      let (entries, n) = sweep_pods d.name d.entries in
      if is_skipped_dir d || not d.readable
      then (d ∷ left, deleted)
      else (add_some (remove_if_empty (record d { entries = entries })) left, n + deleted)

-- Whether `sweepLegacyFiles` removes a file.
unfoldable pub is_old_file : ℕ → LegacyFile → Bool
is_old_file cutoff f =
    has_suffix f.name (codes ".log")
    && elim f.mod_time [ none ↦ false | some t ↦ ltb t cutoff ]
    && f.removable

unfoldable pub sweep_files : ℕ → List NamespaceEntry → List NamespaceEntry × ℕ
unfolding is_old_file
sweep_files cutoff [] = ([], 0)
sweep_files cutoff (pod_dir name p ∷ es) =
    let (left, deleted) = sweep_files cutoff es in (pod_dir name p ∷ left, deleted)
sweep_files cutoff (file f ∷ es) =
    let (left, deleted) = sweep_files cutoff es in
    if is_old_file cutoff f then (left, deleted + 1) else (file f ∷ left, deleted)

-- `sweepLegacyFiles`
unfoldable pub sweep_legacy_files : ℕ → List NamespaceDir → List NamespaceDir × ℕ
unfolding sweep_files
sweep_legacy_files cutoff [] = ([], 0)
sweep_legacy_files cutoff (d ∷ ds) =
    let (left, deleted) = sweep_legacy_files cutoff ds in
    let (entries, n) = sweep_files cutoff d.entries in
    if is_skipped_dir d || not d.readable
    then (d ∷ left, deleted)
    else (record d { entries = entries } ∷ left, n + deleted)

-- What a sweep leaves, how many files it deleted, and whether the indexes are compacted.
pub record SweepResult : Type 0 where
  pub namespaces : List NamespaceDir
  pub deleted : ℕ
  pub compacts : Bool

-- `sweep` of a root that can be read. The second clock reading is that of `sweepLegacyFiles`.
unfoldable pub sweep :
    (List ℕ → Option ℕ)
    → (List ℕ → List ℕ → Bool)
    → ℕ
    → Bool
    → ℕ
    → ℕ
    → List NamespaceDir
    → SweepResult
unfolding sweep_segments sweep_legacy_files cutoff_date legacy_cutoff
sweep segment_date is_active retention_days has_compactor today now root =
    let (left, segments) =
      sweep_segments segment_date is_active (cutoff_date today retention_days) root in
    let (left', files) = sweep_legacy_files (legacy_cutoff now retention_days) left in
    record {
      namespaces = left';
      deleted = segments + files;
      compacts = ltb 0 (segments + files) && has_compactor;
    }

-- For any time, the next daily sweep is after it, at most a day later, and five minutes behind a
-- midnight of UTC.
pub next_daily_sweep_bounds :
    (now : ℕ)
    → (now < next_daily_sweep now)
      × (next_daily_sweep now ≤ now + day)
      × (next_daily_sweep now % day ≡ daily_sweep_delay)
unfolding next_daily_sweep
next_daily_sweep_bounds now = ground arith

-- For at most 213503 days of retention, the cutoff time for files of the former layout is that
-- many days before now if they are at most 106751; else the duration overflows, and the cutoff
-- time is after now.
pub legacy_cutoff_days :
    (now retention_days : ℕ)
    → retention_days ≤ 213503
    → ((retention_days ≤ 106751) × (legacy_cutoff now retention_days ≡ now - retention_days * day))
      ⊎ ((106751 < retention_days) × (now < legacy_cutoff now retention_days))
unfolding legacy_cutoff
legacy_cutoff_days now retention_days h = elim (Bool-cases (leb retention_days 106751)) [
  | inl few ↦ inl (ground arith, ground arith)
  | inr many ↦ inr (ground arith, ground arith)
]
