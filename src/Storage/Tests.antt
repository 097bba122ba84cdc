-- ===== src/Storage/Tests.antt =====
-- server/internal/storage: runs of the storage model at concrete inputs.
use simple_logging.Prelude.{
  ℕ, ◌+◌, ◌-◌, ◌*◌, ◌^◌, ◌≡◌, ◌<◌, ◌≤◌, refl, Bool, true, false, List, [], ◌∷◌, ◌++◌, Option, none,
  some, length, take, arith, ◌⊎◌, inl, get_or, ◌%◌, ltb, ◌&&◌,
}
use simple_logging.Prelude.Text.{codes}
use simple_logging.Prelude.Bufio.{raw_line}
use simple_logging.Paging.Sort.{sort}
use simple_logging.Storage.Layout.{MetaCalls}
use simple_logging.Storage.Layout.Changes.{MetaUpdate, container_seen, owner_recorded, effective}
use simple_logging.Storage.Layout.Facts.{HoldsFacts, run_updates, run_updates-HoldsFacts}
use simple_logging.Storage.Lines.{
  truncated_marker, rune_start, cap_line, cap_line_to, IsGap, cap_line_to-longest, read_capped_line,
  trim_newline,
}
use simple_logging.Storage.Lines.Capped.{read_capped_line-raw_line}
use simple_logging.Storage.Writer.{
  Disk, System, SegmentWriter, Location, Call, new_segment_writer, write_with_location, run_writes,
}
use simple_logging.Storage.Writer.Invariant.{IsSound}
use simple_logging.Storage.Writer.Stored.{
  Extends, IsStored, AllStored, write_with_location-IsStored, run_writes-AllStored,
  write_with_location-recovers,
}
use simple_logging.Storage.DiskGuard.{AgedSegment, check, date_before, IsGuarded, check-IsGuarded}
use simple_logging.Storage.Retention.{PodDir, sweep_pod_dir}
use simple_logging.Storage.Retention.Tree.{
  NamespaceDir, pod_dir, file, sweep, cutoff_date, legacy_cutoff, legacy_cutoff_days, day,
  next_daily_sweep, next_daily_sweep_bounds, daily_sweep_delay,
}
use simple_logging.Storage.Retention.KeptTree.{
  sweep-kept, tree_current, tree_kept_files, tree_expired_count, tree_old_count,
}
use simple_logging.Storage.Retention.Kept.{KeepsDir, pod_expired_count, sweep_pod_dir-kept}

-- A line of 20 bytes, of which the limit leaves room for one in front of the marker.
abbrev long_line : List ℕ
long_line = codes "abcdefghijklmnopqrst"

cap_line_to-longest_example :
    (length (cap_line_to 16 long_line) ≤ 16)
    × (((length long_line ≤ 16) × (cap_line_to 16 long_line ≡ long_line))
        ⊎ ((cut : ℕ) × (gap : ℕ) × (16 < length long_line)
            × (cap_line_to 16 long_line ≡ take cut long_line ++ truncated_marker)
            × (cut + gap + length truncated_marker ≡ 16)
            × IsGap long_line cut gap
            × ((cut ≡ 0) ⊎ (rune_start (get_or long_line cut 0) ≡ true))))
cap_line_to-longest_example = cap_line_to-longest 16 long_line (omega arith)

-- A limit of three bytes, read with a buffer of two.
read_capped_line-raw_line_example :
    read_capped_line 2 3 (codes "abcde\nfg") ≡ some (some (codes "abc", codes "fg"))
unfolding raw_line trim_newline
read_capped_line-raw_line_example =
    read_capped_line-raw_line 2 3 (codes "abcde\nfg") (omega arith) (omega arith)

abbrev one_day : ℕ → List ℕ
one_day t = codes "2026-01-01"

abbrev no_files : Disk
no_files d = none

abbrev new_writer : SegmentWriter
new_writer = record (new_segment_writer false) { hooked = true }

new_writer-IsSound : IsSound 0 new_writer
new_writer-IsSound = record {
  names = refl;
  waiting = inl (refl, refl, omega arith);
  alternates = refl;
  has_hook = refl;
}

abbrev works : System
works = record {
  sync_ok = true;
  close_ok = true;
  mkdir_ok = true;
  open_ok = true;
  seek_ok = true;
  write_ok = true;
  partial = 0;
}

-- The volume is full: only the first two bytes are written.
abbrev volume_full : System
volume_full = record works { write_ok = false; partial = 2 }

write_with_location-IsStored_example :
    Extends no_files (write_with_location one_day new_writer no_files works 5 5 (codes "hello")).2
    × IsStored
        (write_with_location one_day new_writer no_files works 5 5 (codes "hello")).2
        (codes "2026-01-01")
        (cap_line (codes "hello"))
        (write_with_location one_day new_writer no_files works 5 5 (codes "hello")).0
write_with_location-IsStored_example =
    write_with_location-IsStored one_day 0 5 5 new_writer no_files works (codes "hello")
      new_writer-IsSound

write_with_location-recovers_example :
    (loc : Location) × ((write_with_location one_day new_writer no_files works
        (30 * 10 ^ 9)
        5
        (codes "hello")).0
      ≡ some loc)
    × ((write_with_location one_day new_writer no_files works
          (30 * 10 ^ 9)
          5
          (codes "hello")).1.dropped
        ≡ 0)
write_with_location-recovers_example =
    write_with_location-recovers one_day 0 (30 * 10 ^ 9) 5 new_writer no_files works (codes "hello")
      new_writer-IsSound (omega arith) refl refl refl

-- A stored line, one that fails half way, and one more after the backoff.
abbrev three_calls : List Call
three_calls =
    record { sys = works; elapsed = 1; line_ts = 1; line = codes "a" }
    ∷ record { sys = volume_full; elapsed = 1; line_ts = 2; line = codes "bcd" }
    ∷ record { sys = works; elapsed = 10 ^ 9; line_ts = 3; line = codes "e" }
    ∷ []

run_writes-AllStored_example :
    Extends no_files (run_writes one_day new_writer no_files 0 three_calls).2
    × AllStored one_day
        (run_writes one_day new_writer no_files 0 three_calls).2
        three_calls
        (run_writes one_day new_writer no_files 0 three_calls).0
    × ((now : ℕ) × IsSound now (run_writes one_day new_writer no_files 0 three_calls).1)
run_writes-AllStored_example =
    run_writes-AllStored one_day three_calls 0 new_writer no_files new_writer-IsSound

abbrev segment_of : ℕ → Bool → AgedSegment
segment_of day is_open = record {
  path = codes "s";
  date = day;
  is_open = is_open;
  removable = true;
}

-- Usage falls by ten percent with each deletion.
abbrev falling : ℕ → Option ℕ
falling n = some (95 - 10 * n)

check-IsGuarded_example :
    ((95 < 90)
      × (check falling 90 80 (segment_of 3 true ∷ segment_of 2 false ∷ segment_of 1 false ∷ [])
          ≡ record { deleted = []; used = some 95 }))
    ⊎ ((90 ≤ 95)
        × IsGuarded falling 80
            (sort date_before (segment_of 3 true ∷ segment_of 2 false ∷ segment_of 1 false ∷ []))
            0
            (check falling 90 80
              (segment_of 3 true ∷ segment_of 2 false ∷ segment_of 1 false ∷ [])))
check-IsGuarded_example =
    check-IsGuarded falling 90 80 95
      (segment_of 3 true ∷ segment_of 2 false ∷ segment_of 1 false ∷ []) refl

-- Names are dates of one byte.
abbrev byte_date : List ℕ → Option ℕ
byte_date [] = none
byte_date (c ∷ s) = some c

abbrev one_pod : PodDir
one_pod = record {
  containers =
      record {
        name = codes "app";
        entries =
            record { name = 3 ∷ []; is_dir = false; removable = true }
            ∷ record { name = 8 ∷ []; is_dir = false; removable = true }
            ∷ [];
        readable = true;
        removable = true;
      }
      ∷ [];
  has_meta = true;
  meta_removable = true;
  other_files = 0;
  readable = true;
  removable = true;
}

sweep_pod_dir-kept_example :
    KeepsDir byte_date 5 one_pod false (sweep_pod_dir byte_date 5 one_pod false).0
    × ((sweep_pod_dir byte_date 5 one_pod false).1
        ≡ pod_expired_count byte_date 5 one_pod.containers)
sweep_pod_dir-kept_example = sweep_pod_dir-kept byte_date 5 one_pod false

legacy_cutoff_days_example :
    ((150000 ≤ 106751) × (legacy_cutoff (40 * day) 150000 ≡ 40 * day - 150000 * day))
    ⊎ ((106751 < 150000) × (40 * day < legacy_cutoff (40 * day) 150000))
legacy_cutoff_days_example = legacy_cutoff_days (40 * day) 150000 (omega arith)

next_daily_sweep_bounds_example :
    (400 < next_daily_sweep 400)
    × (next_daily_sweep 400 ≤ 400 + day)
    × (next_daily_sweep 400 % day ≡ daily_sweep_delay)
next_daily_sweep_bounds_example = next_daily_sweep_bounds 400

-- A namespace with a pod and a file of the former layout.
abbrev one_namespace : List NamespaceDir
one_namespace =
    record {
      name = codes "shop";
      is_dir = true;
      readable = true;
      entries =
          pod_dir (codes "web") one_pod
          ∷ file (record { name = codes "old.log"; mod_time = some 1; removable = true })
          ∷ [];
      removable = true;
    }
    ∷ []

sweep-kept_example :
    (tree_current byte_date
        (cutoff_date (2 * day) 1)
        (sweep byte_date (λ n p. false) 1 true (2 * day) (2 * day) one_namespace).namespaces
      ≡ tree_current byte_date (cutoff_date (2 * day) 1) one_namespace)
    × (tree_kept_files
          (legacy_cutoff (2 * day) 1)
          (sweep byte_date (λ n p. false) 1 true (2 * day) (2 * day) one_namespace).namespaces
        ≡ tree_kept_files (legacy_cutoff (2 * day) 1) one_namespace)
    × ((sweep byte_date (λ n p. false) 1 true (2 * day) (2 * day) one_namespace).deleted
        ≡ tree_expired_count byte_date (cutoff_date (2 * day) 1) one_namespace
          + tree_old_count (legacy_cutoff (2 * day) 1) one_namespace)
    × ((sweep byte_date (λ n p. false) 1 true (2 * day) (2 * day) one_namespace).compacts ≡ (
        ltb 0 (
          tree_expired_count byte_date (cutoff_date (2 * day) 1) one_namespace
          + tree_old_count (legacy_cutoff (2 * day) 1) one_namespace)
        && true))
sweep-kept_example = sweep-kept byte_date (λ n p. false) 1 (2 * day) (2 * day) true one_namespace

abbrev all_work : MetaCalls
all_work = record { readable = true; written = true }

-- Two containers and the owner, with a write that fails in between.
abbrev meta_updates : List MetaUpdate
meta_updates =
    container_seen (codes "web") 7 all_work
    ∷ owner_recorded (codes "Deployment") (codes "shop") [] all_work
    ∷ container_seen (codes "lost") 9 (record { readable = true; written = false })
    ∷ container_seen (codes "proxy") 8 all_work
    ∷ []

run_updates-HoldsFacts_example :
    HoldsFacts
      (λ m. m)
      (effective meta_updates)
      (run_updates (codes "ops") (codes "shop-1") (λ m. m) some (λ m. refl) meta_updates none)
run_updates-HoldsFacts_example =
    run_updates-HoldsFacts (codes "ops") (codes "shop-1") (λ m. m) some (λ m. refl) meta_updates
