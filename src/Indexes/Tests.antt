-- ===== src/Indexes/Tests.antt =====
-- server/internal/indexes: runs of the index's model at concrete inputs.
use simple_logging.Prelude.{
  Option, ℕ, ◌-◌, ◌≡◌, refl, true, false, List, [], ◌∷◌, ◌++◌, none, some, length, take, drop,
  Result, ok, arith, if◌then◌else◌,
}
use simple_logging.Prelude.Text.{codes, text_eq}
use simple_logging.Prelude.Bytes.{put_be}
use simple_logging.Prelude.Decimal.{itoa}
use simple_logging.Paging.Sort.{sort, insert}
use simple_logging.Paging.Heap.{arrived}
use simple_logging.Indexes.Reference.{Reference, Error, scan_shard}
use simple_logging.Indexes.Reference.RoundTrip.{Fits}
use simple_logging.Indexes.Reference.Scan.{
  append_all, append_all-stored, visit_all, record_bytes, scan_shard-append_all,
}
use simple_logging.Indexes.Available.{
  Files, FileSizes, is_available, reference_available, fits_size, reference_path,
  read_referenced_line, reference_available-is_available, stat_size, IsCurrent,
}
use simple_logging.Indexes.Page.{
  get_index_logs, read_reference_page, parse_start, read_lines, sortable_entry_less,
}
use simple_logging.Indexes.Page.Spec.{
  Stores, found, all_found, references, read_reference_page-last,
}
use simple_logging.Indexes.Compact.{compact_shard}
use simple_logging.Indexes.Compact.Kept.{kept, compact_shard-kept}
use simple_logging.Indexes.Page.Walk.{get_index_logs-forward, walk_forward, walk_forward-all_found}

-- The log file l/n/p/c/d.log has two lines.
abbrev one_file : Files
one_file path = if text_eq path (codes "l/n/p/c/d.log") then some (codes "hello\nworld\n") else none

abbrev ref_at : ℕ → ℕ → ℕ → Reference
ref_at time offset n = record {
  timestamp = time;
  valid_time = true;
  namespace = codes "n";
  pod = codes "p";
  container = codes "c";
  segment = codes "d";
  value = codes "v";
  offset = offset;
  line_length = n;
}

abbrev hello : Reference
hello = ref_at 9 0 5

abbrev world : Reference
world = ref_at 7 6 5

hello-Fits : Fits hello
hello-Fits = record {
  timestamp_fits = omega arith;
  offset_fits = omega arith;
  line_length_fits = omega arith;
  body_fits = omega arith;
}

world-Fits : Fits world
world-Fits = record {
  timestamp_fits = omega arith;
  offset_fits = omega arith;
  line_length_fits = omega arith;
  body_fits = omega arith;
}

-- A callback that keeps what it sees.
abbrev keep : List Reference → Reference → Result Error (List Reference)
keep seen r = ok (r ∷ seen)

scan_shard-append_all_example :
    (file : List ℕ) × (append_all none (hello ∷ world ∷ []) ≡ ok (some file))
    × (scan_shard keep (some (file ++ take 3 (record_bytes hello))) [] ≡ ok (world ∷ hello ∷ []))
unfolding visit_all record_bytes put_be
scan_shard-append_all_example =
    scan_shard-append_all keep hello (world ∷ []) hello 3 [] hello-Fits (world-Fits, tt) hello-Fits
      (omega arith)

-- The shard of the two references.
abbrev two_stored :
    (file : List ℕ) × (append_all none (hello ∷ world ∷ []) ≡ ok (some file))
    × Stores (some file) (hello ∷ world ∷ [])
two_stored = append_all-stored hello (world ∷ []) hello-Fits (world-Fits, tt)

reference_available-is_available_example :
    ((reference_available (codes "l") one_file hello []).0
      ≡ is_available (codes "l") one_file hello)
    × IsCurrent (codes "l") one_file (reference_available (codes "l") one_file hello []).1
reference_available-is_available_example =
    reference_available-is_available (codes "l") one_file hello [] tt

read_reference_page-last_example :
    read_reference_page (codes "l") one_file (some two_stored.0) (codes "v") 0 1 true
    ≡ ok (
      references (
          drop
            (length (all_found (codes "l") one_file (codes "v") (hello ∷ world ∷ [])) - 1)
            (all_found (codes "l") one_file (codes "v") (hello ∷ world ∷ []))),
      length (all_found (codes "l") one_file (codes "v") (hello ∷ world ∷ [])),
    )
read_reference_page-last_example =
    read_reference_page-last (codes "l") one_file (codes "v") (some two_stored.0)
      (hello ∷ world ∷ []) 1 two_stored.2

get_index_logs-forward_example :
    get_index_logs (codes "l") one_file (some two_stored.0) (codes "v") 1 [] false
    ≡ ok (codes "world" ∷ [], codes "1", [])
unfolding parse_start itoa all_found sort arrived found is_available fits_size stat_size
    reference_path insert sortable_entry_less read_lines read_referenced_line
get_index_logs-forward_example =
    get_index_logs-forward (codes "l") one_file (codes "v") (some two_stored.0) (hello ∷ world ∷ [])
      two_stored.2 1 0 [] refl (omega arith)

walk_forward-all_found_example :
    walk_forward
      (codes "l")
      one_file
      (codes "v")
      (some two_stored.0)
      (hello ∷ world ∷ [])
      two_stored.2
      1
      3
      []
    ≡ some (codes "world" ∷ codes "hello" ∷ [])
unfolding all_found sort arrived found is_available fits_size stat_size reference_path insert
    sortable_entry_less read_lines read_referenced_line
walk_forward-all_found_example =
    walk_forward-all_found (codes "l") one_file (codes "v") (some two_stored.0) (hello ∷ world ∷ [])
      two_stored.2 1 (omega arith)

-- A third reference, past the end of the file.
abbrev lost : Reference
lost = ref_at 8 12 5

lost-Fits : Fits lost
lost-Fits = record {
  timestamp_fits = omega arith;
  offset_fits = omega arith;
  line_length_fits = omega arith;
  body_fits = omega arith;
}

abbrev lost_stored :
    (file : List ℕ) × (append_all none (hello ∷ lost ∷ world ∷ []) ≡ ok (some file))
    × Stores (some file) (hello ∷ lost ∷ world ∷ [])
lost_stored = append_all-stored hello (lost ∷ world ∷ []) hello-Fits (lost-Fits, (world-Fits, tt))

compact_shard-kept_example :
    (shard : Option (List ℕ)) × (sizes : FileSizes) × (compact_shard
        (codes "l")
        one_file
        (some lost_stored.0)
        []
      ≡ ok (shard, sizes))
    × (append_all none (hello ∷ world ∷ []) ≡ ok shard)
    × IsCurrent (codes "l") one_file sizes
unfolding kept is_available fits_size stat_size reference_path
compact_shard-kept_example =
    compact_shard-kept (codes "l") one_file lost_stored.0 (hello ∷ lost ∷ world ∷ []) []
      lost_stored.2 (hello-Fits, (lost-Fits, (world-Fits, tt))) tt
