-- ===== src/Indexes/Keys/Tests.antt =====
-- server/internal/indexes: runs of the manager of keys at concrete inputs.
use mathlib.Core.List.{Perm}
use simple_logging.Prelude.{
  ℕ, suc, ◌≡◌, refl, Bool, true, false, List, [], ◌∷◌, Option, none, some, length, ok, All, arith,
}
use simple_logging.Prelude.Text.{codes, cut_text, text_eq, trim_right, has_suffix, trim_suffix}
use simple_logging.Prelude.Bufio.{raw_line, is_complete}
use simple_logging.Prelude.Bytes.{put_be}
use simple_logging.Prelude.Spaces.{trim_space}
use simple_logging.Paging.Sort.{sort, insert, IsSorted}
use simple_logging.Storage.Layout.{
  DirEntry, list_dirs, list_segments, segment_date, contains_string,
}
use simple_logging.Indexes.Reference.{append_reference, encode_reference, io}
use simple_logging.Indexes.Reference.RoundTrip.{Fits}
use simple_logging.Indexes.Reference.Scan.{append_all}
use simple_logging.Indexes.Field.{
  Codecs, Place, text, valid_key, indexed_value, json_payload, shard_number, line_reference,
}
use simple_logging.Indexes.Rebuild.{
  Disk, Index, append_to, index_line, backfill_file, rebuild, rebuild_namespace, rebuild_pod,
  rebuild_container, namespaces_in, segment_place, each,
}
use simple_logging.Indexes.Rebuild.Segment.{
  IsLine, IsTrimmed, file_of, refs_at, observe_lines, backfill_file-observe,
}
use simple_logging.Indexes.Rebuild.Walk.{
  places, places_in_namespace, places_in_pod, places_in_container, names_of,
}
use simple_logging.Indexes.Rebuild.Shards.{in_shard, key_refs}
use simple_logging.Indexes.Keys.{
  Manifest, Manager, load_manifest, CreateCalls, written, not_opened, create, create_saved,
  save_locked, sorted_keys_locked, rebuild_index, without, index_format_version,
}
use simple_logging.Indexes.Keys.Created.{create-indexed, create-failed, IsUnchanged}
use simple_logging.Indexes.Keys.Saved.{IsSaved}
use simple_logging.Indexes.Keys.Steps.{
  run_events, run_events-IsSaved, Event, create_key, delete_key, observe, restart,
}
use simple_logging.Indexes.Keys.Timed.{line_earlier}
use simple_logging.Indexes.Keys.Found.{all_matching}
use simple_logging.Indexes.Keys.Pages.{walk_key, create-pages}

-- Time stamps are not read, every object has the value "v", and all values share a shard.
abbrev codecs : Codecs
codecs = record {
  unmarshal = λ payload. some (λ key. some (text (codes "v")));
  format_float = λ bits. [];
  parse_time = λ s. none;
  sum256 = λ s. 7 ∷ [];
}

-- The log file l/n/p/c/d.log has a line with an object and one without.
abbrev stored : List (List ℕ)
stored = codes "a] {" ∷ codes "b" ∷ []

abbrev dir : List ℕ → Bool → List DirEntry
dir name is_dir = record { name = name; is_dir = is_dir } ∷ []

abbrev listing : List (List ℕ) → List DirEntry
listing [] = dir (codes "n") true
listing (a ∷ []) = dir (codes "p") true
listing (a ∷ b ∷ []) = dir (codes "c") true
listing (a ∷ b ∷ c ∷ more) = dir (codes "d.log") false

abbrev disk : Disk
disk = record {
  read_dir = λ path. ok (some (listing path));
  files = λ path. some (file_of stored);
  can_append = λ n. true;
}

abbrev place : Place
place = segment_place (codes "n") (codes "p") (codes "c") (codes "d")

abbrev filled : Index
filled = (backfill_file codecs disk (codes "k") (codes "l") place (λ n. none)).0

backfill_fills :
    backfill_file codecs disk (codes "k") (codes "l") place (λ n. none) ≡ (filled, none)
unfolding backfill_file index_line append_to append_reference encode_reference indexed_value
    json_payload trim_space raw_line is_complete trim_right shard_number line_reference put_be
    cut_text
backfill_fills = refl

stored_lines : All IsLine stored
stored_lines = (refl, (refl, tt))

stored-IsTrimmed : All IsTrimmed stored
unfolding trim_right
stored-IsTrimmed = (refl, (refl, tt))

backfill_file-observe_example :
    (each (append_to codecs disk) (refs_at codecs (codes "k") place 0 stored) (λ n. none)
      ≡ (filled, none))
    × (observe_lines codecs (codes "k") place disk 0 stored (λ n. none) ≡ filled)
backfill_file-observe_example =
    backfill_file-observe codecs (codes "k") place disk (codes "l") stored (λ n. none) filled refl
      stored_lines stored-IsTrimmed (omega arith) backfill_fills

-- The manifest itself stands for its text.
abbrev same : Manifest → Manifest
same mf = mf

abbrev no_keys : Manager Manifest
no_keys = record { keys = []; manifest = none; indexes = λ k n. none }

abbrev calls_ok : CreateCalls Manifest
calls_ok = record { root_made = true; save = written; left = none; disk = disk; undo = written }

abbrev calls_failed : CreateCalls Manifest
calls_failed = record {
  root_made = true;
  save = written;
  left = some (λ n. none);
  disk = disk;
  undo = written;
}

abbrev any_date : List ℕ → Option ℕ
any_date s = some 1

abbrev created : Manager Manifest
created = (create same some codecs (codes "l") any_date (codes "k") calls_ok no_keys).0

key_created :
    create same some codecs (codes "l") any_date (codes "k") calls_ok no_keys ≡ (created, none)
unfolding create create_saved save_locked rebuild_index rebuild rebuild_namespace rebuild_pod
    rebuild_container namespaces_in list_dirs list_segments segment_date sort has_suffix trim_suffix
    contains_string valid_key backfill_file index_line append_to append_reference encode_reference
    indexed_value json_payload trim_space raw_line is_complete trim_right shard_number
    line_reference put_be cut_text insert
key_created = refl

only_place : places disk any_date ≡ place ∷ []
unfolding places places_in_namespace places_in_pod places_in_container names_of namespaces_in
    list_dirs list_segments segment_date sort has_suffix trim_suffix insert
only_place = refl

key_failed :
    create same some codecs (codes "l") any_date (codes "k") calls_failed no_keys
    ≡ ((create same some codecs (codes "l") any_date (codes "k") calls_failed no_keys).0, some io)
unfolding create create_saved save_locked rebuild_index rebuild contains_string valid_key sort
    insert without
key_failed = refl

create-failed_example :
    IsUnchanged same some codecs
      (codes "l")
      any_date
      (codes "k")
      no_keys
      (create same some codecs (codes "l") any_date (codes "k") calls_failed no_keys).0
create-failed_example =
    create-failed same some codecs (codes "l") any_date (codes "k") calls_failed no_keys _ io
      key_failed

lines_at : Place → List (List ℕ)
lines_at at = stored

create-indexed_example :
    (created.keys ≡ codes "k" ∷ [])
    × ((n : ℕ)
        → append_all none
            (in_shard codecs n (key_refs codecs lines_at (codes "k") (places disk any_date)))
          ≡ ok (created.indexes (codes "k") n))
    × ((k : List ℕ) → text_eq (codes "k") k ≡ false → created.indexes k ≡ (λ n. none))
    × (created.manifest
        ≡ some (record {
          keys = sorted_keys_locked same some created;
          format_version = index_format_version;
        }))
unfolding lines_at contains_string
create-indexed_example =
    create-indexed same some codecs (codes "l") any_date lines_at (codes "k") calls_ok no_keys
      created refl (rw only_place ((refl, stored_lines, omega arith), tt)) key_created

refs_fit : All Fits (key_refs codecs lines_at (codes "k") (place ∷ []))
unfolding lines_at key_refs refs_at line_reference indexed_value json_payload trim_space cut_text
    trim_right
refs_fit = (
  record {
    timestamp_fits = omega arith;
    offset_fits = omega arith;
    line_length_fits = omega arith;
    body_fits = omega arith;
  },
  tt,
)

create-pages_example :
    (found_lines : List (List ℕ)) × (walk_key same some codecs
        (codes "l")
        disk.files
        created
        (codes "k")
        (codes "v")
        5
        (suc (length found_lines))
        []
      ≡ some found_lines)
    × IsSorted (line_earlier codecs) found_lines
    × Perm found_lines (
        all_matching codecs
          (codes "l")
          disk.files
          (codes "k")
          (codes "v")
          lines_at
          (places disk any_date))
unfolding lines_at contains_string trim_right
create-pages_example =
    create-pages same some codecs (codes "l") any_date lines_at (codes "k") (codes "v") 5 calls_ok
      no_keys created refl (rw only_place ((refl, stored_lines, omega arith), tt))
      (rw only_place ((refl, omega arith, (omega arith, (omega arith, tt))), tt))
      (rw only_place refs_fit)
      (rw only_place
        (unfold key_refs refs_at indexed_value json_payload trim_space cut_text in omega arith))
      key_created

no_keys-IsSaved : IsSaved same some no_keys
unfolding contains_string
no_keys-IsSaved = record {
  all_valid = λ k e. absurd (cc e);
  distinct = tt;
  loads = ([], unfold load_manifest in refl, tt, λ k. refl);
}

abbrev some_events : List (Event Manifest)
some_events =
    create_key (codes "k") calls_ok
    ∷ observe (λ k. disk) place 7 1 (codes "c")
    ∷ restart (λ k. (disk, none)) not_opened
    ∷ delete_key (codes "k") (record { save = not_opened; left = none })
    ∷ []

run_events-IsSaved_example :
    IsSaved same some (run_events same some codecs (codes "l") any_date some_events no_keys)
run_events-IsSaved_example =
    run_events-IsSaved same some (λ mf. refl) codecs (codes "l") any_date some_events no_keys
      ((tt, tt), (tt, (tt, (tt, tt)))) no_keys-IsSaved
