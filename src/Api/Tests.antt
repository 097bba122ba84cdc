-- ===== src/Api/Tests.antt =====
-- server/internal/api: runs of the log service's model at concrete inputs.
use simple_logging.Prelude.{
  ◌+◌, ◌*◌, Bool, true, false, ℕ, zero, suc, ◌≡◌, ◌≢◌, ◌<◌, ◌⊎◌, refl, List, [], ◌∷◌, ◌++◌, Option,
  none, some, length, take, drop, ok, get_or, ◌-◌, ◌≤◌, arith,
}
use simple_logging.Prelude.Int.{ℤ, pos, negsuc}
use simple_logging.Prelude.Text.{codes, trim_right, cut_text}
use simple_logging.Prelude.Slices.{take_left, drop_left}
use simple_logging.Prelude.Bufio.{newline}
use simple_logging.Api.Backward.{scan_backward_in_file}
use simple_logging.Api.Backward.Lines.{lines_between, scan_backward_in_file-lines}
use simple_logging.Api.Chunks.{LogChunk, ChunkReader, open_at}
use simple_logging.Api.Logs.{LogsPageToken, collect_lines, matches_time_range}
use simple_logging.Api.Logs.Reader.{
  Collected, collect_lines-Collected, matching, all_lines, file_lines, lines_from, unread_bytes,
}
use simple_logging.Prelude.Bytes.{put_be}
use simple_logging.Paging.Sort.{sort, insert}
use simple_logging.Paging.Heap.{arrived}
use simple_logging.Api.Merge.{
  unix_epoch, encode_forward_nanos_token, MergedPageRequest, merged_logs_page, finish_merged,
  cursors, parse_line_timestamp, in_page_range, log_entry_less,
}
use simple_logging.Api.Merge.Page.{
  merged_logs_page-page_of, merged, entries, pod_lines, chunk_lines,
}
use simple_logging.Api.LiveTail.{SegmentTail}
use simple_logging.Api.LiveTail.Growing.{complete_lines, drains, drains-complete_lines}
use simple_logging.Api.Search.{
  SearchTarget, SearchRequest, SearchJob, SearchHit, day_ns, is_some, new_search_matcher,
  clamp_max_results, max_search_max_results, scan_search_job, search_logs,
}
use simple_logging.Api.Search.Pruned.{hits_of, all_hits}
use simple_logging.Api.Search.Found.{Delivers, search_logs-Delivers}
use mathlib.Core.List.{Perm}
use mathlib.Core.List.Perm
use simple_logging.Api.Logs.Walk.{walk_pages, walk_pages-matching}

-- Some injective token format.
abbrev int_code : ℤ → ℕ × ℕ
int_code (pos o) = (0, o)
int_code (negsuc o) = (1, o)

abbrev int_parse : ℕ → ℕ → ℤ
int_parse zero o = pos o
int_parse (suc k) o = negsuc o

abbrev token_code : LogsPageToken → List ℕ
token_code t =
    let (sign, o) = int_code t.offset in sign ∷ o ∷ length t.container ∷ (t.container ++ t.segment)

abbrev token_parse : List ℕ → Option LogsPageToken
token_parse (sign ∷ o ∷ n ∷ s) =
    some (record { container = take n s; segment = drop n s; offset = int_parse sign o })
token_parse _ = none

int_parse-int_code : (z : ℤ) → int_parse (int_code z).0 (int_code z).1 ≡ z
int_parse-int_code (pos o) = refl
int_parse-int_code (negsuc o) = refl

token_parse-token_code : (t : LogsPageToken) → token_parse (token_code t) ≡ some t
token_parse-token_code t =
    rw
      (
        take_left (length t.container) t.container t.segment refl,
        drop_left (length t.container) t.container t.segment refl,
        int_parse-int_code t.offset,
      )
      refl

token_code-ne_nil : (t : LogsPageToken) → token_code t ≢ []
token_code-ne_nil t e = absurd (ground arith)

abbrev no_time : List ℕ → Option ℕ
no_time s = none

abbrev first_day : LogChunk
first_day = record {
  container = codes "app";
  segment = codes "2026-01-01";
  content = some (97 ∷ newline ∷ 98 ∷ newline ∷ []);
}

abbrev second_day : LogChunk
second_day = record {
  container = codes "app";
  segment = codes "2026-01-02";
  content = some (99 ∷ newline ∷ 100 ∷ []);
}

-- Pages of one line.
walk_pages-matching_example :
    walk_pages token_code token_parse no_time 8 (first_day ∷ second_day ∷ []) 1 0 0 []
    ≡ ok ((97 ∷ []) ∷ (98 ∷ []) ∷ (99 ∷ []) ∷ (100 ∷ []) ∷ [])
unfolding matching all_lines file_lines lines_from matches_time_range trim_right
walk_pages-matching_example =
    walk_pages-matching token_code token_parse no_time first_day (second_day ∷ []) 1 0 0
      token_parse-token_code token_code-ne_nil ((refl, tt), (tt, tt)) ((_, refl), ((_, refl), tt))

abbrev start_reader : ChunkReader
start_reader = record {
  idx = 0;
  offset = 0;
  unread = 97 ∷ newline ∷ 98 ∷ newline ∷ [];
  later = second_day ∷ [];
}

collect_lines-Collected_example :
    (ls : List (List ℕ)) × (r' : ChunkReader) × (collect_lines no_time 9 0 0 3 start_reader
      ≡ ok (ls, r'))
    × Collected no_time 0 0 (first_day ∷ second_day ∷ []) 3 start_reader ls r'
unfolding open_at unread_bytes
collect_lines-Collected_example =
    collect_lines-Collected no_time 0 0 (first_day ∷ second_day ∷ []) 9 3 start_reader
      (record { reopens = refl; present = ((_, refl), tt); in_file = (_, refl, omega arith) })
      (omega arith)

-- Three lines are wanted of a file with two.
scan_backward_in_file-lines_example :
    (offset found : ℕ) × (scan_backward_in_file 2 (97 ∷ newline ∷ 98 ∷ newline ∷ []) 4 3
      ≡ some (offset, found))
    × (((0 < offset)
          × (get_or (97 ∷ newline ∷ 98 ∷ newline ∷ []) (offset - 1) 0 ≡ newline)
          × (lines_between (97 ∷ newline ∷ 98 ∷ newline ∷ []) offset 4 ≡ 3)
          × (found ≡ 3))
        ⊎ ((offset ≡ 0)
            × (lines_between (97 ∷ newline ∷ 98 ∷ newline ∷ []) 0 4 ≤ 3)
            × (found ≡ lines_between (97 ∷ newline ∷ 98 ∷ newline ∷ []) 0 4 - 1)))
scan_backward_in_file-lines_example =
    scan_backward_in_file-lines 2 (97 ∷ newline ∷ 98 ∷ newline ∷ []) 4 3 (omega arith) (omega arith)
      (omega arith) (omega arith)

abbrev plain : List ℕ → List ℕ
plain b = b

abbrev plain_back : List ℕ → Option (List ℕ)
plain_back b = some b

-- A time of one byte, in nanoseconds since 1970.
abbrev byte_time : List ℕ → Option ℕ
byte_time [] = none
byte_time (c ∷ s) = some (unix_epoch + c)

-- A file is one line.
abbrev one_line : List ℕ → List (List ℕ) × Bool
one_line file = (file ∷ [], false)

abbrev chunk_of : List ℕ → LogChunk
chunk_of text = record { container = text; segment = codes "2026-01-01"; content = some text }

-- Two containers, the second with the earlier line.
abbrev two_containers : List (List LogChunk)
two_containers = (chunk_of (codes "b later") ∷ chunk_of (codes "a first") ∷ []) ∷ []

abbrev one_at_a_time : MergedPageRequest
one_at_a_time = record {
  start_time = 0;
  end_time = 0;
  page_size = 1;
  page_token = [];
  load_last_page = false;
}

merged_logs_page-page_of_example :
    merged_logs_page byte_time one_line plain plain_back two_containers one_at_a_time
    ≡ ok (codes "a first" ∷ [], put_be 8 97, [])
unfolding merged entries pod_lines chunk_lines sort insert arrived finish_merged cursors
    parse_line_timestamp in_page_range log_entry_less encode_forward_nanos_token
merged_logs_page-page_of_example =
    merged_logs_page-page_of byte_time one_line plain plain_back two_containers one_at_a_time 0 0
      ((refl, (refl, tt)), tt) refl

-- A file of which the tail has seen "old", and that grows in the middle of lines.
abbrev open_tail : SegmentTail
open_tail = record { path = codes "2026-01-01.log"; position = 4; partial = [] }

drains-complete_lines_example :
    (drains (codes "old\n") (codes "a b" ∷ codes "c\r\nd" ∷ codes "e\nf" ∷ []) open_tail).0
    ≡ codes "a bc" ∷ codes "de" ∷ []
unfolding complete_lines trim_right
drains-complete_lines_example =
    drains-complete_lines (codes "old\n") (codes "a b" ∷ codes "c\r\nd" ∷ codes "e\nf" ∷ [])
      open_tail refl

-- Days are counted from the year 1, and a line's time is its first byte as a number of days.
abbrev day_time : List ℕ → Option ℕ
day_time [] = none
day_time (c ∷ s) = some (c * day_ns)

abbrev search_target : SearchTarget
search_target = record {
  namespace = codes "ops";
  pod = codes "web";
  container = codes "main";
  segments = some (
      record { date = some (97 * day_ns); content = some (codes "a x") }
      ∷ record { date = none; content = none }
      ∷ record { date = some (98 * day_ns); content = some (codes "b x") }
      ∷ []);
}

abbrev search_request : SearchRequest
search_request = record {
  query = codes "X";
  regex = false;
  max_results = 0;
  start_time_unix_ms = 0;
  end_time_unix_ms = 0;
  newest_first = true;
}

-- One worker, which scans one job after the other.
abbrev one_worker : (SearchJob → List SearchHit) → List SearchJob → List SearchHit
one_worker scan [] = []
one_worker scan (j ∷ js) = scan j ++ one_worker scan js

one_worker-hits :
    (matches : List ℕ → Bool) (start end : ℕ) (js : List SearchJob)
    → Perm
        (one_worker (scan_search_job day_time one_line matches start end) js)
        (hits_of day_time one_line matches start end js)
unfolding hits_of
one_worker-hits matches start end [] = Perm.refl []
one_worker-hits matches start end (j ∷ js) =
    Perm.append_left (scan_search_job day_time one_line matches start end j)
      (one_worker-hits matches start end js)

abbrev keep_case : List ℕ → List ℕ
keep_case s = s

abbrev has_x : List ℕ → Bool
has_x line = is_some (cut_text line (codes "X"))

search_logs-Delivers_example :
    Delivers (clamp_max_results 0) (all_hits day_time one_line has_x 0 0 (search_target ∷ [])) (
      search_logs day_time one_line
        (λ q. none)
        keep_case
        one_worker
        search_request
        (search_target ∷ []))
    × (clamp_max_results 0 ≤ max_search_max_results)
unfolding parse_line_timestamp
search_logs-Delivers_example =
    search_logs-Delivers day_time one_line (λ q. none) keep_case one_worker search_request
      (search_target ∷ []) refl (unfold new_search_matcher in refl)
      (
        (
          (refl, ((omega arith, omega arith), tt)),
          (tt, ((refl, ((omega arith, omega arith), tt)), tt)),
        ),
        tt,
      )
      (λ js. one_worker-hits has_x 0 0 js)
