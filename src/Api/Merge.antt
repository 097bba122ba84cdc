-- ===== src/Api/Merge.antt =====
-- server/internal/api/merge.go and workload_service.go: `mergedLogsPage`, a page of the lines of
-- several containers in timestamp order. A time is a number of nanoseconds, and 0 is Go's zero time,
-- 1 January of the year 1.
pub mod Page
use simple_logging.Prelude.{
  ℕ, zero, suc, ◌+◌, ◌-◌, ◌*◌, ◌%◌, ◌^◌, ◌≤◌, ◌<◌, ◌≡◌, refl, Bool, true, false, not, ◌&&◌, ◌||◌,
  List, [], ◌∷◌, ◌++◌, Option, none, some, length, take, drop, get_or, ltb, leb, ◌==◌,
  if◌then◌else◌, map, arith, Result, ok, err, ◌>>=◌,
}
use simple_logging.Prelude.Text.{text_eq, index_byte}
use simple_logging.Prelude.Bytes.{put_be, get_be}
use simple_logging.Prelude.Order.{IsLess}
use simple_logging.Paging.Sort.{sort}
use simple_logging.Paging.Heap.{push_bounded}
use simple_logging.Api.Chunks.{LogChunk}
use simple_logging.Api.Logs.{Error, invalid_argument, internal, clamp_page_size}

-- `logEntry`
pub record LogEntry : Type 0 where
  pub ts : ℕ
  pub idx : ℕ
  pub text : List ℕ

unfoldable pub log_entry_less : LogEntry → LogEntry → Bool
log_entry_less a b = if a.ts == b.ts then ltb a.idx b.idx else ltb a.ts b.ts

pub log_entry_less-IsLess : IsLess log_entry_less
unfolding log_entry_less
log_entry_less-IsLess = record {
  less_asymm = λ a b e. ground arith;
  less_split = λ a b c e. ground arith;
}

-- 1 January 1970.
abbrev pub unix_epoch : ℕ
unix_epoch = 62135596800 * 10 ^ 9

-- `UnixNano`, the int64 as a uint64: the time since 1970, modulo 2 ^ 64.
abbrev pub unix_nano : ℕ → ℕ
unix_nano t = (t + (2 ^ 66 - unix_epoch)) % 2 ^ 64

-- An int64 that is above 0.
abbrev pub is_positive : ℕ → Bool
is_positive bits = ltb 0 bits && ltb bits (2 ^ 63)

-- `nanosToken`
pub record NanosToken : Type 0 where
  pub nanos : ℕ
  pub backward : Bool

-- `base64` and `unbase64` are encoding/base64.
module _ (base64 : List ℕ → List ℕ) (unbase64 : List ℕ → Option (List ℕ)) where
  unfoldable pub encode_forward_nanos_token : ℕ → List ℕ
  encode_forward_nanos_token nanos = base64 (put_be 8 nanos)

  unfoldable pub encode_backward_nanos_token : ℕ → List ℕ
  encode_backward_nanos_token nanos = base64 (1 ∷ put_be 8 nanos)

  unfoldable pub decode_nanos_token : List ℕ → Result Error NanosToken
  decode_nanos_token token = elim (unbase64 token) [
    | none ↦ err invalid_argument
    | some b ↦
        if length b == 8
        then ok (record { nanos = get_be b; backward = false })
        else if length b == 9
        then (if not (get_or b 0 0 == 1)
            then err invalid_argument
            else ok (record { nanos = get_be (drop 1 b); backward = true }))
        else err invalid_argument
  ]

-- `mergedPageRequest`; times are Unix seconds that are not negative.
pub record MergedPageRequest : Type 0 where
  pub start_time : ℕ
  pub end_time : ℕ
  pub page_size : ℕ
  pub page_token : List ℕ
  pub load_last_page : Bool

abbrev pub time_bound : ℕ → ℕ
time_bound seconds = if seconds == 0 then 0 else unix_epoch + seconds * 10 ^ 9

-- The tests of the scan on a line's time, with the cursors' nanoseconds, 0 for none.
unfoldable pub in_page_range : ℕ → ℕ → ℕ → ℕ → ℕ → Bool
in_page_range start end after before ts =
    not (not (start == 0) && ltb ts start)
    && (not (not (end == 0) && ltb end ts)
        && (not (is_positive after && not (ltb (unix_epoch + after) ts))
            && not (is_positive before && not (ltb ts (unix_epoch + before)))))

-- What the scan keeps.
pub record MergeScan : Type 0 where
  pub heap : List LogEntry
  pub insert_idx : ℕ
  pub matching_count : ℕ

-- `parse_time` is time.Parse with RFC 3339, and `scan_lines` the bufio.Scanner on a file, with
-- whether it ends with an error.
module _ (parse_time : List ℕ → Option ℕ) (scan_lines : List ℕ → List (List ℕ) × Bool) where
  unfoldable pub parse_line_timestamp : List ℕ → ℕ
  parse_line_timestamp line = elim (index_byte line b' ') [
    | none ↦ 0
    | some i ↦ elim (parse_time (take i line)) [ none ↦ 0 | some ts ↦ ts ]
  ]

  -- `in_range` is `in_page_range` with the request's times.
  module _ (in_range : ℕ → Bool) (reversed : Bool) (page_size : ℕ) where
    unfoldable pub visit_line : MergeScan → List ℕ → MergeScan
    unfolding parse_line_timestamp
    visit_line s line =
        let ts = parse_line_timestamp line in
        if not (in_range ts) then s else record {
          heap =
              push_bounded log_entry_less reversed page_size s.heap
                (record { ts = ts; idx = s.insert_idx; text = line });
          insert_idx = s.insert_idx + 1;
          matching_count = s.matching_count + 1;
        }

    unfoldable pub visit_lines : MergeScan → List (List ℕ) → MergeScan
    visit_lines s [] = s
    visit_lines s (l ∷ ls) = visit_lines (visit_line s l) ls

    unfoldable pub scan_chunks : MergeScan → List LogChunk → Result Error MergeScan
    unfolding visit_lines
    scan_chunks s [] = ok s
    scan_chunks s (c ∷ cs) = elim (c.content) [
      | none ↦ scan_chunks s cs
      | some file ↦ elim ((scan_lines file).1) [
        | true ↦ err internal
        | false ↦ scan_chunks (visit_lines s (scan_lines file).0) cs
      ]
    ]

    -- The chunks of one pod after the other.
    unfoldable pub scan_pods : MergeScan → List (List LogChunk) → Result Error MergeScan
    unfolding scan_chunks
    scan_pods s [] = ok s
    scan_pods s (p ∷ ps) = scan_chunks s p >>= λ s'. scan_pods s' ps

  -- The cursors of a request: after and before.
  module _ (base64 : List ℕ → List ℕ) (unbase64 : List ℕ → Option (List ℕ)) where
    unfoldable pub cursors : MergedPageRequest → Result Error (ℕ × ℕ)
    unfolding decode_nanos_token
    cursors req =
        if text_eq req.page_token []
        then ok (0, 0)
        else decode_nanos_token base64 unbase64 req.page_token >>= λ t.
            ok (if t.backward then (0, t.nanos) else (t.nanos, 0))

    -- From the sorted page on: the lines and the tokens.
    unfoldable pub finish_merged :
        Bool → ℕ → ℕ → ℕ → List LogEntry → List (List ℕ) × List ℕ × List ℕ
    finish_merged reversed after before count page =
        let has_more = ltb (length page) count in
        let nonempty = ltb 0 (length page) in
        let first = (get_or page 0 (record { ts = 0; idx = 0; text = [] })).ts in
        let last = (get_or page (length page - 1) (record { ts = 0; idx = 0; text = [] })).ts in
        let next_of = encode_forward_nanos_token base64 unbase64 (unix_nano last) in
        let prev_of = encode_backward_nanos_token base64 unbase64 (unix_nano first) in
        (
          map (λ e. e.text) page,
          if reversed
              then (if is_positive before && nonempty then next_of else [])
              else (if has_more && nonempty then next_of else []),
          if reversed
              then (if has_more && nonempty then prev_of else [])
              else (if is_positive after && nonempty then prev_of else []),
        )

    unfoldable pub merged_logs_page :
        List (List LogChunk) → MergedPageRequest → Result Error (List (List ℕ) × List ℕ × List ℕ)
    unfolding cursors scan_pods finish_merged in_page_range
    merged_logs_page pods req = cursors req >>= λ c.
        let reversed = req.load_last_page || is_positive c.1 in
        let in_range =
          in_page_range (time_bound req.start_time) (time_bound req.end_time) c.0 c.1 in
        scan_pods in_range reversed (clamp_page_size req.page_size)
          (record { heap = []; insert_idx = 0; matching_count = 0 }) pods
        >>= λ s. ok (finish_merged reversed c.0 c.1 s.matching_count (sort log_entry_less s.heap))
