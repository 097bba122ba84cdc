-- ===== src/Api/Search.antt =====
-- server/internal/api/search_service.go: `SearchLogs`, which scans the segments of the selected
-- containers for lines that match a query. A time is a number of nanoseconds since 1 January of the
-- year 1, and 0 is Go's zero time.
pub mod Pruned
pub mod Found
use simple_logging.Prelude.{
  ℕ, zero, suc, ◌+◌, ◌-◌, ◌*◌, ◌/◌, ◌^◌, ◌≡◌, refl, Bool, true, false, not, ◌&&◌, ◌||◌, List, [],
  ◌∷◌, ◌++◌, Option, none, some, length, take, ltb, leb, ◌==◌, if◌then◌else◌, Result, ok, err,
  ◌>>=◌,
}
use simple_logging.Prelude.Text.{codes, text_eq, text_lt, cut_text}
use simple_logging.Paging.Sort.{sort}
use simple_logging.Api.Logs.{Error, invalid_argument, internal}
use simple_logging.Api.Merge.{unix_epoch, parse_line_timestamp}

abbrev pub day_ns : ℕ
day_ns = 86400 * 10 ^ 9

abbrev pub default_search_max_results : ℕ
default_search_max_results = 1000

abbrev pub max_search_max_results : ℕ
max_search_max_results = 5000

-- A segment file: the date of its name, `none` if that is no date, and its content, `none` if it
-- cannot be opened.
pub record SearchSegment : Type 0 where
  pub date : Option ℕ
  pub content : Option (List ℕ)

-- `searchTarget`, with what the listing of its segments gives.
pub record SearchTarget : Type 0 where
  pub namespace : List ℕ
  pub pod : List ℕ
  pub container : List ℕ
  pub segments : Option (List SearchSegment)

-- `searchJob`
pub record SearchJob : Type 0 where
  pub namespace : List ℕ
  pub pod : List ℕ
  pub container : List ℕ
  pub segment_date : ℕ
  pub content : Option (List ℕ)

-- A response of the stream: a line and where it stands.
pub record SearchHit : Type 0 where
  pub line : List ℕ
  pub namespace : List ℕ
  pub pod : List ℕ
  pub container : List ℕ

pub record SearchRequest : Type 0 where
  pub query : List ℕ
  pub regex : Bool
  pub max_results : ℕ
  pub start_time_unix_ms : ℕ
  pub end_time_unix_ms : ℕ
  pub newest_first : Bool

unfoldable pub truncate_to_day : ℕ → ℕ
truncate_to_day t = t / day_ns * day_ns

-- The tests of `searchJobsFor` on a segment's date.
unfoldable pub covers_range : ℕ → ℕ → ℕ → Bool
unfolding truncate_to_day
covers_range start end date =
    not (not (start == 0) && ltb date (truncate_to_day start))
    && not (not (end == 0) && ltb end date)

abbrev pub job_of : SearchTarget → ℕ → Option (List ℕ) → SearchJob
job_of t date content = record {
  namespace = t.namespace;
  pod = t.pod;
  container = t.container;
  segment_date = date;
  content = content;
}

unfoldable pub segment_jobs : ℕ → ℕ → SearchTarget → List SearchSegment → List SearchJob
segment_jobs start end t [] = []
segment_jobs start end t (s ∷ ss) =
    let rest = segment_jobs start end t ss in
    elim (s.date) [
      | none ↦ rest
      | some date ↦ if covers_range start end date then job_of t date s.content ∷ rest else rest
    ]

unfoldable pub search_jobs_for : ℕ → ℕ → List SearchTarget → Result Error (List SearchJob)
unfolding segment_jobs
search_jobs_for start end [] = ok []
search_jobs_for start end (t ∷ ts) = elim (t.segments) [
  | none ↦ err internal
  | some segments ↦
      search_jobs_for start end ts >>= λ jobs. ok (segment_jobs start end t segments ++ jobs)
]

-- The comparison of the jobs.
unfoldable pub job_less : Bool → SearchJob → SearchJob → Bool
job_less newest_first a b =
    if not (a.segment_date == b.segment_date)
    then (if newest_first
        then ltb b.segment_date a.segment_date
        else ltb a.segment_date b.segment_date)
    else if not (text_eq a.pod b.pod)
    then text_lt a.pod b.pod
    else text_lt a.container b.container

-- `storedMessage`
unfoldable pub stored_message : List ℕ → List ℕ
stored_message line = elim (cut_text line (codes "] ")) [
  | none ↦ line
  | some (prefix, message) ↦ message
]

abbrev pub is_some : Option (List ℕ × List ℕ) → Bool
is_some none = false
is_some (some parts) = true

-- `compile` is regexp.Compile with MatchString, and `to_lower` is strings.ToLower.
module _ (compile : List ℕ → Option (List ℕ → Bool)) (to_lower : List ℕ → List ℕ) where
  unfoldable pub new_search_matcher : List ℕ → Bool → Result Error (List ℕ → Bool)
  new_search_matcher query true = elim (compile query) [
    | none ↦ err invalid_argument
    | some matches ↦ ok matches
  ]
  new_search_matcher query false = ok (λ line. is_some (cut_text (to_lower line) (to_lower query)))

unfoldable pub clamp_max_results : ℕ → ℕ
clamp_max_results n =
    let given = if n == 0 then default_search_max_results else n in
    if ltb max_search_max_results given then max_search_max_results else given

abbrev pub time_of_ms : ℕ → ℕ
time_of_ms ms = if ms == 0 then 0 else unix_epoch + ms * 10 ^ 6

-- The loop that sends: the hits up to the maximum, and whether that was reached.
unfoldable pub send_results : ℕ → ℕ → List SearchHit → List SearchHit × Bool
send_results max_results sent [] = ([], false)
send_results max_results sent (h ∷ hs) =
    let rest = send_results max_results (sent + 1) hs in
    if leb max_results (sent + 1) then (h ∷ [], true) else (h ∷ rest.0, rest.1)

-- `parse_time` is time.Parse with RFC 3339, `scan_lines` is the line scanner on a file, whose error is not read.
module _ (parse_time : List ℕ → Option ℕ) (scan_lines : List ℕ → List (List ℕ) × Bool) where
  module _ (matches : List ℕ → Bool) (start end : ℕ) where
    -- The tests of `scanSearchJob` on a line.
    unfoldable pub is_hit : List ℕ → Bool
    is_hit line =
        let ts = parse_line_timestamp parse_time scan_lines line in
        not (not (start == 0) && ltb ts start)
        && (not (not (end == 0) && ltb end ts) && matches (stored_message line))

    unfoldable pub scan_hits : SearchJob → List (List ℕ) → List SearchHit
    scan_hits job [] = []
    scan_hits job (l ∷ ls) =
        let rest = scan_hits job ls in
        if is_hit l
        then record {
          line = l;
          namespace = job.namespace;
          pod = job.pod;
          container = job.container;
        }
          ∷ rest
        else rest

    -- `scanSearchJob` up to the end of its file.
    unfoldable pub scan_search_job : SearchJob → List SearchHit
    unfolding scan_hits
    scan_search_job job = elim (job.content) [
      | none ↦ []
      | some file ↦ scan_hits job (scan_lines file).0
    ]

  -- `arrivals` is the order in which the workers' results arrive for the queue of jobs.
  module _ (compile : List ℕ → Option (List ℕ → Bool)) (to_lower : List ℕ → List ℕ)
      (arrivals : (SearchJob → List SearchHit) → List SearchJob → List SearchHit) where
    unfoldable pub search_logs :
        SearchRequest → List SearchTarget → Result Error (List SearchHit × Bool)
    unfolding search_jobs_for new_search_matcher send_results
    search_logs req targets =
        if text_eq req.query []
        then err invalid_argument
        else (new_search_matcher compile to_lower req.query req.regex >>= λ matches.
            let start = time_of_ms req.start_time_unix_ms in
            let end = time_of_ms req.end_time_unix_ms in
            search_jobs_for start end targets >>= λ jobs. ok (
              send_results (clamp_max_results req.max_results) 0 (
                arrivals (scan_search_job matches start end)
                  (sort (job_less req.newest_first) jobs))))
