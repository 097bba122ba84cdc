-- ===== src/Api/LiveTail.antt =====
-- server/internal/api/log_service.go: `tailLatestSegment` and `segmentTail`, which deliver the lines that
-- are written after a request.
pub mod Growing
use simple_logging.Prelude.{
  ℕ, zero, suc, ◌+◌, ◌≡◌, refl, Bool, true, false, List, [], ◌∷◌, ◌++◌, map, Option, none, some,
  length, drop, if◌then◌else◌, Result, ok, err, ◌>>=◌,
}
use simple_logging.Prelude.Text.{text_eq, text_lt, trim_right}
use simple_logging.Prelude.Bufio.{raw_line, is_complete}
use simple_logging.Prelude.Assoc.{find, put}
use simple_logging.Paging.Sort.{sort}

-- A log segment: its path and its bytes.
pub record Segment : Type 0 where
  pub path : List ℕ
  pub bytes : List ℕ

-- `latestSegmentPath`, on the segments in the order of their dates.
unfoldable pub latest_segment : List Segment → Option Segment
latest_segment [] = none
latest_segment (s ∷ []) = some s
latest_segment (s ∷ t ∷ ss) = latest_segment (t ∷ ss)

-- `segmentTail`: the path, empty if no file is open, how much of the file is read, and the line read
-- before its newline was written.
pub record SegmentTail : Type 0 where
  pub path : List ℕ
  pub position : ℕ
  pub partial : List ℕ

abbrev pub new_tail : SegmentTail
new_tail = record { path = []; position = 0; partial = [] }

-- How os.Open ends.
pub data OpenResult : Type 0 where
  opened : OpenResult
  missing : OpenResult
  failed : OpenResult

pub data TailError : Type 0 where
  no_containers : TailError
  open_failed : TailError

unfoldable pub follow :
    Bool → OpenResult → List Segment → SegmentTail → Result TailError SegmentTail
follow at_end answer segments t = elim (latest_segment segments) [
  | none ↦ ok t
  | some latest ↦ if text_eq latest.path t.path then ok t else elim answer [
    | missing ↦ ok t
    | failed ↦ err open_failed
    | opened ↦ ok (record {
      path = latest.path;
      position = if at_end then length latest.bytes else 0;
      partial = [];
    })
  ]
]

-- The loop of `drain` with fuel, on the bytes of the open file: the lines that it delivers.
unfoldable pub drain_lines : ℕ → List ℕ → SegmentTail → List (List ℕ) × SegmentTail
drain_lines zero bytes t = ([], t)
drain_lines (suc f) bytes t =
    let chunk = (raw_line (drop t.position bytes)).0 in
    let read : SegmentTail = record t {
      position = t.position + length chunk;
      partial = t.partial ++ chunk;
    } in
    let rest = drain_lines f bytes (record read { partial = [] }) in
    if is_complete chunk then (trim_right read.partial ∷ rest.0, rest.1) else ([], read)

unfoldable pub drain : List ℕ → SegmentTail → List (List ℕ) × SegmentTail
drain bytes t = drain_lines (suc (length bytes)) bytes t

-- A container's directory: its name and its segments.
pub record TailDir : Type 0 where
  pub name : List ℕ
  pub segments : List Segment

-- The bytes of a path, and nothing more to read where the file is gone.
abbrev pub bytes_at : List ℕ → List Segment → List ℕ
bytes_at path [] = []
bytes_at path (s ∷ ss) = if text_eq s.path path then s.bytes else bytes_at path ss

abbrev segments_of : List ℕ → List TailDir → List Segment
segments_of name [] = []
segments_of name (d ∷ ds) = if text_eq d.name name then d.segments else segments_of name ds

abbrev pub Tails : Type 0
Tails = List (List ℕ × SegmentTail)

-- `sortedKeys`
unfoldable pub sorted_keys : Tails → List (List ℕ)
sorted_keys tails = sort text_lt (map (λ t. t.0) tails)

-- A turn's drains, container by container.
unfoldable pub drain_all : List TailDir → List (List ℕ) → Tails → List (List ℕ) × Tails
drain_all dirs [] tails = ([], tails)
drain_all dirs (name ∷ names) tails = elim (find text_eq name tails) [
  | none ↦ drain_all dirs names tails
  | some t ↦
      let drained = drain (bytes_at t.path (segments_of name dirs)) t in
      let rest = drain_all dirs names (put text_eq name drained.1 tails) in
      (drained.0 ++ rest.0, rest.1)
]

-- The loop that moves to newer segments; a container that is not known yet gets a new tail.
unfoldable pub follow_all : Bool → OpenResult → List TailDir → Tails → Result TailError Tails
follow_all at_end answer [] tails = ok tails
follow_all at_end answer (d ∷ ds) tails =
    let t : SegmentTail = elim (find text_eq d.name tails) [ none ↦ new_tail | some t ↦ t ] in
    follow at_end answer d.segments t >>= λ t'.
    follow_all at_end answer ds (put text_eq d.name t' tails)

-- What a turn of the loop finds: the containers at the drains, and at the listing after the wait
-- with how files open, `none` for a listing that fails.
pub record Turn : Type 0 where
  pub before : List TailDir
  pub after : Option (List TailDir)
  pub opening : OpenResult

unfoldable pub tail_turns : List Turn → Tails → Result TailError (List (List ℕ))
tail_turns [] tails = ok []
tail_turns (turn ∷ turns) tails =
    let drained = drain_all turn.before (sorted_keys tails) tails in
    let followed : Result TailError Tails = elim (turn.after) [
      | none ↦ ok drained.1
      | some dirs ↦ follow_all false turn.opening dirs drained.1
    ] in
    followed >>= λ tails'. tail_turns turns tails' >>= λ lines. ok (drained.0 ++ lines)

unfoldable pub tail_latest_segment :
    List TailDir → OpenResult → List Turn → Result TailError (List (List ℕ))
tail_latest_segment [] answer turns = err no_containers
tail_latest_segment (d ∷ ds) answer turns =
    follow_all true answer (d ∷ ds) [] >>= λ tails. tail_turns turns tails
