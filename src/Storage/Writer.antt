-- ===== src/Storage/Writer.antt =====
-- server/internal/storage/writer.go: `SegmentWriter`. The disk is the container's directory, a
-- function from a segment's date to its bytes. What the operating system answers to one call is an
-- argument of the call. Times and durations are nanoseconds, and 0 is Go's zero time.
pub mod Invariant
pub mod Sound
pub mod Stored
use simple_logging.Prelude.{
  ℕ, zero, suc, ◌+◌, ◌-◌, ◌*◌, ◌^◌, ◌%◌, ◌≤◌, ◌<◌, ◌≡◌, refl, Bool, true, false, not, ◌&&◌, ◌||◌,
  List, [], ◌∷◌, ◌++◌, Option, none, some, length, take, ltb, leb, ◌==◌, if◌then◌else◌, max, min,
}
use simple_logging.Prelude.Text.{codes, text_eq}
use simple_logging.Prelude.Bufio.{newline}
use simple_logging.Storage.Lines.{cap_line}

abbrev pub Disk : Type 0
Disk = List ℕ → Option (List ℕ)

abbrev pub content : Disk → List ℕ → List ℕ
content disk date = elim (disk date) [ none ↦ [] | some bytes ↦ bytes ]

abbrev pub set_file : Disk → List ℕ → List ℕ → Disk
set_file disk date bytes d = if text_eq d date then some bytes else disk d

abbrev pub min_write_backoff : ℕ
min_write_backoff = 10 ^ 9

abbrev pub max_write_backoff : ℕ
max_write_backoff = 30 * 10 ^ 9

-- Which of the system calls of one write succeed. A failed write has written the first `partial`
-- bytes of what it was given.
pub record System : Type 0 where
  pub sync_ok : Bool
  pub close_ok : Bool
  pub mkdir_ok : Bool
  pub open_ok : Bool
  pub seek_ok : Bool
  pub write_ok : Bool
  pub partial : ℕ

-- A call of the drop-state hook: `dropping` and `dropped`.
pub record DropEvent : Type 0 where
  pub dropping : Bool
  pub count : ℕ

-- `file` is the date that the open file was opened for; `open_segments` are the dates that the
-- writer has in the set of that name, and `events` the calls of the hook so far, the last first.
pub record SegmentWriter : Type 0 where
  pub file : Option (List ℕ)
  pub segment_date : List ℕ
  pub had_existing_content : Bool
  pub unhealthy_until : ℕ
  pub write_backoff : ℕ
  pub dropped : ℕ
  pub hooked : Bool
  pub events : List DropEvent
  pub open_segments : List (List ℕ)

-- `NewSegmentWriter`, with whether `ListSegments` has found any segment.
abbrev pub new_segment_writer : Bool → SegmentWriter
new_segment_writer has_segments = record {
  file = none;
  segment_date = [];
  had_existing_content = has_segments;
  unhealthy_until = 0;
  write_backoff = 0;
  dropped = 0;
  hooked = false;
  events = [];
  open_segments = [];
}

unfoldable pub set_drop_state_hook : SegmentWriter → SegmentWriter
set_drop_state_hook w = record w { hooked = true }

abbrev pub remove_date : List ℕ → List (List ℕ) → List (List ℕ)
remove_date date [] = []
remove_date date (d ∷ ds) = if text_eq d date then remove_date date ds else d ∷ remove_date date ds

unfoldable pub close_file : SegmentWriter → SegmentWriter
close_file w = elim (w.file) [
  | none ↦ w
  | some date ↦ record w { file = none; open_segments = remove_date date w.open_segments }
]

unfoldable pub mark_unhealthy : SegmentWriter → ℕ → SegmentWriter
mark_unhealthy w now =
    let backoff = max w.write_backoff min_write_backoff in
    record w {
      dropped = w.dropped + 1;
      events =
          if w.write_backoff == 0 && w.hooked
          then record { dropping = true; count = w.dropped + 1 } ∷ w.events
          else w.events;
      unhealthy_until = now + backoff;
      write_backoff = min (2 * backoff) max_write_backoff;
    }

-- The part of `rollToLocked` behind the close: the directory, and the new file.
unfoldable pub open_segment : SegmentWriter → Disk → System → List ℕ → Bool × SegmentWriter × Disk
open_segment w disk sys date = if not (sys.mkdir_ok && sys.open_ok) then (false, w, disk) else (
  true,
  record w {
    file = some date;
    open_segments = date ∷ remove_date date w.open_segments;
    segment_date = date;
    had_existing_content = true;
  },
  set_file disk date (content disk date),
)

-- `rollToLocked`; `false` is an error.
unfoldable pub roll_to : SegmentWriter → Disk → System → List ℕ → Bool × SegmentWriter × Disk
unfolding close_file open_segment
roll_to w disk sys date = elim (w.file) [
  | none ↦ open_segment w disk sys date
  | some _ ↦
      if not (sys.sync_ok && sys.close_ok)
      then (false, close_file w, disk)
      else open_segment (close_file w) disk sys date
]

-- Where a line was stored.
pub record Location : Type 0 where
  pub segment : List ℕ
  pub offset : ℕ
  pub line_length : ℕ

-- From the seek on, with the file `date` open; the bytes written are the line and a newline.
unfoldable pub append_line :
    SegmentWriter → Disk → System → ℕ → List ℕ → List ℕ → Option Location × SegmentWriter × Disk
unfolding close_file mark_unhealthy
append_line w disk sys now date line =
    let old = content disk date in
    let bytes = line ++ (newline ∷ []) in
    if not sys.seek_ok
    then (none, mark_unhealthy (close_file w) now, disk)
    else if not sys.write_ok
    then (
      none,
      mark_unhealthy (close_file w) now,
      set_file disk date (old ++ take sys.partial bytes),
    )
    else (
      some (record {
        segment = w.segment_date;
        offset = length old;
        line_length = (length bytes - 1) % 2 ^ 32;
      }),
      record w {
        events =
            if ltb 0 w.write_backoff && w.hooked
            then record { dropping = false; count = w.dropped } ∷ w.events
            else w.events;
        dropped = 0;
        write_backoff = 0;
      },
      set_file disk date (old ++ bytes),
    )

-- `WriteWithLocation` behind the check of the backoff, by the open file, with the line cut.
unfoldable pub roll_and_append :
    SegmentWriter → Disk → System → ℕ → List ℕ → List ℕ → Option Location × SegmentWriter × Disk
unfolding roll_to append_line mark_unhealthy
roll_and_append w disk sys now date line =
    let (opened, w', disk') = roll_to w disk sys date in
    if opened then append_line w' disk' sys now date line else (none, mark_unhealthy w' now, disk')

unfoldable pub write_due :
    Option (List ℕ)
    → SegmentWriter
    → Disk
    → System
    → ℕ
    → List ℕ
    → List ℕ
    → Option Location × SegmentWriter × Disk
unfolding roll_and_append
write_due none w disk sys now date line = roll_and_append w disk sys now date line
write_due (some name) w disk sys now date line =
    if text_eq date w.segment_date
    then append_line w disk sys now name line
    else roll_and_append w disk sys now date line

-- `date_of` is time.Time.Format with the form of a date, in UTC.
module _ (date_of : ℕ → List ℕ) where
  -- `WriteWithLocation`; `none` is a dropped line.
  unfoldable pub write_with_location :
      SegmentWriter → Disk → System → ℕ → ℕ → List ℕ → Option Location × SegmentWriter × Disk
  unfolding write_due
  write_with_location w disk sys now line_ts line =
      if ltb now w.unhealthy_until
      then (none, record w { dropped = w.dropped + 1 }, disk)
      else write_due w.file w disk sys now (date_of line_ts) (cap_line line)

-- One write of a run, some time after the one before.
pub record Call : Type 0 where
  pub sys : System
  pub elapsed : ℕ
  pub line_ts : ℕ
  pub line : List ℕ

unfoldable pub run_writes :
    (ℕ → List ℕ)
    → SegmentWriter
    → Disk
    → ℕ
    → List Call
    → List (Option Location) × SegmentWriter × Disk
run_writes date_of w disk clock [] = ([], w, disk)
run_writes date_of w disk clock (c ∷ cs) =
    let (loc, w', disk') =
      write_with_location date_of w disk c.sys (clock + c.elapsed) c.line_ts c.line in
    let (locs, w'', disk'') = run_writes date_of w' disk' (clock + c.elapsed) cs in
    (loc ∷ locs, w'', disk'')

-- `Close`
unfoldable pub close : SegmentWriter → SegmentWriter
unfolding close_file
close w = close_file w
