-- ===== src/Storage/Writer/Invariant.antt =====
-- server/internal/storage/writer.go: the invariant of `SegmentWriter`, and the steps that keep it.
use simple_logging.Prelude.{
  ℕ, ◌+◌, ◌*◌, ◌≤◌, ◌<◌, ◌≡◌, refl, Bool, true, false, not, ◌&&◌, List, [], ◌∷◌, Option, none, some,
  ltb, ◌==◌, if◌then◌else◌, ◌⊎◌, inl, inr, Bool-cases, Option-cases, arith,
}
use simple_logging.Prelude.Text.{text_eq_self}
use simple_logging.Storage.Writer.{
  Disk, min_write_backoff, max_write_backoff, System, DropEvent, SegmentWriter, close_file,
  mark_unhealthy, append_line,
}

-- The open file is that of the segment date, and the only one in the set of open segments.
abbrev pub NamesMatch : Option (List ℕ) → List ℕ → List (List ℕ) → Type 0
NamesMatch none date opens = opens ≡ []
NamesMatch (some name) date opens = (name ≡ date) × (opens ≡ name ∷ [])

-- Events, the last first, that start with `dropping` and alternate.
abbrev pub IsAlternating : Bool → List DropEvent → Type 0
IsAlternating dropping [] = dropping ≡ false
IsAlternating dropping (e ∷ es) = (e.dropping ≡ dropping) × IsAlternating (not dropping) es

-- The backoff, by the time of the last call: none, and nothing dropped; or within its bounds.
abbrev pub IsWaiting : ℕ → SegmentWriter → Type 0
IsWaiting clock w =
    ((w.write_backoff ≡ 0) × (w.dropped ≡ 0) × (w.unhealthy_until ≤ clock))
    ⊎ ((2 * min_write_backoff ≤ w.write_backoff)
        × (w.write_backoff ≤ max_write_backoff)
        × (0 < w.dropped)
        × (w.unhealthy_until ≤ clock + max_write_backoff))

pub record IsSound (clock : ℕ) (w : SegmentWriter) : Type 0 where
  pub names : NamesMatch w.file w.segment_date w.open_segments
  pub waiting : IsWaiting clock w
  pub alternates : IsAlternating (ltb 0 w.write_backoff) w.events
  pub has_hook : w.hooked ≡ true

pub close_file-NamesMatch :
    (w : SegmentWriter)
    → NamesMatch w.file w.segment_date w.open_segments
    → (close_file w ≡ record w { file = none; open_segments = [] })
unfolding close_file
close_file-NamesMatch w h = elim (Option-cases w.file) [
  | inl e ↦ let q : w.open_segments ≡ [] = rw e at h in rw (close_file, e, q, e)
  | inr (name, e) ↦
      let (_, q) : NamesMatch (some name) w.segment_date w.open_segments = rw e at h in
      rw (e, close_file, q, text_eq_self name)
]

-- What the next steps need of a writer: all but its open file.
pub IsSound-mark_unhealthy :
    (clock now : ℕ) (w : SegmentWriter)
    → IsSound clock w
    → clock ≤ now
    → IsSound now (mark_unhealthy w now)
unfolding mark_unhealthy
IsSound-mark_unhealthy clock now w h later = record {
  names = h.names;
  waiting = inr (ground arith, omega arith, omega arith, ground (arith, h.waiting));
  alternates = mark_alternates;
  has_hook = h.has_hook;
}
  where
    mark_alternates :
        IsAlternating (ltb 0 (mark_unhealthy w now).write_backoff) (mark_unhealthy w now).events
    mark_alternates =
        let waits : ltb 0 (mark_unhealthy w now).write_backoff ≡ true = ground arith in
        elim (Bool-cases (ltb 0 w.write_backoff)) [
          | inl again ↦
              let not_first : (w.write_backoff == 0) ≡ false = ground arith in
              rw (waits, not_first) (rw again at h.alternates)
          | inr healthy ↦
              let at_first : (w.write_backoff == 0) ≡ true = ground arith in
              rw (waits, at_first, h.has_hook) (refl, rw healthy at h.alternates)
        ]

pub IsSound-close_file :
    (clock : ℕ) (w : SegmentWriter) → IsSound clock w → IsSound clock (close_file w)
IsSound-close_file clock w h =
    rw (close_file-NamesMatch w h.names) (record {
      names = refl;
      waiting = h.waiting;
      alternates = h.alternates;
      has_hook = h.has_hook;
    })

pub IsSound-append_line :
    (clock now : ℕ) (w : SegmentWriter) (disk : Disk) (sys : System) (name line : List ℕ)
    → IsSound clock w
    → clock ≤ now
    → w.unhealthy_until ≤ now
    → IsSound now (append_line w disk sys now name line).1
unfolding append_line
IsSound-append_line clock now w disk sys name line h later due = elim (Bool-cases sys.seek_ok) [
  | inr e ↦
      rw (e, append_line)
        (IsSound-mark_unhealthy clock now (close_file w) (IsSound-close_file clock w h) later)
  | inl e ↦ elim (Bool-cases sys.write_ok) [
    | inr e' ↦
        rw (e, e', append_line)
          (IsSound-mark_unhealthy clock now (close_file w) (IsSound-close_file clock w h) later)
    | inl e' ↦
        rw (e, e', append_line)
          (record {
            names = h.names;
            waiting = inl (refl, refl, due);
            alternates = written;
            has_hook = h.has_hook;
          })
  ]
]
  where
    written : IsAlternating (ltb 0 0) (
        if ltb 0 w.write_backoff && w.hooked
        then record { dropping = false; count = w.dropped } ∷ w.events
        else w.events)
    written = elim (Bool-cases (ltb 0 w.write_backoff)) [
      | inl again ↦ rw (again, h.has_hook) (refl, rw again at h.alternates)
      | inr healthy ↦ rw healthy (rw healthy at h.alternates)
    ]
