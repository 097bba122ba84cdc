-- ===== src/Storage/Writer/Sound.antt =====
-- server/internal/storage/writer.go: that a write keeps the invariant.
use simple_logging.Prelude.{
  ℕ, ◌+◌, ◌≤◌, ◌<◌, ◌≡◌, refl, sym, ◌∙◌, Bool, true, false, ◌&&◌, List, [], Option, none, some, ltb,
  if◌then◌else◌, inl, inr, Bool-cases, Option-cases, arith,
}
use mathlib.Core.Path.{subst}
use simple_logging.Prelude.Text.{text_eq, text_eq_iff}
use simple_logging.Storage.Lines.{cap_line}
use simple_logging.Storage.Writer.{
  Disk, content, set_file, System, SegmentWriter, close_file, mark_unhealthy, open_segment, roll_to,
  Location, append_line, write_due, write_with_location,
}
use simple_logging.Storage.Writer.Invariant.{
  NamesMatch, IsSound, close_file-NamesMatch, IsSound-mark_unhealthy, IsSound-close_file,
  IsSound-append_line,
}

content_if :
    (disk : Disk) (bytes d : List ℕ) (b : Bool)
    → content (λ x. if b then some bytes else disk d) d ≡ (if b then bytes else content disk d)
content_if disk bytes d true = refl
content_if disk bytes d false = refl

pub content-set_file :
    (disk : Disk) (date bytes d : List ℕ)
    → content (set_file disk date bytes) d ≡ (if text_eq d date then bytes else content disk d)
content-set_file disk date bytes d = content_if disk bytes d (text_eq d date)

-- Creating the file that is missing changes no content.
content-create :
    (disk : Disk) (date d : List ℕ)
    → content (set_file disk date (content disk date)) d ≡ content disk d
content-create disk date d =
    content-set_file disk date (content disk date) d
    ∙ elim (Bool-cases (text_eq d date)) [ inl e ↦ rw (e, (text_eq_iff d date).0 e) | inr e ↦ rw e ]

abbrev pub opens : System → Bool
opens sys = sys.sync_ok && (sys.close_ok && (sys.mkdir_ok && sys.open_ok))

-- What `rollToLocked` may do.
pub record Rolled (sys : System) (clock : ℕ) (w : SegmentWriter) (disk : Disk) (date : List ℕ)
    (p : Bool × SegmentWriter × Disk) : Type 0 where
  pub sound : IsSound clock p.1
  pub due : p.1.unhealthy_until ≡ w.unhealthy_until
  pub named : p.0 ≡ true → p.1.segment_date ≡ date
  pub kept : (d : List ℕ) → content p.2 d ≡ content disk d
  pub works : opens sys ≡ true → p.0 ≡ true

open_segment-Rolled :
    (clock : ℕ) (w : SegmentWriter) (disk : Disk) (sys : System) (date : List ℕ)
    → IsSound clock w
    → w.open_segments ≡ []
    → Rolled sys clock w disk date (open_segment w disk sys date)
unfolding open_segment
open_segment-Rolled clock w disk sys date h e = elim (Bool-cases (sys.mkdir_ok && sys.open_ok)) [
  | inr bad ↦
      rw (bad, open_segment)
        (record {
          sound = h;
          due = refl;
          named = λ opened. absurd (cc);
          kept = λ d. refl;
          works = λ all. absurd (ground arith);
        })
  | inl good ↦
      rw (good, open_segment)
        (record {
          sound = record {
            names = (refl, rw e refl);
            waiting = h.waiting;
            alternates = h.alternates;
            has_hook = h.has_hook;
          };
          due = refl;
          named = λ opened. refl;
          kept = λ d. content-create disk date d;
          works = λ all. refl;
        })
]

pub roll_to-Rolled :
    (clock : ℕ) (w : SegmentWriter) (disk : Disk) (sys : System) (date : List ℕ)
    → IsSound clock w
    → Rolled sys clock w disk date (roll_to w disk sys date)
unfolding roll_to
roll_to-Rolled clock w disk sys date h =
    let closed = close_file-NamesMatch w h.names in
    let none_open : (close_file w).open_segments ≡ [] = rw closed refl in
    let r =
      open_segment-Rolled clock (close_file w) disk sys date (IsSound-close_file clock w h)
        none_open in
    elim (Option-cases w.file) [
      | inl e ↦
          let q : w.open_segments ≡ [] = rw e at h.names in
          simp (roll_to, e) (open_segment-Rolled clock w disk sys date h q)
      | inr (name, e) ↦ elim (Bool-cases (sys.sync_ok && sys.close_ok)) [
        | inr bad ↦
            simp (roll_to, e, bad)
              (record {
                sound = IsSound-close_file clock w h;
                due = rw closed refl;
                named = λ opened. absurd (cc);
                kept = λ d. refl;
                works = λ all. absurd (ground arith);
              })
        | inl good ↦
            simp (roll_to, e, good)
              (record {
                sound = r.sound;
                due = r.due ∙ rw closed refl;
                named = r.named;
                kept = r.kept;
                works = r.works;
              })
      ]
    ]

-- The three ways of a write: it waits, or it has the right file open, or it could not open it.
module _ {κ} (date_of : ℕ → List ℕ) (clock now line_ts : ℕ) (w : SegmentWriter) (disk : Disk)
    (sys : System) (line : List ℕ) (P : Option Location × SegmentWriter × Disk → Type κ)
    (h : IsSound clock w)
    (waits : now < w.unhealthy_until → P (none, record w { dropped = w.dropped + 1 }, disk))
    (appends : (w' : SegmentWriter) (disk' : Disk)
      → IsSound clock w'
      → w'.unhealthy_until ≤ now
      → w'.segment_date ≡ date_of line_ts
      → ((d : List ℕ) → content disk' d ≡ content disk d)
      → P (append_line w' disk' sys now (date_of line_ts) (cap_line line)))
    (fails : (w' : SegmentWriter) (disk' : Disk)
      → IsSound clock w'
      → ((d : List ℕ) → content disk' d ≡ content disk d)
      → opens sys ≡ false
      → P (none, mark_unhealthy w' now, disk')) where
  rolled_case :
      w.unhealthy_until ≤ now
      → P (
          if (roll_to w disk sys (date_of line_ts)).0
          then append_line
              (roll_to w disk sys (date_of line_ts)).1
              (roll_to w disk sys (date_of line_ts)).2
              sys
              now
              (date_of line_ts)
              (cap_line line)
          else (
            none,
            mark_unhealthy (roll_to w disk sys (date_of line_ts)).1 now,
            (roll_to w disk sys (date_of line_ts)).2,
          ))
  rolled_case due =
      let r = roll_to-Rolled clock w disk sys (date_of line_ts) h in
      elim (Bool-cases (roll_to w disk sys (date_of line_ts)).0) [
        | inl opened ↦
            simp opened (appends _ _ r.sound (omega (arith, r.due)) (r.named opened) r.kept)
        | inr failed ↦ simp failed (
            fails _ _ r.sound r.kept (elim (Bool-cases (opens sys)) [
              | inl all ↦ absurd (let e = r.works all in cc)
              | inr e ↦ e
            ]))
      ]

  write_due_case :
      (file : Option (List ℕ))
      → w.file ≡ file
      → w.unhealthy_until ≤ now
      → P (write_due file w disk sys now (date_of line_ts) (cap_line line))
  unfolding write_due
  write_due_case none e due = rolled_case due
  write_due_case (some name) e due =
      let m : NamesMatch (some name) w.segment_date w.open_segments = rw e at h.names in
      elim (Bool-cases (text_eq (date_of line_ts) w.segment_date)) [
        | inr other ↦ rw other (rolled_case due)
        | inl same ↦
            let is_date : date_of line_ts ≡ w.segment_date =
              (text_eq_iff (date_of line_ts) w.segment_date).0 same in
            let named : name ≡ date_of line_ts = m.0 ∙ sym is_date in
            let at_date : P (append_line w disk sys now (date_of line_ts) (cap_line line)) =
              appends w disk h due (sym is_date) (λ d. refl) in
            rw same
              (subst (λ n. P (append_line w disk sys now n (cap_line line))) (sym named) at_date)
      ]

  pub write_with_location-cases : P (write_with_location date_of w disk sys now line_ts line)
  unfolding write_with_location
  write_with_location-cases = elim (Bool-cases (ltb now w.unhealthy_until)) [
    | inl wait ↦ rw wait (waits (ground arith))
    | inr due ↦ rw due (write_due_case w.file refl (ground arith))
  ]

-- At a time not before that of the last call, and whatever the operating system answers, a write
-- keeps the writer's invariant: the set of open segments holds exactly the open file, which is
-- that of the segment date; either nothing is dropped and no backoff runs, or the backoff lies
-- between twice the shortest and the longest one and ends at most the longest one after the last
-- call; and the calls of the drop-state hook alternate, starting with one for dropping.
pub write_with_location-IsSound :
    (date_of : ℕ → List ℕ) (clock now line_ts : ℕ) (w : SegmentWriter) (disk : Disk) (sys : System)
    (line : List ℕ)
    → IsSound clock w
    → clock ≤ now
    → IsSound now (write_with_location date_of w disk sys now line_ts line).1
write_with_location-IsSound date_of clock now line_ts w disk sys line h later =
    write_with_location-cases date_of clock now line_ts w disk sys line (λ p. IsSound now p.1) h
      (λ wait. record {
        names = h.names;
        waiting = ground (arith, h.waiting);
        alternates = h.alternates;
        has_hook = h.has_hook;
      })
      (λ w' disk' h' due date kept.
        IsSound-append_line clock now w' disk' sys (date_of line_ts) (cap_line line) h' later due)
      (λ w' disk' h' kept not_ok. IsSound-mark_unhealthy clock now w' h' later)
