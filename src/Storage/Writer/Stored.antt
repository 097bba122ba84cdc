-- ===== src/Storage/Writer/Stored.antt =====
-- server/internal/storage/writer.go: what is on disk after writes, and what their locations point to.
use simple_logging.Prelude.{
  ℕ, ◌+◌, ◌≤◌, ◌≡◌, refl, sym, ap, ◌∙◌, true, List, [], ◌∷◌, ◌++◌, Option, none, some, length,
  length-append, take, inl, inr, Bool-cases, arith, append_assoc, append-nil,
}
use simple_logging.Prelude.Text.{text_eq, text_eq_iff, text_eq_self}
use simple_logging.Prelude.Bufio.{newline}
use simple_logging.Storage.Lines.{cap_line, cap_line_to-longest, max_line_bytes}
use simple_logging.Storage.Writer.{
  Disk, content, set_file, System, SegmentWriter, Location, append_line, write_with_location,
  max_write_backoff, Call, run_writes,
}
use simple_logging.Storage.Writer.Invariant.{IsSound}
use simple_logging.Storage.Writer.Sound.{
  opens, content-set_file, write_with_location-cases, write_with_location-IsSound,
}

-- Every file of the second disk is the one of the first with more bytes behind.
abbrev pub Extends : Disk → Disk → Type 0
Extends disk disk' = (d : List ℕ) → (more : List ℕ) × (content disk' d ≡ content disk d ++ more)

-- The location is in the file of the date and holds the line, followed by a newline; `none` is a
-- dropped line.
abbrev pub IsStored : Disk → List ℕ → List ℕ → Option Location → Type 0
IsStored disk date line none = Unit
IsStored disk date line (some loc) =
    (before : List ℕ) × (after : List ℕ) × (loc.segment ≡ date)
    × (content disk date ≡ before ++ (line ++ (newline ∷ after)))
    × (length before ≡ loc.offset)
    × (length line ≡ loc.line_length)

IsStored-Extends :
    (disk disk' : Disk) (date line : List ℕ) (loc : Option Location)
    → Extends disk disk'
    → IsStored disk date line loc
    → IsStored disk' date line loc
IsStored-Extends disk disk' date line none more h = tt
IsStored-Extends disk disk' date line (some loc) more (before, after, s, e, o, l) =
    let (rest, e') = more date in
    (
      before,
      after ++ rest,
      s,
      e'
          ∙ (ap (λ t. t ++ rest) e
              ∙ (append_assoc before (line ++ (newline ∷ after)) rest
                  ∙ ap (λ t. before ++ t) (append_assoc line (newline ∷ after) rest))),
      o,
      l,
    )

length-cap_line : (line : List ℕ) → length (cap_line line) ≤ max_line_bytes
unfolding cap_line
length-cap_line line = (cap_line_to-longest max_line_bytes line (omega arith)).0

Extends-set_file :
    (disk : Disk) (name more : List ℕ)
    → Extends disk (set_file disk name (content disk name ++ more))
Extends-set_file disk name more d = elim (Bool-cases (text_eq d name)) [
  | inl e ↦
      let same : d ≡ name = (text_eq_iff d name).0 e in
      (more, content-set_file disk name (content disk name ++ more) d ∙ rw (e, same))
  | inr e ↦ ([], content-set_file disk name (content disk name ++ more) d ∙ rw (e, append-nil))
]

-- What one write does to the disk.
abbrev Written : Disk → List ℕ → List ℕ → Option Location × SegmentWriter × Disk → Type 0
Written disk date line p = Extends disk p.2 × IsStored p.2 date line p.0

append_line-Written :
    (disk : Disk) (w : SegmentWriter) (sys : System) (now : ℕ) (name line : List ℕ)
    → length line ≤ max_line_bytes
    → w.segment_date ≡ name
    → Written disk name line (append_line w disk sys now name line)
unfolding append_line
append_line-Written disk w sys now name line fits named = elim (Bool-cases sys.seek_ok) [
  | inr e ↦ rw e (λ d. ([], sym (append-nil _)), tt)
  | inl e ↦ elim (Bool-cases sys.write_ok) [
    | inr e' ↦
        rw (e, e') (Extends-set_file disk name (take sys.partial (line ++ (newline ∷ []))), tt)
    | inl e' ↦
        rw (e, e')
          (
            Extends-set_file disk name (line ++ (newline ∷ [])),
            (
              content disk name,
              [],
              named,
              content-set_file disk name _ name ∙ rw (text_eq_self name),
              refl,
              omega (arith, length-append line (newline ∷ [])),
            ),
          )
  ]
]

Extends-kept :
    (disk disk' disk'' : Disk)
    → ((d : List ℕ) → content disk' d ≡ content disk d)
    → Extends disk' disk''
    → Extends disk disk''
Extends-kept disk disk' disk'' kept more d =
    let (rest, e) = more d in (rest, e ∙ ap (λ t. t ++ rest) (kept d))

-- For a writer in a state that the invariant describes, and whatever the operating system answers:
-- a write only appends to files; and if it reports a location, that is in the file of the line's
-- date, and at that offset and for that length stands the line, cut to the limit, before a
-- newline.
pub write_with_location-IsStored :
    (date_of : ℕ → List ℕ) (clock now line_ts : ℕ) (w : SegmentWriter) (disk : Disk) (sys : System)
    (line : List ℕ)
    → IsSound clock w
    → Extends disk (write_with_location date_of w disk sys now line_ts line).2
      × IsStored
          (write_with_location date_of w disk sys now line_ts line).2
          (date_of line_ts)
          (cap_line line)
          (write_with_location date_of w disk sys now line_ts line).0
write_with_location-IsStored date_of clock now line_ts w disk sys line h =
    write_with_location-cases date_of clock now line_ts w disk sys line
      (Written disk (date_of line_ts) (cap_line line)) h
      (λ wait. (λ d. ([], sym (append-nil _)), tt))
      (λ w' disk' h' due date kept.
        let (more, stored) =
          append_line-Written disk' w' sys now (date_of line_ts) (cap_line line)
            (length-cap_line line) date in
        (
          Extends-kept disk disk' (append_line w' disk' sys now (date_of line_ts) (cap_line line)).2
              kept more,
          stored,
        ))
      (λ w' disk' h' kept not_ok. (λ d. ([], kept d ∙ sym (append-nil _)), tt))

Extends-trans : (a b c : Disk) → Extends a b → Extends b c → Extends a c
Extends-trans a b c p q d =
    let (x, e) = p d in
    let (y, f) = q d in (x ++ y, f ∙ (ap (λ t. t ++ y) e ∙ append_assoc (content a d) x y))

-- All lines of a run, with what it reported for each.
abbrev pub AllStored : (ℕ → List ℕ) → Disk → List Call → List (Option Location) → Type 0
AllStored date_of disk [] [] = Unit
AllStored date_of disk (c ∷ cs) (loc ∷ locs) =
    IsStored disk (date_of c.line_ts) (cap_line c.line) loc × AllStored date_of disk cs locs
AllStored date_of disk _ _ = ⊥

-- From a writer in a state that the invariant describes, after any sequence of writes at non-
-- decreasing times with any failures of the operating system: every file has only been appended
-- to, every location that was reported for a line is in the file of that line's date and still
-- holds the line, cut to the limit, at its offset and length and before a newline, and the
-- invariant holds again.
pub run_writes-AllStored :
    (date_of : ℕ → List ℕ) (cs : List Call) (clock : ℕ) (w : SegmentWriter) (disk : Disk)
    → IsSound clock w
    → Extends disk (run_writes date_of w disk clock cs).2
      × AllStored date_of
          (run_writes date_of w disk clock cs).2
          cs
          (run_writes date_of w disk clock cs).0
      × ((now : ℕ) × IsSound now (run_writes date_of w disk clock cs).1)
unfolding run_writes
run_writes-AllStored date_of [] clock w disk h = (λ d. ([], sym (append-nil _)), tt, (clock, h))
run_writes-AllStored date_of (c ∷ cs) clock w disk h =
    let p = write_with_location date_of w disk c.sys (clock + c.elapsed) c.line_ts c.line in
    let (more, stored) =
      write_with_location-IsStored date_of clock (clock + c.elapsed) c.line_ts w disk c.sys c.line
        h in
    let h' =
      write_with_location-IsSound date_of clock (clock + c.elapsed) c.line_ts w disk c.sys c.line h
        (omega arith) in
    let after = (run_writes date_of p.1 p.2 (clock + c.elapsed) cs).2 in
    let (more', rest, sound) = run_writes-AllStored date_of cs (clock + c.elapsed) p.1 p.2 h' in
    (
      Extends-trans disk p.2 after more more',
      (IsStored-Extends p.2 after (date_of c.line_ts) (cap_line c.line) p.0 more' stored, rest),
      sound,
    )

-- From a state that the invariant describes, a write at least the longest backoff after the last
-- call reports a location and leaves no dropped lines counted, if every system call that it makes
-- succeeds.
pub write_with_location-recovers :
    (date_of : ℕ → List ℕ) (clock now line_ts : ℕ) (w : SegmentWriter) (disk : Disk) (sys : System)
    (line : List ℕ)
    → IsSound clock w
    → clock + max_write_backoff ≤ now
    → opens sys ≡ true
    → sys.seek_ok ≡ true
    → sys.write_ok ≡ true
    → (loc : Location) × ((write_with_location date_of w disk sys now line_ts line).0 ≡ some loc)
      × ((write_with_location date_of w disk sys now line_ts line).1.dropped ≡ 0)
unfolding append_line
write_with_location-recovers date_of clock now line_ts w disk sys line h later all seeks writes =
    write_with_location-cases date_of clock now line_ts w disk sys line
      (λ p. (loc : Location) × (p.0 ≡ some loc) × (p.1.dropped ≡ 0)) h
      (λ wait. absurd (ground (arith, h.waiting)))
      (λ w' disk' h' due date kept. rw (seeks, writes) (_, refl, refl))
      (λ w' disk' h' kept not_ok. absurd (cc))
