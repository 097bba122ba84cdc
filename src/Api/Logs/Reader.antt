-- ===== src/Api/Logs/Reader.antt =====
-- server/internal/api/log_service.go: what `chunkReader` and the loop of `GetLogs` deliver, against
-- the list of all lines.
use simple_logging.Prelude.{
  ℕ, zero, suc, ◌+◌, ◌≤◌, ◌<◌, ◌≡◌, refl, sym, ap, ◌∙◌, true, false, List, [], ◌∷◌, ◌++◌, Option,
  none, some, length, drop, length-drop, ◌⊎◌, get_elem?, ◌==◌, if◌then◌else◌, Bool-cases, inl, inr,
  arith, ok, All, append_assoc,
}
use simple_logging.Prelude.Text.{text_eq, trim_right}
use native.Mathlib.Nat.{zero-add}
use simple_logging.Prelude.Slices.{drop-drop}
use simple_logging.Prelude.Bufio.{newline, raw_line, raw_line_parts, length-raw_line}
use simple_logging.Api.Chunks.{
  LogChunk, content_at, ChunkReader, open_at, read_line_from, ReadLine, line, end_of_logs,
  read_error, read_line,
}
use simple_logging.Api.Logs.{matches_time_range, collect_lines, remaining_bytes}

-- The lines of a file, without line ends; `cur` is what the current line has so far.
unfoldable pub lines_from : List ℕ → List ℕ → List (List ℕ)
lines_from cur [] = if text_eq cur [] then [] else trim_right cur ∷ []
lines_from cur (c ∷ s) = elim (c == newline) [
  | true ↦ trim_right (cur ++ (c ∷ [])) ∷ lines_from [] s
  | false ↦ lines_from (cur ++ (c ∷ [])) s
]

unfoldable pub file_lines : List ℕ → List (List ℕ)
unfolding lines_from
file_lines s = lines_from [] s

unfoldable pub all_lines : List ℕ → List LogChunk → List (List ℕ)
all_lines unread [] = file_lines unread
all_lines unread (chunk ∷ later) =
    file_lines unread ++ (elim (chunk.content) [ none ↦ [] | some file ↦ all_lines file later ])

append_last-ne-nil : (s : List ℕ) (c : ℕ) → text_eq (s ++ (c ∷ [])) [] ≡ false
append_last-ne-nil [] c = refl
append_last-ne-nil (x ∷ s) c = refl

lines_from-raw_line :
    (s cur : List ℕ) (c : ℕ)
    → lines_from cur (c ∷ s)
      ≡ trim_right (cur ++ (raw_line (c ∷ s)).0) ∷ lines_from [] (raw_line (c ∷ s)).1
unfolding lines_from raw_line
lines_from-raw_line [] cur c = ground (arith, append_last-ne-nil cur c)
lines_from-raw_line (d ∷ s) cur c = elim (Bool-cases (c == newline)) [
  | inl e ↦ rw (e, lines_from) refl
  | inr e ↦
      rw (e, lines_from)
        (lines_from-raw_line s (cur ++ (c ∷ [])) d
          ∙ ap (λ t. trim_right t ∷ lines_from [] (raw_line (d ∷ s)).1)
              (append_assoc cur (c ∷ []) (raw_line (d ∷ s)).0))
]

-- The files behind the open one have not been deleted.
abbrev pub IsPresent : List LogChunk → Type 0
IsPresent cs = All (λ c. (file : List ℕ) × (c.content ≡ some file)) cs

unfoldable pub unread_bytes : ChunkReader → ℕ
unread_bytes r = length r.unread + remaining_bytes r.later

abbrev pub unread_lines : ChunkReader → List (List ℕ)
unread_lines r = all_lines r.unread r.later

-- The reader stands where `openAt` would put it, within the file.
pub record IsAt (chunks : List LogChunk) (r : ChunkReader) : Type 0 where
  pub reopens : open_at chunks r.idx r.offset ≡ some r
  pub present : IsPresent r.later
  pub in_file : (file : List ℕ) × (content_at chunks r.idx ≡ some file) × (r.offset ≤ length file)

-- What `readLine` must do: deliver the next of all lines, or report the end if there is none.
abbrev Delivers : List LogChunk → List (List ℕ) → ℕ → ReadLine → Type 0
Delivers chunks expected bytes read_error = ⊥
Delivers chunks expected bytes end_of_logs = expected ≡ []
Delivers chunks expected bytes (line text r) =
    (expected ≡ text ∷ unread_lines r) × IsAt chunks r × (unread_bytes r < bytes)

drop-suc_later :
    (chunks : List LogChunk) (i : ℕ) (c : LogChunk) (later : List LogChunk)
    → drop i chunks ≡ c ∷ later
    → (get_elem? chunks i ≡ some c) × (drop (suc i) chunks ≡ later)
drop-suc_later [] zero c later e = cc
drop-suc_later [] (suc i) c later e = cc
drop-suc_later (x ∷ xs) zero c later e = ground arith
drop-suc_later (x ∷ xs) (suc i) c later e = drop-suc_later xs i c later e

all_lines-raw_line :
    (b : ℕ) (s : List ℕ) (later : List LogChunk)
    → all_lines (b ∷ s) later
      ≡ trim_right (raw_line (b ∷ s)).0 ∷ all_lines (raw_line (b ∷ s)).1 later
unfolding all_lines file_lines
all_lines-raw_line b s [] = lines_from-raw_line s [] b
all_lines-raw_line b s (c ∷ later) = rw (lines_from-raw_line s [] b)

-- At the end of the open file the reader goes on with the next one.
next_file :
    (idx offset : ℕ) (c : LogChunk) (later : List LogChunk) (f : List ℕ)
    → c.content ≡ some f
    → (read_line_from idx offset [] (c ∷ later) ≡ read_line_from (suc idx) 0 f later)
      × (all_lines [] (c ∷ later) ≡ all_lines f later)
      × (remaining_bytes (c ∷ later) ≡ length f + remaining_bytes later)
unfolding read_line_from all_lines file_lines lines_from
next_file idx offset c later f p = (rw p, rw p, rw p)

module _ (chunks : List LogChunk) where
  -- Where the reader stands after a line of `n` bytes.
  IsAt-advance :
      (idx offset n : ℕ) (file unread rest : List ℕ) (later : List LogChunk)
      → content_at chunks idx ≡ some file
      → offset ≤ length file
      → unread ≡ drop offset file
      → rest ≡ drop n unread
      → n ≤ length unread
      → later ≡ drop (suc idx) chunks
      → IsPresent later
      → IsAt chunks (record { idx = idx; offset = offset + n; unread = rest; later = later })
  unfolding open_at
  IsAt-advance idx offset n file unread rest later at fits here behind enough next present =
      record {
        reopens = reopens_at;
        present = present;
        in_file = (file, at, omega (arith, length-drop offset file, ap length here));
      }
    where
      reopens_at :
          open_at chunks idx (offset + n)
          ≡ some (record { idx = idx; offset = offset + n; unread = rest; later = later })
      reopens_at = rw (at, open_at, ← next, behind, here, drop-drop)

  -- `file` is the open one, of which `unread` is what lies behind `offset`.
  read_line_from-Delivers :
      (idx offset : ℕ) (file unread : List ℕ) (later : List LogChunk)
      → content_at chunks idx ≡ some file
      → offset ≤ length file
      → unread ≡ drop offset file
      → later ≡ drop (suc idx) chunks
      → IsPresent later
      → Delivers chunks
          (all_lines unread later)
          (length unread + remaining_bytes later)
          (read_line_from idx offset unread later)
  read_line_from-Delivers idx offset file [] [] at fits here next present =
      unfold read_line_from all_lines file_lines lines_from in refl
  read_line_from-Delivers idx offset file [] (c ∷ later) at fits here next ((f, p), present) =
      let (found, next') = drop-suc_later chunks (suc idx) c later (sym next) in
      let (reads, lines, bytes) = next_file idx offset c later f p in
      rw (reads, lines, bytes, zero-add)
        (read_line_from-Delivers (suc idx) 0 f f later (rw (found, content_at) p) (omega arith) refl
          (sym next') present)
  read_line_from-Delivers idx offset file (b ∷ s) later at fits here next present =
      let (rest, count) = raw_line_parts (b ∷ s) in
      unfold read_line_from in
      (
        all_lines-raw_line b s later,
        IsAt-advance idx offset (length (raw_line (b ∷ s)).0) file (b ∷ s) (raw_line (b ∷ s)).1
            later at fits here rest (omega arith) next present,
        unfold unread_bytes in omega (arith, length-raw_line b s),
      )

read_line-Delivers :
    (chunks : List LogChunk) (r : ChunkReader)
    → IsAt chunks r
    → Delivers chunks (unread_lines r) (unread_bytes r) (read_line r)
unfolding read_line unread_bytes open_at
read_line-Delivers chunks r h =
    let (file, at, fits) = h.in_file in
    let same = h.reopens in
    read_line_from-Delivers chunks r.idx r.offset file r.unread r.later at fits (ground (arith, at))
      (ground (arith, at)) h.present

module _ (parse_time : List ℕ → Option ℕ) (start end : ℕ) where
  -- The lines that the time filter lets through.
  unfoldable pub matching : List (List ℕ) → List (List ℕ)
  matching [] = []
  matching (t ∷ ts) =
      if matches_time_range parse_time t start end then t ∷ matching ts else matching ts

  -- What one page takes from where the reader stands: `room` matching lines, or all that are left.
  pub record Collected (chunks : List LogChunk) (room : ℕ) (r : ChunkReader) (ls : List (List ℕ))
      (r' : ChunkReader) : Type 0 where
    pub stays : IsAt chunks r'
    pub splits : ls ++ matching (unread_lines r') ≡ matching (unread_lines r)
    pub within : length ls ≤ room
    pub full_or_end : (length ls ≡ room) ⊎ (matching (unread_lines r') ≡ [])
    pub advances : unread_bytes r' + length ls ≤ unread_bytes r

  module _ (chunks : List LogChunk) where
    Collects : ℕ → ℕ → ChunkReader → Type 0
    Collects fuel room r =
        (ls : List (List ℕ)) × (r' : ChunkReader) × (collect_lines parse_time fuel start end room r
          ≡ ok (ls, r'))
        × Collected chunks room r ls r'

    collect_step :
        (fuel room : ℕ) (r : ChunkReader) (res : ReadLine)
        → read_line r ≡ res
        → IsAt chunks r
        → Delivers chunks (unread_lines r) (unread_bytes r) res
        → ((k : ℕ) (q : ChunkReader)
            → IsAt chunks q
            → unread_bytes q < unread_bytes r
            → Collects fuel k q)
        → Collects (suc fuel) (suc room) r
    unfolding Collects collect_lines matching
    collect_step fuel room r read_error e h d ih = elim d [ ]
    collect_step fuel room r end_of_logs e h d ih = (
      [],
      r,
      rw (e, collect_lines),
      record {
        stays = h;
        splits = refl;
        within = omega arith;
        full_or_end = inr (rw d);
        advances = omega arith;
      },
    )
    collect_step fuel room r (line t q) e h (splits, at, fewer) ih =
        elim (Bool-cases (matches_time_range parse_time t start end)) [
          | inl m ↦
              let (ls, r', eq, c) = ih room q at fewer in
              (
                t ∷ ls,
                r',
                rw (e, collect_lines, m, eq),
                record {
                  stays = c.stays;
                  splits = rw (splits, m) (ap (λ l. t ∷ l) c.splits);
                  within = omega (arith, c.within);
                  full_or_end = elim (c.full_or_end) [ inl n ↦ inl (ap suc n) | inr n ↦ inr n ];
                  advances = omega (arith, c.advances);
                },
              )
          | inr m ↦
              let (ls, r', eq, c) = ih (suc room) q at fewer in
              (
                ls,
                r',
                rw (e, collect_lines, m, eq),
                record {
                  stays = c.stays;
                  splits = rw (splits, m) c.splits;
                  within = c.within;
                  full_or_end = c.full_or_end;
                  advances = omega (arith, c.advances);
                },
              )
        ]

    -- From a reader at a position that openAt gives, with no deleted file behind it and more fuel
    -- than unread bytes, the loop of GetLogs ends without an error. Its lines followed by the
    -- matching lines still unread are the matching lines that were unread before; they are at most
    -- the wanted number, and fewer only if no matching line is left; and the reader again stands
    -- at such a position, at least as many bytes further as there are lines.
    pub collect_lines-Collected :
        (fuel room : ℕ) (r : ChunkReader)
        → IsAt chunks r
        → unread_bytes r < fuel
        → (ls : List (List ℕ)) × (r' : ChunkReader) × (collect_lines parse_time fuel start end room
              r
            ≡ ok (ls, r'))
          × Collected chunks room r ls r'
    unfolding Collects
    collect_lines-Collected zero room r h enough = absurd (omega arith)
    collect_lines-Collected (suc fuel) zero r h enough = (
      [],
      r,
      unfold collect_lines in refl,
      record {
        stays = h;
        splits = refl;
        within = omega arith;
        full_or_end = inl refl;
        advances = omega arith;
      },
    )
    collect_lines-Collected (suc fuel) (suc room) r h enough =
        collect_step fuel room r (read_line r) refl h (read_line-Delivers chunks r h)
          (λ k q at fewer. collect_lines-Collected fuel k q at (omega arith))
