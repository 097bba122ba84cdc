-- ===== src/Api/Backward.antt =====
-- server/internal/api/log_service.go: `scanBackwardInFile`, which looks for the start of the line
-- that lies `need` lines before an offset, in blocks from the end.
pub mod Lines
use simple_logging.Prelude.{
  ℕ, zero, suc, ◌+◌, ◌-◌, ◌*◌, ◌≤◌, ◌<◌, ◌≡◌, refl, sym, ap, ◌∙◌, Bool, true, false, not, ◌&&◌,
  List, [], ◌∷◌, ◌++◌, Option, none, some, length, take, drop, get_or, ltb, leb, ◌==◌,
  if◌then◌else◌, ◌||◌, Bool-cases, inl, inr, arith, ◌⊎◌,
}
use simple_logging.Prelude.Bufio.{newline}
use simple_logging.Prelude.Slices.{slice}

-- The inner loop, from index `i` - 1 down. `count` is one more than the source's, which begins
-- at -1. `inl` is the early return, with the index of the newline; `inr` the count at the end.
unfoldable pub scan_block : List ℕ → ℕ → ℕ → ℕ → ℕ ⊎ ℕ
scan_block buf need zero count = inr count
scan_block buf need (suc i) count = elim (get_or buf i 0 == newline) [
  | true ↦ elim (suc count == suc need) [ true ↦ inl i | false ↦ scan_block buf need i (suc count) ]
  | false ↦ scan_block buf need i count
]

-- The outer loop: `pos` is what has not been read. Every round reads one byte at least, so `pos`
-- rounds are enough. `none` is a failed read, of a file shorter than `pos`.
unfoldable pub scan_blocks : ℕ → ℕ → List ℕ → ℕ → ℕ → ℕ → Option (ℕ × ℕ)
unfolding scan_block
scan_blocks zero buf_size file need pos count = some (0, count - 1)
scan_blocks (suc fuel) buf_size file need pos count =
    let read_start = pos - buf_size in
    elim (pos == 0) [
      | true ↦ some (0, count - 1)
      | false ↦ elim (ltb (length file) pos) [
        | true ↦ none
        | false ↦ elim (scan_block (slice read_start pos file) need (pos - read_start) count) [
          | inl i ↦ some (read_start + i + 1, need)
          | inr count' ↦ scan_blocks fuel buf_size file need read_start count'
        ]
      ]
    ]

-- The result is (offset, found); `buf_size` is 32 * 1024 in the source. A trailing newline is
-- skipped by starting the count at -1, that is at 0 here. A negative `need` counts as 0.
unfoldable pub scan_backward_in_file : ℕ → List ℕ → ℕ → ℕ → Option (ℕ × ℕ)
unfolding scan_blocks
scan_backward_in_file buf_size file end_offset need =
    if need == 0 || end_offset == 0
    then some (0, 0)
    else scan_blocks end_offset buf_size file need end_offset
        (if leb end_offset (length file) && get_or file (end_offset - 1) 0 == newline then 0 else 1)

abbrev pub buf_size : ℕ
buf_size = 32 * 1024
