-- ===== src/Api/Chunks.antt =====
-- server/internal/api/log_service.go: the segment files of a pod as one sequence of lines, with
-- `chunkReader` and `findChunkPageStartBefore`.
use simple_logging.Prelude.{
  ℕ, zero, suc, ◌+◌, ◌-◌, Bool, true, false, not, ◌&&◌, List, [], ◌∷◌, Option, none, some, length,
  drop, get_elem?, ltb, leb, ◌==◌, if◌then◌else◌, ◌||◌,
}
use simple_logging.Prelude.Text.{text_eq, text_lt, trim_right}
use simple_logging.Api.Backward.{scan_backward_in_file, buf_size}
use simple_logging.Prelude.Bufio.{raw_line}

-- `logChunk`. In place of the path stands the file's content, `none` if it has been deleted since.
pub record LogChunk : Type 0 where
  pub container : List ℕ
  pub segment : List ℕ
  pub content : Option (List ℕ)

-- The comparison of `podChunks`: by date, then by container.
unfoldable pub chunk_less : LogChunk → LogChunk → Bool
chunk_less a b =
    if not (text_eq a.segment b.segment)
    then text_lt a.segment b.segment
    else text_lt a.container b.container

unfoldable pub find_chunk_index : List LogChunk → List ℕ → List ℕ → Option ℕ
find_chunk_index [] container segment = none
find_chunk_index (c ∷ cs) container segment =
    if text_eq c.container container && text_eq c.segment segment
    then some 0
    else elim (find_chunk_index cs container segment) [ none ↦ none | some i ↦ some (suc i) ]

-- `distinctContainers(chunks)`: the size of the set of names.
abbrev pub contains_text : List ℕ → List (List ℕ) → Bool
contains_text s [] = false
contains_text s (t ∷ ts) = text_eq t s || contains_text s ts

unfoldable pub containers_seen : List (List ℕ) → List LogChunk → List (List ℕ)
containers_seen seen [] = seen
containers_seen seen (c ∷ cs) =
    containers_seen (if contains_text c.container seen then seen else c.container ∷ seen) cs

unfoldable pub distinct_containers : List LogChunk → ℕ
unfolding containers_seen
distinct_containers chunks = length (containers_seen [] chunks)

abbrev pub content_at : List LogChunk → ℕ → Option (List ℕ)
content_at chunks i = elim (get_elem? chunks i) [ none ↦ none | some c ↦ c.content ]

-- The loop of `findChunkPageStartBefore`, over the indices below `rounds`, from the last; `none` is
-- a failed read. Chunks whose file is gone are skipped.
unfoldable pub page_start_from : List LogChunk → ℕ → ℕ → ℕ → ℕ → Option (ℕ × ℕ)
page_start_from chunks chunk_idx offset zero remaining = some (0, 0)
page_start_from chunks chunk_idx offset (suc i) remaining = elim (content_at chunks i) [
  | none ↦ page_start_from chunks chunk_idx offset i remaining
  | some file ↦
      elim (scan_backward_in_file buf_size file (if i == chunk_idx then offset else length file)
        remaining) [
          | none ↦ none
          | some (start, found) ↦ elim (leb remaining found) [
            | true ↦ some (i, start)
            | false ↦ page_start_from chunks chunk_idx offset i (remaining - found)
          ]
        ]
]

unfoldable pub find_chunk_page_start_before : List LogChunk → ℕ → ℕ → ℕ → Option (ℕ × ℕ)
unfolding page_start_from
find_chunk_page_start_before chunks chunk_idx offset n =
    page_start_from chunks chunk_idx offset (suc chunk_idx) n

-- `chunkReader`: the position, what is unread of the open file, and the chunks behind it.
pub record ChunkReader : Type 0 where
  pub idx : ℕ
  pub offset : ℕ
  pub unread : List ℕ
  pub later : List LogChunk

-- `openAt`; `none` is a file that cannot be opened.
unfoldable pub open_at : List LogChunk → ℕ → ℕ → Option ChunkReader
open_at chunks idx offset = elim (content_at chunks idx) [
  | none ↦ none
  | some file ↦ some (record {
    idx = idx;
    offset = offset;
    unread = drop offset file;
    later = drop (suc idx) chunks;
  })
]

pub data ReadLine : Type 0 where
  line : List ℕ → ChunkReader → ReadLine
  end_of_logs : ReadLine
  read_error : ReadLine

-- `readLine`, from the open file's unread bytes on.
unfoldable pub read_line_from : ℕ → ℕ → List ℕ → List LogChunk → ReadLine
unfolding raw_line trim_right
read_line_from idx offset (c ∷ s) later =
    let (raw, rest) = raw_line (c ∷ s) in
    line (trim_right raw)
      (record { idx = idx; offset = offset + length raw; unread = rest; later = later })
read_line_from idx offset [] [] = end_of_logs
read_line_from idx offset [] (chunk ∷ later) = elim (chunk.content) [
  | none ↦ read_error
  | some file ↦ read_line_from (suc idx) 0 file later
]

unfoldable pub read_line : ChunkReader → ReadLine
unfolding read_line_from
read_line r = read_line_from r.idx r.offset r.unread r.later

unfoldable pub has_more_after_current : ChunkReader → Bool
has_more_after_current r = not (text_eq r.unread []) || ltb 0 (length r.later)
