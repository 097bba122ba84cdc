-- ===== src/Api/Logs.antt =====
-- server/internal/api/log_service.go: `GetLogs` for a pod with one container.
pub mod Reader
pub mod Pages
pub mod Walk
use simple_logging.Prelude.{
  ℕ, zero, suc, ◌+◌, ◌-◌, ◌*◌, ◌≤◌, ◌<◌, ◌≡◌, refl, sym, ap, ◌∙◌, Bool, true, false, not, ◌&&◌,
  List, [], ◌∷◌, ◌++◌, Option, none, some, length, take, drop, get_elem?, get_or, ltb, leb, ◌==◌,
  if◌then◌else◌, ◌||◌, Bool-cases, inl, inr, arith, Result, ok, err, ◌>>=◌,
}
use simple_logging.Prelude.Int.{ℤ, pos, negsuc}
use simple_logging.Prelude.Text.{text_eq, index_byte}
use simple_logging.Api.Chunks.{
  LogChunk, content_at, find_chunk_index, find_chunk_page_start_before, ChunkReader, open_at,
  ReadLine, line, end_of_logs, read_error, read_line, has_more_after_current,
}

pub data Error : Type 0 where
  invalid_argument not_found internal : Error
  -- No Go error: the fuel of a loop of the model ran out.
  stuck : Error

-- `logsPageToken`
pub record LogsPageToken : Type 0 where
  pub container : List ℕ
  pub segment : List ℕ
  pub offset : ℤ

pub record LogsPage : Type 0 where
  pub lines : List (List ℕ)
  pub next_page_token : List ℕ
  pub prev_page_token : List ℕ

abbrev pub default_page_size : ℕ
default_page_size = 200

abbrev pub max_page_size : ℕ
max_page_size = 1000

-- A request's negative page size counts as 0.
abbrev pub clamp_page_size : ℕ → ℕ
clamp_page_size size =
    if size == 0 then default_page_size else if ltb max_page_size size then max_page_size else size

-- `parse_time` is time.Parse with RFC 3339. A time is a number, and 0 is Go's zero time.
module _ (parse_time : List ℕ → Option ℕ) where
  unfoldable pub matches_time_range : List ℕ → ℕ → ℕ → Bool
  matches_time_range text start end =
      if start == 0 && end == 0 then true else elim (index_byte text b' ') [
        | none ↦ true
        | some i ↦ elim (parse_time (take i text)) [
          | none ↦ true
          | some ts ↦
              if not (start == 0) && ltb ts start
              then false
              else if not (end == 0) && ltb end ts
              then false
              else true
        ]
      ]

  -- The loop of `GetLogs`, with `room` lines still wanted. Every round reads a byte at least.
  unfoldable pub collect_lines :
      ℕ → ℕ → ℕ → ℕ → ChunkReader → Result Error (List (List ℕ) × ChunkReader)
  unfolding matches_time_range
  collect_lines fuel start end zero reader = ok ([], reader)
  collect_lines zero start end (suc room) reader = err stuck
  collect_lines (suc fuel) start end (suc room) reader = elim (read_line reader) [
    | read_error ↦ err internal
    | end_of_logs ↦ ok ([], reader)
    | line text reader' ↦ elim (matches_time_range text start end) [
      | true ↦ collect_lines fuel start end room reader' >>= λ rest. ok (text ∷ rest.0, rest.1)
      | false ↦ collect_lines fuel start end (suc room) reader'
    ]
  ]

abbrev pub remaining_bytes : List LogChunk → ℕ
remaining_bytes [] = 0
remaining_bytes (c ∷ cs) =
    (elim (c.content) [ none ↦ 0 | some file ↦ length file ]) + remaining_bytes cs

-- `encode` and `decode` are encoding/json behind encoding/base64.
module _ (encode : LogsPageToken → List ℕ) where
  -- The token of a position; every position names a chunk of the list.
  unfoldable pub token_at : List LogChunk → ℕ → ℕ → List ℕ
  token_at chunks i offset = elim (get_elem? chunks i) [
    | none ↦ []
    | some c ↦ encode (record { container = c.container; segment = c.segment; offset = pos offset })
  ]

module _ (decode : List ℕ → Option LogsPageToken) where
  -- The `switch` that finds the first position of the page.
  unfoldable pub page_position : List LogChunk → ℕ → List ℕ → Bool → Result Error (ℕ × ℕ)
  page_position chunks page_size page_token load_last_page =
      if load_last_page
      then (let last = length chunks - 1 in
          elim (content_at chunks last) [
            | none ↦ err internal
            | some file ↦ elim (find_chunk_page_start_before chunks last (length file) page_size) [
              | none ↦ err internal
              | some p ↦ ok p
            ]
          ])
      else if text_eq page_token []
      then ok (0, 0)
      else elim (decode page_token) [
        | none ↦ err invalid_argument
        | some t ↦ elim (find_chunk_index chunks t.container t.segment) [
          | none ↦ err invalid_argument
          | some i ↦ elim (t.offset) [ pos o ↦ ok (i, o) | negsuc _ ↦ err internal ]
        ]
      ]

module _ (encode : LogsPageToken → List ℕ) (decode : List ℕ → Option LogsPageToken)
    (parse_time : List ℕ → Option ℕ) where
  -- From the open of the reader to the response.
  unfoldable pub page_from : List LogChunk → ℕ → ℕ → ℕ → ℕ → ℕ → Result Error LogsPage
  unfolding collect_lines token_at
  page_from chunks page_size start end start_chunk start_offset =
      elim (open_at chunks start_chunk start_offset) [
        | none ↦ err internal
        | some reader ↦
            collect_lines parse_time (remaining_bytes chunks + 1) start end page_size reader
            >>= λ result.
                let (lines, reader') = result in
                let next : List ℕ =
                  if length lines == page_size && has_more_after_current reader'
                  then token_at encode chunks reader'.idx reader'.offset
                  else [] in
                if ltb 0 start_chunk || ltb 0 start_offset
                then elim (find_chunk_page_start_before chunks start_chunk start_offset page_size) [
                  | none ↦ err internal
                  | some (i, o) ↦ ok (record {
                    lines = lines;
                    next_page_token = next;
                    prev_page_token = token_at encode chunks i o;
                  })
                ]
                else ok (record { lines = lines; next_page_token = next; prev_page_token = [] })
      ]

  -- `GetLogs` behind `podChunks`, where the chunks are of one container. `start` and `end` are the
  -- request's times, 0 for no bound.
  unfoldable pub get_logs_one_container :
      List LogChunk → ℕ → List ℕ → Bool → ℕ → ℕ → Result Error LogsPage
  unfolding page_position page_from
  get_logs_one_container [] request_size page_token load_last_page start end = err not_found
  get_logs_one_container (c ∷ cs) request_size page_token load_last_page start end =
      let page_size = clamp_page_size request_size in
      page_position decode (c ∷ cs) page_size page_token load_last_page >>= λ p.
      page_from (c ∷ cs) page_size start end p.0 p.1
