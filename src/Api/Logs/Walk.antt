-- ===== src/Api/Logs/Walk.antt =====
-- server/internal/api/log_service.go: a client of `GetLogs` that follows the next-page tokens.
use simple_logging.Prelude.{
  ℕ, zero, suc, ◌<◌, ◌≡◌, ◌≢◌, refl, sym, ap, ◌∙◌, true, false, ◌&&◌, List, [], ◌∷◌, ◌++◌, Option,
  some, length, ◌==◌, Bool-cases, inl, inr, arith, Result, ok, err, ◌>>=◌, append-nil,
}
use simple_logging.Prelude.Text.{text_eq}
use simple_logging.Api.Chunks.{LogChunk, ChunkReader, open_at, has_more_after_current}
use simple_logging.Api.Logs.{
  Error, stuck, LogsPageToken, LogsPage, remaining_bytes, page_position, get_logs_one_container,
  clamp_page_size,
}
use simple_logging.Api.Logs.Reader.{
  IsPresent, IsAt, Collected, unread_bytes, unread_lines, matching, all_lines, file_lines,
  lines_from,
}
use simple_logging.Api.Logs.Pages.{
  IsDistinct, next_token, has_more-end, page_from-Collected, page_position-next_token,
}

clamp_page_size-pos : (size : ℕ) → 0 < clamp_page_size size
clamp_page_size-pos size = ground arith

Collected-end :
    (parse_time : List ℕ → Option ℕ) (start end : ℕ) (chunks : List LogChunk) (size : ℕ)
    (r r' : ChunkReader) (ls : List (List ℕ))
    → Collected parse_time start end chunks size r ls r'
    → (length ls == size && has_more_after_current r') ≡ false
    → matching parse_time start end (unread_lines r') ≡ []
unfolding matching
Collected-end parse_time start end chunks size r r' ls c last = elim (c.full_or_end) [
  | inl full ↦ rw (has_more-end r' (ground arith)) refl
  | inr none_left ↦ none_left
]

-- A client that asks for page after page, until there is no next one.
module _ (encode : LogsPageToken → List ℕ) (decode : List ℕ → Option LogsPageToken)
    (parse_time : List ℕ → Option ℕ) where
  unfoldable pub walk_pages : ℕ → List LogChunk → ℕ → ℕ → ℕ → List ℕ → Result Error (List (List ℕ))
  walk_pages zero chunks request_size start end token = err stuck
  walk_pages (suc fuel) chunks request_size start end token =
      get_logs_one_container encode decode parse_time chunks request_size token false start end
      >>= λ page. elim (text_eq page.next_page_token []) [
        | true ↦ ok page.lines
        | false ↦ walk_pages fuel chunks request_size start end page.next_page_token >>= λ rest.
            ok (page.lines ++ rest)
      ]

  walk_pages-more :
      (fuel : ℕ) (chunks : List LogChunk) (request_size start end : ℕ) (token : List ℕ)
      (page : LogsPage) (rest : List (List ℕ))
      → get_logs_one_container encode decode parse_time chunks request_size token false start end
        ≡ ok page
      → text_eq page.next_page_token [] ≡ false
      → walk_pages fuel chunks request_size start end page.next_page_token ≡ ok rest
      → walk_pages (suc fuel) chunks request_size start end token ≡ ok (page.lines ++ rest)
  unfolding walk_pages
  walk_pages-more fuel chunks request_size start end token page rest got more next =
      rw (got, ◌>>=◌, more, next)

  walk_pages-last :
      (fuel : ℕ) (chunks : List LogChunk) (request_size start end : ℕ) (token : List ℕ)
      (page : LogsPage)
      → get_logs_one_container encode decode parse_time chunks request_size token false start end
        ≡ ok page
      → page.next_page_token ≡ []
      → walk_pages (suc fuel) chunks request_size start end token ≡ ok page.lines
  unfolding walk_pages
  walk_pages-last fuel chunks request_size start end token page got last = rw (got, last)

  module _ (first : LogChunk) (others : List LogChunk) (request_size start end : ℕ)
      (decodes : (t : LogsPageToken) → decode (encode t) ≡ some t)
      (nonempty : (t : LogsPageToken) → encode t ≢ [])
      (distinct : IsDistinct (first ∷ others)) where
    walk_pages_from :
        (fuel : ℕ) (token : List ℕ) (r : ChunkReader)
        → page_position decode (first ∷ others) (clamp_page_size request_size) token false
          ≡ ok (r.idx, r.offset)
        → IsAt (first ∷ others) r
        → unread_bytes r < fuel
        → walk_pages fuel (first ∷ others) request_size start end token
          ≡ ok (matching parse_time start end (unread_lines r))
    walk_pages_from zero token r at h enough = absurd (omega arith)
    walk_pages_from (suc fuel) token r at h enough =
        let (page, r', e, c, next) =
          page_from-Collected encode decode parse_time (first ∷ others) start end
            (clamp_page_size request_size) r h in
        let got : get_logs_one_container encode decode parse_time (first ∷ others) request_size
              token false start end
            ≡ ok page =
          unfold get_logs_one_container in rw at e in
        elim (Bool-cases
          (length page.lines == clamp_page_size request_size && has_more_after_current r')) [
            | inl more ↦
                let (filled, at') =
                  page_position-next_token encode decode parse_time (first ∷ others) start end
                    (clamp_page_size request_size) page.lines r' decodes nonempty distinct c.stays
                    more in
                let full : length page.lines ≡ clamp_page_size request_size = ground arith in
                let fewer : unread_bytes r' < fuel =
                  omega (arith, c.advances, enough, full, clamp_page_size-pos request_size) in
                let rest : walk_pages fuel (first ∷ others) request_size start end
                      page.next_page_token
                    ≡ ok (matching parse_time start end (unread_lines r')) =
                  rw next (
                    walk_pages_from fuel
                      (next_token encode decode parse_time (first ∷ others) start end
                        (clamp_page_size request_size) page.lines r')
                      r' at' c.stays fewer) in
                walk_pages-more fuel (first ∷ others) request_size start end token page
                  (matching parse_time start end (unread_lines r')) got (rw next filled) rest
                ∙ ap ok c.splits
            | inr last ↦
                let none_left =
                  Collected-end parse_time start end (first ∷ others) (clamp_page_size request_size)
                    r r' page.lines c last in
                let whole : page.lines ≡ matching parse_time start end (unread_lines r) =
                  sym (append-nil page.lines)
                  ∙ (ap (λ x. page.lines ++ x) (sym none_left) ∙ c.splits) in
                walk_pages-last fuel (first ∷ others) request_size start end token page got
                  (next ∙ (unfold next_token in rw last))
                ∙ ap ok whole
          ]

    -- For any page size and time filter, a client of GetLogs on a one-container pod that starts
    -- without a token and follows the next-page tokens gets every line of every chunk that the
    -- filter lets through, once and in order; one more request than the chunks have bytes is
    -- enough. It is assumed that decoding inverts encoding of tokens, that no token is empty, that
    -- no two chunks share container and date, and that no file disappears.
    pub walk_pages-matching :
        IsPresent (first ∷ others)
        → walk_pages
            (suc (remaining_bytes (first ∷ others)))
            (first ∷ others)
            request_size
            start
            end
            []
          ≡ ok (matching parse_time start end (all_lines [] (first ∷ others)))
    unfolding page_position open_at unread_bytes all_lines file_lines lines_from
    walk_pages-matching ((file, here), present) =
        let r : ChunkReader = record { idx = 0; offset = 0; unread = file; later = others } in
        let at : IsAt (first ∷ others) r = record {
          reopens = rw here refl;
          present = present;
          in_file = (file, here, omega arith);
        } in
        let lines : all_lines [] (first ∷ others) ≡ all_lines file others = rw here refl in
        let enough : unread_bytes r < suc (remaining_bytes (first ∷ others)) =
          rw here (omega arith) in
        walk_pages_from (suc (remaining_bytes (first ∷ others))) [] r refl at enough
        ∙ ap (λ ls. ok (matching parse_time start end ls)) (sym lines)
