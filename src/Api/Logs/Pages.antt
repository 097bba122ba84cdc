-- ===== src/Api/Logs/Pages.antt =====
-- server/internal/api/log_service.go: what a page of `GetLogs` and its next-page token are.
use simple_logging.Prelude.{
  ℕ, zero, suc, ◌+◌, ◌-◌, ◌≤◌, ◌≡◌, ◌≢◌, refl, Bool, true, false, not, ◌&&◌, List, [], ◌∷◌, Option,
  some, length, drop, length-drop, get_elem?, ltb, leb, ◌==◌, if◌then◌else◌, ◌||◌, Bool-cases, inl,
  inr, arith, ok, All, Option-cases, ==_iff,
}
use mathlib.Core.Path.{subst}
use simple_logging.Prelude.Int.{pos}
use simple_logging.Prelude.Text.{text_eq, text_eq_iff}
use simple_logging.Api.Backward.{scan_backward_in_file, buf_size}
use simple_logging.Api.Backward.Lines.{scan_backward_in_file-lines}
use simple_logging.Api.Chunks.{
  LogChunk, content_at, ChunkReader, open_at, has_more_after_current, find_chunk_index,
  page_start_from, find_chunk_page_start_before,
}
use simple_logging.Api.Logs.{
  LogsPageToken, LogsPage, collect_lines, remaining_bytes, token_at, page_position, page_from,
}
use simple_logging.Api.Logs.Reader.{
  IsAt, Collected, collect_lines-Collected, unread_bytes, unread_lines, all_lines, file_lines,
  lines_from,
}

abbrev same_id : LogChunk → LogChunk → Bool
same_id c d = text_eq c.container d.container && text_eq c.segment d.segment

-- No two chunks have the same container and date.
abbrev pub IsDistinct : List LogChunk → Type 0
IsDistinct [] = Unit
IsDistinct (c ∷ cs) = All (λ d. same_id c d ≡ false) cs × IsDistinct cs

All-get_elem? {κ} :
    (P : LogChunk → Type κ) (cs : List LogChunk) (i : ℕ) (c : LogChunk)
    → All P cs
    → get_elem? cs i ≡ some c
    → P c
All-get_elem? P [] i c h e = absurd (cc)
All-get_elem? P (x ∷ xs) zero c h e = let q : x ≡ c = cc in subst P q h.0
All-get_elem? P (x ∷ xs) (suc i) c h e = All-get_elem? P xs i c h.1 e

find_chunk_index-get_elem? :
    (cs : List LogChunk) (i : ℕ) (c : LogChunk)
    → IsDistinct cs
    → get_elem? cs i ≡ some c
    → find_chunk_index cs c.container c.segment ≡ some i
unfolding find_chunk_index
find_chunk_index-get_elem? [] i c h e = cc
find_chunk_index-get_elem? (x ∷ xs) zero c h e =
    ground (
      arith,
      (text_eq_iff c.container c.container).1 refl,
      (text_eq_iff c.segment c.segment).1 refl,
    )
find_chunk_index-get_elem? (x ∷ xs) (suc i) c h e = ground (
  arith,
  All-get_elem? (λ d. same_id x d ≡ false) xs i c h.0 e,
  find_chunk_index-get_elem? xs i c h.1 e,
)

scan_backward_total :
    (file : List ℕ) (end need : ℕ)
    → end ≤ length file
    → (p : ℕ × ℕ) × (scan_backward_in_file buf_size file end need ≡ some p)
scan_backward_total file zero need h = ((0, 0), unfold scan_backward_in_file in ground arith)
scan_backward_total file (suc end) zero h = ((0, 0), unfold scan_backward_in_file in ground arith)
scan_backward_total file (suc end) (suc need) h =
    let (o, f, e, _) =
      scan_backward_in_file-lines buf_size file (suc end) (suc need) (omega arith) (omega arith)
        (omega arith) h in
    ((o, f), e)

abbrev scan_end : ℕ → ℕ → ℕ → List ℕ → ℕ
scan_end i idx offset file = if i == idx then offset else length file

module _ (chunks : List LogChunk) (idx offset : ℕ)
    (inside : (file : List ℕ) → content_at chunks idx ≡ some file → offset ≤ length file) where
  scan_end_inside :
      (i : ℕ) (file : List ℕ)
      → content_at chunks i ≡ some file
      → scan_end i idx offset file ≤ length file
  scan_end_inside i file e = elim (Bool-cases (i == idx)) [
    | inl same ↦
        let at : content_at chunks idx ≡ some file = rw (← (==_iff i idx).0 same) e in
        rw same (inside file at)
    | inr other ↦ rw other (omega arith)
  ]

  -- The search for the start of the previous page fails on no chunk.
  page_start_from_total :
      (rounds remaining : ℕ)
      → (p : ℕ × ℕ) × (page_start_from chunks idx offset rounds remaining ≡ some p)
  unfolding page_start_from
  page_start_from_total zero remaining = ((0, 0), refl)
  page_start_from_total (suc i) remaining = elim (Option-cases (content_at chunks i)) [
    | inl gone ↦ let (p, e) = page_start_from_total i remaining in (p, rw (gone, page_start_from) e)
    | inr (file, here) ↦
        let ((start, found), e) =
          scan_backward_total file (scan_end i idx offset file) remaining
            (scan_end_inside i file here) in
        elim (Bool-cases (leb remaining found)) [
          | inl last ↦ ((i, start), rw (here, page_start_from, e, last))
          | inr more ↦
              let (p, e') = page_start_from_total i (remaining - found) in
              (p, rw (here, page_start_from, e, more) e')
        ]
  ]

remaining_bytes-drop :
    (chunks : List LogChunk) (i : ℕ) (file : List ℕ)
    → content_at chunks i ≡ some file
    → length file + remaining_bytes (drop (suc i) chunks) ≤ remaining_bytes chunks
remaining_bytes-drop [] i file e = absurd (cc)
remaining_bytes-drop (c ∷ cs) zero file e = rw e (omega arith)
remaining_bytes-drop (c ∷ cs) (suc i) file e = omega (arith, remaining_bytes-drop cs i file e)

unread_bytes-le :
    (chunks : List LogChunk) (r : ChunkReader)
    → IsAt chunks r
    → unread_bytes r ≤ remaining_bytes chunks
unfolding unread_bytes open_at
unread_bytes-le chunks r h =
    let (file, at, fits) = h.in_file in
    let same = h.reopens in
    let q : r.unread ≡ drop r.offset file = ground (arith, at) in
    let l : r.later ≡ drop (suc r.idx) chunks = ground (arith, at) in
    rw (q, l) (omega (arith, remaining_bytes-drop chunks r.idx file at, length-drop r.offset file))

text_eq-nil : (s : List ℕ) → not (text_eq s []) ≡ false → s ≡ []
text_eq-nil [] e = refl
text_eq-nil (c ∷ s) e = absurd (cc)

ne_nil-text_eq : (s : List ℕ) → s ≢ [] → text_eq s [] ≡ false
ne_nil-text_eq [] h = absurd (h refl)
ne_nil-text_eq (c ∷ s) h = refl

length-nil {ℓ} : {A : Type ℓ} (xs : List A) → ltb 0 (length xs) ≡ false → xs ≡ []
length-nil [] e = refl
length-nil (x ∷ xs) e = absurd (ground arith)

-- The end of the logs is the end of what is unread.
pub has_more-end : (r : ChunkReader) → has_more_after_current r ≡ false → unread_lines r ≡ []
unfolding has_more_after_current all_lines file_lines lines_from
has_more-end r e =
    let a : not (text_eq r.unread []) ≡ false = ground arith in
    let b : ltb 0 (length r.later) ≡ false = ground arith in
    rw (text_eq-nil r.unread a, length-nil r.later b) refl

module _ (encode : LogsPageToken → List ℕ) (decode : List ℕ → Option LogsPageToken)
    (parse_time : List ℕ → Option ℕ) (chunks : List LogChunk) (start end size : ℕ) where
  unfoldable pub next_token : List (List ℕ) → ChunkReader → List ℕ
  next_token ls r =
      if length ls == size && has_more_after_current r
      then token_at encode chunks r.idx r.offset
      else []

  page_from_lem :
      (i0 o0 : ℕ) (r r' : ChunkReader) (ls : List (List ℕ)) (i o : ℕ)
      → open_at chunks i0 o0 ≡ some r
      → collect_lines parse_time (remaining_bytes chunks + 1) start end size r ≡ ok (ls, r')
      → find_chunk_page_start_before chunks i0 o0 size ≡ some (i, o)
      → page_from encode decode parse_time chunks size start end i0 o0
        ≡ ok (record {
          lines = ls;
          next_page_token = next_token ls r';
          prev_page_token = if ltb 0 i0 || ltb 0 o0 then token_at encode chunks i o else [];
        })
  unfolding page_from next_token
  page_from_lem i0 o0 r r' ls i o opened collected before =
      elim (Bool-cases (ltb 0 i0 || ltb 0 o0)) [
        | inl back ↦ rw (opened, page_from, collected, back, before)
        | inr first ↦ rw (opened, page_from, collected, first)
      ]

  pub page_from-Collected :
      (r : ChunkReader)
      → IsAt chunks r
      → (page : LogsPage) × (r' : ChunkReader) × (page_from encode decode parse_time chunks size
            start end r.idx r.offset
          ≡ ok page)
        × Collected parse_time start end chunks size r page.lines r'
        × (page.next_page_token ≡ next_token page.lines r')
  page_from-Collected r h =
      let (ls, r', e, c) =
        collect_lines-Collected parse_time start end chunks (remaining_bytes chunks + 1) size r h
          (omega (arith, unread_bytes-le chunks r h)) in
      let (file, at, fits) = h.in_file in
      let ((i, o), p) =
        page_start_from_total chunks r.idx r.offset
          (λ f q. let same : file ≡ f = cc in subst (λ g. r.offset ≤ length g) same fits)
          (suc r.idx) size in
      (
        _,
        r',
        page_from_lem r.idx r.offset r r' ls i o h.reopens e
            (unfold find_chunk_page_start_before in p),
        c,
        refl,
      )

  -- What `page_position` makes of a next-page token.
  pub page_position-next_token :
      (ls : List (List ℕ)) (r : ChunkReader)
      → ((t : LogsPageToken) → decode (encode t) ≡ some t)
      → ((t : LogsPageToken) → encode t ≢ [])
      → IsDistinct chunks
      → IsAt chunks r
      → (length ls == size && has_more_after_current r) ≡ true
      → (text_eq (next_token ls r) [] ≡ false)
        × (page_position decode chunks size (next_token ls r) false ≡ ok (r.idx, r.offset))
  unfolding next_token token_at page_position
  page_position-next_token ls r decodes nonempty distinct h more =
      let (file, at, _) = h.in_file in
      elim (Option-cases (get_elem? chunks r.idx)) [
        | inl e ↦ absurd (ground arith)
        | inr (c, e) ↦
            let t : LogsPageToken = record {
              container = c.container;
              segment = c.segment;
              offset = pos r.offset;
            } in
            let filled : text_eq (encode t) [] ≡ false = ne_nil-text_eq (encode t) (nonempty t) in
            let token : next_token ls r ≡ encode t = rw (next_token, more, token_at, e) refl in
            (
              rw token filled,
              rw (
                token,
                page_position,
                filled,
                decodes t,
                find_chunk_index-get_elem? chunks r.idx c distinct e,
              ),
            )
      ]
