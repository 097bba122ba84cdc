-- ===== src/Api/Merge/Page.antt =====
-- server/internal/api: the pages of `mergedLogsPage` against the whole merged list.
use simple_logging.Prelude.{
  ℕ, suc, ◌+◌, ◌-◌, ◌^◌, ◌<◌, ◌≡◌, refl, sym, ap, ◌∙◌, Bool, true, false, ◌||◌, List, [], ◌∷◌, ◌++◌,
  Option, none, some, length, take, drop, ◌==◌, if◌then◌else◌, arith, ok, All, Bool-cases,
  Option-cases, inl, inr,
}
use simple_logging.Prelude.Bytes.{put_be, length-put_be, get_be-put_be}
use simple_logging.Paging.Sort.{sort}
use simple_logging.Paging.Heap.{
  push_bounded, push_all, arrived, length-sorted_arrived, sort-push_all_newest,
  sort-push_all_oldest,
}
use simple_logging.Api.Chunks.{LogChunk}
use simple_logging.Api.Logs.{clamp_page_size}
use simple_logging.Api.Merge.{
  LogEntry, log_entry_less, log_entry_less-IsLess, is_positive, encode_forward_nanos_token,
  encode_backward_nanos_token, decode_nanos_token, MergedPageRequest, time_bound, in_page_range,
  MergeScan, parse_line_timestamp, visit_line, visit_lines, scan_chunks, scan_pods, cursors,
  finish_merged, merged_logs_page,
}

-- If base64 decoding inverts encoding, decoding a forward or a backward token of any int64 gives
-- that int64 and that direction.
pub decode_nanos_token-encode :
    (base64 : List ℕ → List ℕ) (unbase64 : List ℕ → Option (List ℕ)) (nanos : ℕ)
    → ((b : List ℕ) → unbase64 (base64 b) ≡ some b)
    → nanos < 2 ^ 64
    → (decode_nanos_token base64 unbase64 (encode_forward_nanos_token base64 unbase64 nanos)
        ≡ ok (record { nanos = nanos; backward = false }))
      × (decode_nanos_token base64 unbase64 (encode_backward_nanos_token base64 unbase64 nanos)
          ≡ ok (record { nanos = nanos; backward = true }))
unfolding decode_nanos_token encode_forward_nanos_token encode_backward_nanos_token
decode_nanos_token-encode base64 unbase64 nanos inverse fits =
    let n = length-put_be 8 nanos in
    let value = get_be-put_be 8 nanos fits in
    let eight : (suc (length (put_be 8 nanos)) == 8) ≡ false = ground (arith, n) in
    let nine : (suc (length (put_be 8 nanos)) == 9) ≡ true = ground (arith, n) in
    (
      rw (decode_nanos_token, inverse, n, value) refl,
      rw (decode_nanos_token, inverse, eight, nine, value) refl,
    )

module _ (parse_time : List ℕ → Option ℕ) (scan_lines : List ℕ → List (List ℕ) × Bool) where
  -- The lines of the chunks in the order of the scan, without those of deleted files.
  unfoldable pub chunk_lines : List LogChunk → List (List ℕ)
  chunk_lines [] = []
  chunk_lines (c ∷ cs) =
      (elim (c.content) [ none ↦ [] | some file ↦ (scan_lines file).0 ]) ++ chunk_lines cs

  unfoldable pub pod_lines : List (List LogChunk) → List (List ℕ)
  pod_lines [] = []
  pod_lines (p ∷ ps) = chunk_lines p ++ pod_lines ps

  -- The scanner ends without an error.
  abbrev pub Scans : LogChunk → Type 0
  Scans c = elim (c.content) [ none ↦ Unit | some file ↦ (scan_lines file).1 ≡ false ]

  module _ (in_range : ℕ → Bool) where
    -- The lines in the range, with their times, numbered from `n`.
    unfoldable pub entries : ℕ → List (List ℕ) → List LogEntry
    entries n [] = []
    entries n (l ∷ ls) =
        if in_range (parse_line_timestamp parse_time scan_lines l)
        then record { ts = parse_line_timestamp parse_time scan_lines l; idx = n; text = l }
          ∷ entries (n + 1) ls
        else entries n ls

    module _ (reversed : Bool) (page_size : ℕ) where
      visit_lines-entries :
          (s : MergeScan) (ls : List (List ℕ))
          → ((visit_lines parse_time scan_lines in_range reversed page_size s ls).heap
              ≡ push_all log_entry_less reversed page_size s.heap (entries s.insert_idx ls))
            × ((visit_lines parse_time scan_lines in_range reversed page_size s ls).matching_count
                ≡ s.matching_count + length (entries s.insert_idx ls))
      unfolding visit_lines visit_line entries push_all
      visit_lines-entries s [] = (refl, omega arith)
      visit_lines-entries s (l ∷ ls) =
          let t = visit_line parse_time scan_lines in_range reversed page_size s l in
          let (h, n) = visit_lines-entries t ls in
          elim (Bool-cases (in_range (parse_line_timestamp parse_time scan_lines l))) [
            | inl e ↦
                let seen : t ≡ record {
                  heap = push_bounded log_entry_less reversed page_size s.heap (record {
                    ts = parse_line_timestamp parse_time scan_lines l;
                    idx = s.insert_idx;
                    text = l;
                  });
                  insert_idx = s.insert_idx + 1;
                  matching_count = s.matching_count + 1;
                } =
                  rw (visit_line, e) refl in
                rw (visit_lines, entries, e) ((rw seen at h), omega (arith, rw seen at n))
            | inr e ↦
                let same : t ≡ s = rw (visit_line, e) refl in
                rw (visit_lines, entries, e) ((rw same at h), (rw same at n))
          ]

      visit_lines-append :
          (s : MergeScan) (as' bs : List (List ℕ))
          → visit_lines parse_time scan_lines in_range reversed page_size s (as' ++ bs)
            ≡ visit_lines parse_time scan_lines in_range reversed page_size
                (visit_lines parse_time scan_lines in_range reversed page_size s as')
                bs
      unfolding visit_lines
      visit_lines-append s [] bs = refl
      visit_lines-append s (l ∷ as') bs =
          visit_lines-append (visit_line parse_time scan_lines in_range reversed page_size s l) as'
            bs

      scan_chunks-lines :
          (s : MergeScan) (cs : List LogChunk)
          → All Scans cs
          → scan_chunks parse_time scan_lines in_range reversed page_size s cs
            ≡ ok (visit_lines parse_time scan_lines in_range reversed page_size s (chunk_lines cs))
      unfolding scan_chunks chunk_lines
      scan_chunks-lines s [] h = unfold visit_lines in refl
      scan_chunks-lines s (c ∷ cs) (h, hs) = elim (Option-cases c.content) [
        | inl gone ↦ rw (scan_chunks, gone) (scan_chunks-lines s cs hs)
        | inr (file, here) ↦
            let fine : (scan_lines file).1 ≡ false = rw here at h in
            rw (scan_chunks, here, fine, visit_lines-append)
              (scan_chunks-lines
                (visit_lines parse_time scan_lines in_range reversed page_size s
                  (scan_lines file).0)
                cs hs)
      ]

      scan_pods-lines :
          (s : MergeScan) (ps : List (List LogChunk))
          → All (All Scans) ps
          → scan_pods parse_time scan_lines in_range reversed page_size s ps
            ≡ ok (visit_lines parse_time scan_lines in_range reversed page_size s (pod_lines ps))
      unfolding scan_pods pod_lines
      scan_pods-lines s [] h = unfold visit_lines in refl
      scan_pods-lines s (p ∷ ps) (h, hs) =
          rw (scan_chunks-lines s p h, scan_pods, visit_lines-append)
            (scan_pods-lines
              (visit_lines parse_time scan_lines in_range reversed page_size s (chunk_lines p)) ps
              hs)

  -- All lines in the range in the order of their times.
  unfoldable pub merged : (ℕ → Bool) → List (List LogChunk) → List LogEntry
  merged in_range pods = sort log_entry_less (arrived [] (entries in_range 0 (pod_lines pods)))

  abbrev pub page_of : Bool → ℕ → List LogEntry → List LogEntry
  page_of reversed n es = if reversed then drop (length es - n) es else take n es

  sort-push_all :
      (reversed : Bool) (n : ℕ) (es : List LogEntry)
      → sort log_entry_less (push_all log_entry_less reversed n [] es)
        ≡ page_of reversed n (sort log_entry_less (arrived [] es))
  sort-push_all false n es = (sort-push_all_oldest log_entry_less log_entry_less-IsLess n es).0
  sort-push_all true n es =
      (sort-push_all_newest log_entry_less log_entry_less-IsLess n es).0
      ∙ ap (λ k. drop (k - n) (sort log_entry_less (arrived [] es)))
          (sym (length-sorted_arrived log_entry_less log_entry_less-IsLess es))

  module _ (base64 : List ℕ → List ℕ) (unbase64 : List ℕ → Option (List ℕ)) where
    -- If no file's scan fails and the request's token gives the cursors `after` and `before`, the
    -- merged page is made of the list of all lines of all containers that the request's times and
    -- the cursors let through, sorted by time and, for equal times, in the order of the scan: it
    -- has that list's first lines, as many as the page size allows, or its last ones for the last
    -- page or a `before` cursor, and its tokens are those that the source's last step gives for
    -- that page and the length of the list.
    pub merged_logs_page-page_of :
        (pods : List (List LogChunk)) (req : MergedPageRequest) (after before : ℕ)
        → All (All Scans) pods
        → cursors parse_time scan_lines base64 unbase64 req ≡ ok (after, before)
        → merged_logs_page parse_time scan_lines base64 unbase64 pods req
          ≡ ok (
              finish_merged parse_time scan_lines base64 unbase64
                (req.load_last_page || is_positive before)
                after
                before
                (length (
                  merged
                    (in_page_range
                      (time_bound req.start_time)
                      (time_bound req.end_time)
                      after
                      before)
                    pods))
                (page_of
                  (req.load_last_page || is_positive before)
                  (clamp_page_size req.page_size)
                  (merged
                    (in_page_range
                      (time_bound req.start_time)
                      (time_bound req.end_time)
                      after
                      before)
                    pods)))
    unfolding merged_logs_page merged
    merged_logs_page-page_of pods req after before scans parsed =
        let reversed = req.load_last_page || is_positive before in
        let size = clamp_page_size req.page_size in
        let in_range =
          in_page_range (time_bound req.start_time) (time_bound req.end_time) after before in
        let empty : MergeScan = record { heap = []; insert_idx = 0; matching_count = 0 } in
        let (h, n) = visit_lines-entries in_range reversed size empty (pod_lines pods) in
        let es = entries in_range 0 (pod_lines pods) in
        let count = length-sorted_arrived log_entry_less log_entry_less-IsLess es in
        let finish = finish_merged parse_time scan_lines base64 unbase64 reversed after before in
        let all : 0 + length es ≡ length (merged in_range pods) = omega (arith, count) in
        rw (parsed, merged_logs_page, scan_pods-lines in_range reversed size empty pods scans, h, n)
          (ap (λ page. ok (finish (0 + length es) page)) (sort-push_all reversed size es)
            ∙ ap (λ k. ok (finish k (page_of reversed size (merged in_range pods)))) all)
