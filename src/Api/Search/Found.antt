-- ===== src/Api/Search/Found.antt =====
-- What a search delivers: the hits in all segments, in some order, up to the maximum.
use simple_logging.Prelude.{
  ℕ, suc, ◌+◌, ◌-◌, ◌≤◌, ◌<◌, ◌≡◌, refl, sym, ap, Bool, true, false, List, [], ◌∷◌, ◌++◌,
  append_assoc, Option, length, take, leb, Result, ok, All, Bool-cases, Nat-cases, leb-suc, inl,
  inr, arith,
}
use mathlib.Core.List.{Perm, perm_append_comm}
use mathlib.Core.List.Perm
use simple_logging.Prelude.Text.{text_eq}
use simple_logging.Paging.Sort.{insert, sort}
use simple_logging.Api.Logs.{Error}
use simple_logging.Api.Search.{
  SearchRequest, SearchTarget, SearchJob, SearchHit, max_search_max_results, job_less,
  new_search_matcher, clamp_max_results, time_of_ms, send_results, scan_search_job, search_logs,
}
use simple_logging.Api.Search.Pruned.{hits_of, all_hits, IsSearchable, search_jobs_for-hits}

send_results-take :
    (max_results sent : ℕ) (hs : List SearchHit)
    → sent < max_results
    → send_results max_results sent hs
      ≡ (take (max_results - sent) hs, leb (max_results - sent) (length hs))
unfolding send_results
send_results-take max_results sent [] h = elim (Nat-cases (max_results - sent)) [
  | inl none_left ↦ absurd (omega arith)
  | inr (m, e) ↦ let q : leb (suc m) 0 ≡ false = ground arith in rw (e, q) refl
]
send_results-take max_results sent (x ∷ hs) h = elim (Bool-cases (leb max_results (sent + 1))) [
  | inl full ↦
      let one : max_results - sent ≡ 1 = ground arith in
      let q : leb 1 (suc (length hs)) ≡ true = ground arith in rw (full, one, q) refl
  | inr more ↦
      let next : max_results - sent ≡ suc (max_results - (sent + 1)) = ground arith in
      rw
        (
          more,
          next,
          send_results-take max_results (sent + 1) hs (ground arith),
          leb-suc (max_results - (sent + 1)) (length hs),
        )
        refl
]

clamp_max_results-bounds :
    (n : ℕ) → (0 < clamp_max_results n) × (clamp_max_results n ≤ max_search_max_results)
unfolding clamp_max_results
clamp_max_results-bounds n = ground arith

module _ (parse_time : List ℕ → Option ℕ) (scan_lines : List ℕ → List (List ℕ) × Bool)
    (matches : List ℕ → Bool) (start end : ℕ) where
  -- A list in front of two others changes places with the first of them.
  swap_front : (a b c : List SearchHit) → Perm (a ++ (b ++ c)) (b ++ (a ++ c))
  swap_front a b c =
      rw (sym (append_assoc a b c), sym (append_assoc b a c))
        (Perm.append_right c (perm_append_comm a b))

  hits_of-insert :
      (less : SearchJob → SearchJob → Bool) (j : SearchJob) (js : List SearchJob)
      → Perm (hits_of parse_time scan_lines matches start end (insert less j js)) (
          scan_search_job parse_time scan_lines matches start end j
          ++ hits_of parse_time scan_lines matches start end js)
  unfolding hits_of insert
  hits_of-insert less j [] = Perm.refl _
  hits_of-insert less j (k ∷ ks) = elim (Bool-cases (less k j)) [
    | inl later ↦ rw later (
        Perm.trans
          (Perm.append_left (scan_search_job parse_time scan_lines matches start end k)
            (hits_of-insert less j ks))
          (swap_front (scan_search_job parse_time scan_lines matches start end k)
            (scan_search_job parse_time scan_lines matches start end j)
            (hits_of parse_time scan_lines matches start end ks)))
    | inr first ↦ rw first (Perm.refl _)
  ]

  hits_of-sort :
      (less : SearchJob → SearchJob → Bool) (js : List SearchJob)
      → Perm
          (hits_of parse_time scan_lines matches start end (sort less js))
          (hits_of parse_time scan_lines matches start end js)
  unfolding hits_of sort
  hits_of-sort less [] = Perm.refl _
  hits_of-sort less (j ∷ js) = Perm.trans (hits_of-insert less j (sort less js)) (
      Perm.append_left (scan_search_job parse_time scan_lines matches start end j)
        (hits_of-sort less js))

-- A search of `max_results` lines gives the first ones of a list of all hits in some order, and tells
-- whether there are that many.
abbrev pub Delivers : ℕ → List SearchHit → Result Error (List SearchHit × Bool) → Type 0
Delivers max_results all response =
    (hits : List SearchHit) × Perm hits all
    × (response ≡ ok (take max_results hits, leb max_results (length hits)))

module _ (parse_time : List ℕ → Option ℕ) (scan_lines : List ℕ → List (List ℕ) × Bool)
    (compile : List ℕ → Option (List ℕ → Bool)) (to_lower : List ℕ → List ℕ)
    (arrivals : (SearchJob → List SearchHit) → List SearchJob → List SearchHit) where
  -- If the query is not empty and gives a matcher, each target's segments can be listed, each
  -- segment is named after the day that its lines' times lie in, and the workers' results arrive
  -- in some order: SearchLogs sends the first lines, up to the request's clamped maximum, of a
  -- list of all matching lines of all segments within the request's times, in some order; it tells
  -- that the search was truncated exactly if there are at least that many; and that maximum is at
  -- most 5000.
  pub search_logs-Delivers :
      (req : SearchRequest) (targets : List SearchTarget) {matches : List ℕ → Bool}
      → text_eq req.query [] ≡ false
      → new_search_matcher compile to_lower req.query req.regex ≡ ok matches
      → All (IsSearchable parse_time scan_lines) targets
      → ((jobs : List SearchJob)
          → Perm
              (arrivals
                (scan_search_job parse_time scan_lines matches
                  (time_of_ms req.start_time_unix_ms)
                  (time_of_ms req.end_time_unix_ms))
                jobs)
              (hits_of parse_time scan_lines matches
                (time_of_ms req.start_time_unix_ms)
                (time_of_ms req.end_time_unix_ms)
                jobs))
      → Delivers
          (clamp_max_results req.max_results)
          (all_hits parse_time scan_lines matches
            (time_of_ms req.start_time_unix_ms)
            (time_of_ms req.end_time_unix_ms)
            targets)
          (search_logs parse_time scan_lines compile to_lower arrivals req targets)
        × (clamp_max_results req.max_results ≤ max_search_max_results)
  unfolding search_logs
  search_logs-Delivers req targets {matches} q m ok_targets order =
      let start = time_of_ms req.start_time_unix_ms in
      let end = time_of_ms req.end_time_unix_ms in
      let (jobs, planned, same) =
        search_jobs_for-hits parse_time scan_lines matches start end targets ok_targets in
      let queue = sort (job_less req.newest_first) jobs in
      let hits = arrivals (scan_search_job parse_time scan_lines matches start end) queue in
      let max_results = clamp_max_results req.max_results in
      (
        (
          hits,
          Perm.trans (order queue) (
              rw (sym same) (
                hits_of-sort parse_time scan_lines matches start end (job_less req.newest_first)
                  jobs)),
          rw
              (
                search_logs,
                q,
                m,
                planned,
                send_results-take max_results 0 hits (clamp_max_results-bounds req.max_results).0,
              )
              (ap (λ k. ok (take k hits, leb k (length hits))) (omega arith)),
        ),
        (clamp_max_results-bounds req.max_results).1,
      )
