-- ===== src/Api/Search/Pruned.antt =====
-- The segments that a search leaves out hold no line that it would find.
use simple_logging.Prelude.{
  ℕ, ◌+◌, ◌%◌, ◌≤◌, ◌<◌, ◌≡◌, refl, sym, ap, ◌∙◌, Bool, false, List, [], ◌∷◌, ◌++◌, append_assoc,
  Option, none, some, ok, All, Bool-cases, inl, inr, arith,
}
use simple_logging.Api.Merge.{parse_line_timestamp}
use simple_logging.Api.Search.{
  SearchSegment, SearchTarget, SearchJob, SearchHit, day_ns, truncate_to_day, covers_range, job_of,
  segment_jobs, search_jobs_for, is_hit, scan_hits, scan_search_job,
}

module _ (parse_time : List ℕ → Option ℕ) (scan_lines : List ℕ → List (List ℕ) × Bool) where
  -- A line's time lies in the day that starts at `date`.
  abbrev pub InDay : ℕ → List ℕ → Type 0
  InDay date line =
      (date ≤ parse_line_timestamp parse_time scan_lines line)
      × (parse_line_timestamp parse_time scan_lines line < date + day_ns)

  module _ (matches : List ℕ → Bool) (start end : ℕ) where
    pruned_line :
        (date : ℕ) (line : List ℕ)
        → date % day_ns ≡ 0
        → covers_range start end date ≡ false
        → InDay date line
        → is_hit parse_time scan_lines matches start end line ≡ false
    unfolding is_hit covers_range truncate_to_day
    pruned_line date line midnight pruned (lo, hi) = ground arith

    pruned_hits :
        (date : ℕ) (job : SearchJob) (lines : List (List ℕ))
        → date % day_ns ≡ 0
        → covers_range start end date ≡ false
        → All (InDay date) lines
        → scan_hits parse_time scan_lines matches start end job lines ≡ []
    unfolding scan_hits
    pruned_hits date job [] midnight pruned h = refl
    pruned_hits date job (l ∷ ls) midnight pruned (h, hs) =
        rw (pruned_line date l midnight pruned h) (pruned_hits date job ls midnight pruned hs)

    unfoldable pub hits_of : List SearchJob → List SearchHit
    hits_of [] = []
    hits_of (j ∷ js) = scan_search_job parse_time scan_lines matches start end j ++ hits_of js

    hits_of-append : (js ks : List SearchJob) → hits_of (js ++ ks) ≡ hits_of js ++ hits_of ks
    unfolding hits_of
    hits_of-append [] ks = refl
    hits_of-append (j ∷ js) ks =
        ap (λ hs. scan_search_job parse_time scan_lines matches start end j ++ hs)
          (hits_of-append js ks)
        ∙ sym (
            append_assoc (scan_search_job parse_time scan_lines matches start end j) (hits_of js)
              (hits_of ks))

    -- The hits in all segments, whatever their dates.
    abbrev segment_hits : SearchTarget → List SearchSegment → List SearchHit
    segment_hits t [] = []
    segment_hits t (s ∷ ss) = elim (s.date) [
      | none ↦ segment_hits t ss
      | some date ↦
          scan_search_job parse_time scan_lines matches start end (job_of t date s.content)
          ++ segment_hits t ss
    ]

    abbrev listed_hits : SearchTarget → Option (List SearchSegment) → List SearchHit
    listed_hits t none = []
    listed_hits t (some segments) = segment_hits t segments

    abbrev pub all_hits : List SearchTarget → List SearchHit
    all_hits [] = []
    all_hits (t ∷ ts) = listed_hits t t.segments ++ all_hits ts

  abbrev IsContent : ℕ → Option (List ℕ) → Type 0
  IsContent date none = Unit
  IsContent date (some file) = All (InDay date) (scan_lines file).0

  -- A segment is named after midnight of the day that its lines' times lie in.
  abbrev IsDated : Option ℕ → Option (List ℕ) → Type 0
  IsDated none content = Unit
  IsDated (some date) content = (date % day_ns ≡ 0) × IsContent date content

  abbrev IsListed : Option (List SearchSegment) → Type 0
  IsListed none = ⊥
  IsListed (some segments) = All (λ s. IsDated s.date s.content) segments

  -- Its segments can be listed, and each is one day's.
  abbrev pub IsSearchable : SearchTarget → Type 0
  IsSearchable t = IsListed t.segments

  module _ (matches : List ℕ → Bool) (start end : ℕ) where
    pruned_job :
        (t : SearchTarget) (date : ℕ) (content : Option (List ℕ))
        → covers_range start end date ≡ false
        → IsDated (some date) content
        → scan_search_job parse_time scan_lines matches start end (job_of t date content) ≡ []
    unfolding scan_search_job
    pruned_job t date none pruned (midnight, h) = refl
    pruned_job t date (some file) pruned (midnight, h) =
        pruned_hits matches start end date (job_of t date (some file)) (scan_lines file).0 midnight
          pruned h

    segment_job-hits :
        (t : SearchTarget) (date : Option ℕ) (content : Option (List ℕ)) (ss : List SearchSegment)
        → IsDated date content
        → hits_of matches start end (segment_jobs start end t ss)
          ≡ segment_hits matches start end t ss
        → hits_of matches start end
            (segment_jobs start end t (record { date = date; content = content } ∷ ss))
          ≡ segment_hits matches start end t (record { date = date; content = content } ∷ ss)
    unfolding segment_jobs hits_of
    segment_job-hits t none content ss h ih = ih
    segment_job-hits t (some date) content ss h ih =
        elim (Bool-cases (covers_range start end date)) [
          | inl covered ↦ rw covered (
              ap
                (λ hs.
                  scan_search_job parse_time scan_lines matches start end (job_of t date content)
                  ++ hs)
                ih)
          | inr pruned ↦ rw (pruned, pruned_job t date content pruned h) ih
        ]

    segment_jobs-hits :
        (t : SearchTarget) (segments : List SearchSegment)
        → All (λ s. IsDated s.date s.content) segments
        → hits_of matches start end (segment_jobs start end t segments)
          ≡ segment_hits matches start end t segments
    unfolding segment_jobs hits_of
    segment_jobs-hits t [] h = refl
    segment_jobs-hits t (s ∷ ss) (h, hs) =
        segment_job-hits t s.date s.content ss h (segment_jobs-hits t ss hs)

    -- The jobs exist, and their hits are those in all segments.
    abbrev pub IsPlanned : List SearchTarget → Type 0
    IsPlanned ts =
        (jobs : List SearchJob) × (search_jobs_for start end ts ≡ ok jobs)
        × (hits_of matches start end jobs ≡ all_hits matches start end ts)

    search_jobs_for-hits_cons :
        (t : SearchTarget) (segments : Option (List SearchSegment)) (ts : List SearchTarget)
        → t.segments ≡ segments
        → IsListed segments
        → IsPlanned ts
        → IsPlanned (t ∷ ts)
    unfolding search_jobs_for
    search_jobs_for-hits_cons t none ts e h ih = absurd h
    search_jobs_for-hits_cons t (some segments) ts e h (jobs, found, same) =
        let here = segment_jobs start end t segments in
        (
          here ++ jobs,
          rw (search_jobs_for, e, found) refl,
          rw (hits_of-append matches start end here jobs, segment_jobs-hits t segments h, same, e)
              refl,
        )

    pub search_jobs_for-hits : (ts : List SearchTarget) → All IsSearchable ts → IsPlanned ts
    unfolding search_jobs_for hits_of
    search_jobs_for-hits [] h = ([], refl, refl)
    search_jobs_for-hits (t ∷ ts) (h, hs) =
        search_jobs_for-hits_cons t t.segments ts refl h (search_jobs_for-hits ts hs)
