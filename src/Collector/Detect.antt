-- ===== src/Collector/Detect.antt =====
-- server/internal/collector/collector.go: `detectJsonFromFile`, the probe of the lines that were stored
-- before, and `writeLogLine`, which stores a line and hands it to the indexes.
use simple_logging.Prelude.{
  ℕ, ◌+◌, ◌<◌, ◌≡◌, refl, Bool, true, List, [], ◌∷◌, ◌++◌, Option, none, some, ltb, leb, length,
  ◌≤◌, if◌then◌else◌, All, arith,
}
use simple_logging.Prelude.Text.{index_byte}
use simple_logging.Storage.Lines.{max_line_bytes, cap_line, cap_line_to}
use simple_logging.Storage.Writer.{Location}
use simple_logging.Collector.Line.{
  stored_line, stored_prefix, stored_content, stored_content-stored_line,
}
use simple_logging.Collector.Probe.{
  JsonProbe, new_probe, json_probe_lines, observe, observe_all, observe_undecided,
}

cap_line_to-whole :
    (limit : ℕ) (line : List ℕ) → length line ≤ limit → cap_line_to limit line ≡ line
unfolding cap_line_to
cap_line_to-whole limit line h =
    let short : leb (length line) limit ≡ true = ground arith in rw short refl

cap_line-whole : (line : List ℕ) → length line ≤ max_line_bytes → cap_line line ≡ line
unfolding cap_line
cap_line-whole line h = cap_line_to-whole max_line_bytes line h

abbrev pub contents : List (ℕ × List ℕ) → List (List ℕ)
contents [] = []
contents ((ts, content) ∷ ls) = content ∷ contents ls

module _ (format_time : ℕ → List ℕ) (namespace pod container : List ℕ) where
  -- What the segment writer stores of log lines with their times.
  abbrev pub stored_lines : List (ℕ × List ℕ) → List (List ℕ)
  stored_lines [] = []
  stored_lines ((ts, content) ∷ ls) =
      cap_line (stored_line format_time ts namespace pod container content) ∷ stored_lines ls

  -- No bracket closes before the prefix ends, and the line is stored whole.
  abbrev pub IsBare : ℕ × List ℕ → Type 0
  IsBare l =
      (index_byte (stored_prefix format_time l.0 namespace pod container) b']' ≡ none)
      × (length (stored_line format_time l.0 namespace pod container l.1) ≤ max_line_bytes)

-- `valid` is json.Valid.
module _ (valid : List ℕ → Bool) where
  -- The loop over the lines of the oldest segment.
  unfoldable pub detect_json : List (List ℕ) → JsonProbe × Option Bool → Option Bool
  detect_json [] (p, decided) = decided
  detect_json (l ∷ ls) (p, some is_json) = some is_json
  detect_json (l ∷ ls) (p, none) =
      if ltb p.samples json_probe_lines
      then elim (stored_content l) [
        | none ↦ detect_json ls (p, none)
        | some payload ↦ detect_json ls (observe valid p payload)
      ]
      else none

  detect_json-decided :
      (ls : List (List ℕ)) (p : JsonProbe) (b : Bool) → detect_json ls (p, some b) ≡ some b
  unfolding detect_json
  detect_json-decided [] p b = refl
  detect_json-decided (l ∷ ls) p b = refl

  module _ (format_time : ℕ → List ℕ) (namespace pod container : List ℕ) where
    detect_json-observe_from :
        (ls : List (ℕ × List ℕ)) (p : JsonProbe) (decided : Option Bool)
        → All (IsBare format_time namespace pod container) ls
        → (decided ≡ none → p.samples < 10)
        → detect_json (stored_lines format_time namespace pod container ls) (p, decided)
          ≡ observe_all valid (contents ls) (p, decided)
    unfolding detect_json observe_all
    detect_json-observe_from [] p decided h few = refl
    detect_json-observe_from ((ts, content) ∷ ls) p (some b) h few = refl
    detect_json-observe_from ((ts, content) ∷ ls) p none ((h, short), hs) few =
        let whole =
          cap_line-whole (stored_line format_time ts namespace pod container content) short in
        let q : ltb p.samples json_probe_lines ≡ true = let lt = few refl in ground arith in
        let next = observe valid p content in
        rw
          (
            detect_json,
            q,
            whole,
            stored_content-stored_line format_time ts namespace pod container content h,
          )
          (detect_json-observe_from ls next.0 next.1 hs
            (λ e. observe_undecided valid p content e (few refl)))

    -- If no bracket closes within the prefixes of the stored lines and these are within the limit
    -- of a stored line, the probe of stored lines decides what the probe of the log lines
    -- themselves decides.
    pub detect_json-observe :
        (lines : List (ℕ × List ℕ))
        → All (IsBare format_time namespace pod container) lines
        → detect_json (stored_lines format_time namespace pod container lines) (new_probe, none)
          ≡ observe_all valid (contents lines) (new_probe, none)
    detect_json-observe lines h = detect_json-observe_from lines new_probe none h (λ e. omega arith)

-- The counters and the index calls of `writeLogLine`: a dropped line is counted, and a stored one is
-- observed at its location.
pub record LineTotals : Type 0 where
  pub dropped_lines : ℕ
  pub stored_bytes : ℕ
  pub observed : List (Location × List ℕ)

-- `has_indexes` tells that the collector has an index manager; `location` is what
-- `WriteWithLocation` returned.
unfoldable pub write_log_line : Bool → Option Location → List ℕ → LineTotals → LineTotals
write_log_line has_indexes none line t = record t { dropped_lines = t.dropped_lines + 1 }
write_log_line has_indexes (some loc) line t = record t {
  stored_bytes = t.stored_bytes + (loc.line_length + 1);
  observed = if has_indexes then t.observed ++ ((loc, line) ∷ []) else t.observed;
}
