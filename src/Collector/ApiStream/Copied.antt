-- ===== src/Collector/ApiStream/Copied.antt =====
-- The lines of a stream of the Kubernetes API and what is written of them.
use simple_logging.Prelude.{ℕ, ◌≡◌, Bool, List, [], ◌∷◌, ◌++◌, Option, none, some}
use simple_logging.Prelude.Text.{index_byte}
use simple_logging.Collector.Tail.{TailState, TailOutput, log_line}
use simple_logging.Collector.Tail.Messages.{Part}
use simple_logging.Collector.ApiStream.{ApiRead, stream_api_once}

-- A line as the API sends it: the time stamp, a space and the content.
abbrev stamped : Part → List ℕ
stamped p = (p.first ∷ p.stamp) ++ (b' ' ∷ p.content)

-- The reads of a stream of such lines, which ends with or without an error, and behind a newline or
-- behind a last line that has none.
abbrev pub reads_of : Bool → Option Part → List Part → List ApiRead
reads_of failed none [] = record { line = []; ended = some failed } ∷ []
reads_of failed (some p) [] = record { line = stamped p; ended = some failed } ∷ []
reads_of failed last (p ∷ ps) = record { line = stamped p; ended = none } ∷ reads_of failed last ps

abbrev pub with_last : Option Part → List Part → List Part
with_last none ps = ps
with_last (some p) ps = ps ++ (p ∷ [])

abbrev pub last_time : Option ℕ → List Part → Option ℕ
last_time t [] = t
last_time t (p ∷ ps) = last_time (some p.time) ps

module _ (parse_time : List ℕ → Option ℕ) where
  abbrev pub IsStamped : Part → Type 0
  IsStamped p =
      (index_byte (p.first ∷ p.stamp) b' ' ≡ none) × (parse_time (p.first ∷ p.stamp) ≡ some p.time)

  module _ (valid : List ℕ → Bool) (stored : ℕ → List ℕ → List ℕ) (is_default : Bool)
      (now : ℕ) where
    abbrev pub copied : List Part → List TailOutput
    copied [] = []
    copied (p ∷ ps) = log_line p.time (stored p.time p.content) ∷ copied ps

    abbrev IsCopied : List Part → Option Part → Bool → TailState → Option ℕ → Type 0
    IsCopied ps last failed st last_line =
        let copy =
          stream_api_once parse_time valid stored is_default now st last_line
            (reads_of failed last ps) in
        (copy.0.written ≡ st.written ++ copied (with_last last ps))
        × (copy.1 ≡ last_time last_line (with_last last ps))
        × (copy.2 ≡ failed)
