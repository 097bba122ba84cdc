-- ===== src/Collector/Tail.antt =====
-- server/internal/collector/collector.go: `runFileTail`, which follows a container's log file on its
-- node: partial lines are joined, the JSON probe is fed, and stored lines are handed to the writer.
pub mod Messages
pub mod Runtime
use simple_logging.Prelude.{
  ℕ, zero, suc, ◌≡◌, Bool, true, false, List, [], ◌∷◌, ◌++◌, Option, none, some, length, ltb, ◌==◌,
  if◌then◌else◌,
}
use simple_logging.Prelude.Text.{codes, trim_newlines}
use simple_logging.Prelude.Bufio.{raw_line, is_complete}
use simple_logging.Storage.Lines.{max_line_bytes}
use simple_logging.Collector.Line.{DockerEntry, ParsedLine, parse_cri_log_line}
use simple_logging.Collector.Probe.{JsonProbe, observe}

-- A line handed to the writer with its time: a log line, or the mark of a restart.
pub data TailOutput : Type 0 where
  log_line : ℕ → List ℕ → TailOutput
  separator : ℕ → List ℕ → TailOutput

-- The variables of `runFileTail` and its effects: `json_logging` is the pod's flag, `none` while it
-- is not set.
pub record TailState : Type 0 where
  pub partial : List ℕ
  pub partial_ts : ℕ
  pub probe : JsonProbe × Option Bool
  pub json_logging : Option Bool
  pub written : List TailOutput

-- What a turn of the outer loop finds: the bytes that the file has got, whether the next file is
-- there at their end, and the clock.
pub record Wake : Type 0 where
  pub appended : List ℕ
  pub next_file : Bool
  pub now : ℕ

-- The branch of a partial line.
unfoldable pub buffer_part : TailState → ParsedLine → TailState
buffer_part st p = record {
  partial = if ltb (length st.partial) max_line_bytes then st.partial ++ p.content else st.partial;
  partial_ts = if length st.partial == 0 then p.ts else st.partial_ts;
  probe = st.probe;
  json_logging = st.json_logging;
  written = st.written;
}

-- `valid` is json.Valid, `stored` is `storedLine` of the container, `is_default` tells the pod's
-- default container.
module _ (valid : List ℕ → Bool) (stored : ℕ → List ℕ → List ℕ) (is_default : Bool) where
  -- The probe is asked while it has not decided.
  abbrev pub probe_content : JsonProbe × Option Bool → List ℕ → JsonProbe × Option Bool
  probe_content (p, some is_json) content = (p, some is_json)
  probe_content (p, none) content = observe valid p content

  abbrev pub flag_after : JsonProbe × Option Bool → List ℕ → Option Bool → Option Bool
  flag_after (p, some is_json) content flag = flag
  flag_after (p, none) content flag = elim ((observe valid p content).1) [
    | none ↦ flag
    | some is_json ↦ if is_default then some is_json else flag
  ]

  unfoldable pub finish_line : TailState → ℕ → List ℕ → TailState
  finish_line st ts content = record {
    partial = [];
    partial_ts = st.partial_ts;
    probe = probe_content st.probe content;
    json_logging = flag_after st.probe content st.json_logging;
    written = st.written ++ (log_line ts (stored ts content) ∷ []);
  }

  unfoldable pub take_line : TailState → ParsedLine → TailState
  take_line st p =
      if p.is_partial
      then buffer_part st p
      else if ltb 0 (length st.partial)
      then finish_line st st.partial_ts (st.partial ++ p.content)
      else finish_line st p.ts p.content

  -- `rfc3339` is the Format of the mark's time.
  unfoldable pub container_restarted : (ℕ → List ℕ) → ℕ → TailState → TailState
  container_restarted rfc3339 now st = record {
    partial = [];
    partial_ts = st.partial_ts;
    probe = st.probe;
    json_logging = st.json_logging;
    written =
        st.written
        ++ (separator now
              (stored now (codes "--- container restarted at " ++ (rfc3339 now ++ codes " ---")))
            ∷ []);
  }

  module _ (parse_time : List ℕ → Option ℕ) (unmarshal : List ℕ → Option DockerEntry) where
    unfoldable pub tail_line : ℕ → TailState → List ℕ → TailState
    tail_line now st raw =
        take_line st (parse_cri_log_line parse_time unmarshal now (trim_newlines raw))

    -- The reads up to the end of the file, with fuel. What stands behind the last newline is read
    -- with the end of the file and dropped.
    unfoldable pub read_to_end : ℕ → ℕ → TailState → List ℕ → TailState
    read_to_end zero now st bytes = st
    read_to_end (suc f) now st bytes =
        let rest = read_to_end f now (tail_line now st (raw_line bytes).0) (raw_line bytes).1 in
        if is_complete (raw_line bytes).0 then rest else st

    unfoldable pub tail_wake : (ℕ → List ℕ) → TailState → Wake → TailState
    tail_wake rfc3339 st w =
        let read = read_to_end (suc (length w.appended)) w.now st w.appended in
        if w.next_file then container_restarted rfc3339 w.now read else read

    unfoldable pub tail_wakes : (ℕ → List ℕ) → TailState → List Wake → TailState
    tail_wakes rfc3339 st [] = st
    tail_wakes rfc3339 st (w ∷ ws) = tail_wakes rfc3339 (tail_wake rfc3339 st w) ws
