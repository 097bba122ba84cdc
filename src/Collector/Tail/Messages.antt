-- ===== src/Collector/Tail/Messages.antt =====
-- The messages that a container runtime writes as CRI lines, and what the tail makes of them.
use simple_logging.Prelude.{
  ℕ, suc, ◌+◌, ◌≤◌, ◌<◌, ◌≡◌, refl, ◌∙◌, Bool, true, false, List, [], ◌∷◌, ◌++◌, length,
  length-append, ltb, ◌==◌, All, if◌then◌else◌, append_assoc, append-nil, arith,
}
use simple_logging.Storage.Lines.{max_line_bytes}
use simple_logging.Collector.Line.{ParsedLine}
use simple_logging.Collector.Tail.{log_line, TailState, take_line, buffer_part, finish_line}

-- A part of a message: its time as the runtime writes it and as it is read, and its content.
pub record Part : Type 0 where
  pub first : ℕ
  pub stamp : List ℕ
  pub time : ℕ
  pub content : List ℕ

-- The parts before the last one, and the last one.
pub record Message : Type 0 where
  pub parts : List Part
  pub final : Part

abbrev pub joined : List Part → List ℕ
joined [] = []
joined (p ∷ ps) = p.content ++ joined ps

abbrev pub message_time : Message → ℕ
message_time m = elim (m.parts) [ [] ↦ m.final.time | p ∷ ps ↦ p.time ]

abbrev pub message_content : Message → List ℕ
message_content m = joined m.parts ++ m.final.content

abbrev pub parsed_part : Part → ParsedLine
parsed_part p = record { ts = p.time; content = p.content; is_partial = true }

abbrev pub parsed_final : Part → ParsedLine
parsed_final p = record { ts = p.time; content = p.content; is_partial = false }

-- The time that stands for the buffered parts.
abbrev time_after : List ℕ → ℕ → List Part → ℕ
time_after (c ∷ s) ts ps = ts
time_after [] ts [] = ts
time_after [] ts (p ∷ ps) = p.time

abbrev pub buffered : TailState → List Part → TailState
buffered st [] = st
buffered st (p ∷ ps) = buffered (buffer_part st (parsed_part p)) ps

abbrev pub IsNonempty : Part → Type 0
IsNonempty p = 0 < length p.content

time_after-part :
    (partial : List ℕ) (ts : ℕ) (p : Part) (ps : List Part)
    → IsNonempty p
    → time_after (partial ++ p.content) (if length partial == 0 then p.time else ts) ps
      ≡ time_after partial ts (p ∷ ps)
time_after-part (c ∷ s) ts p ps h =
    let q : (suc (length s) == 0) ≡ false = ground arith in rw q refl
time_after-part [] ts p ps h =
    elim (p.content) as (λ t. 0 < length t → time_after t p.time ps ≡ p.time) [
      | [] ↦ λ h. absurd (omega arith)
      | c ∷ s ↦ λ h. refl
    ]
      h

time_after-nil : (partial : List ℕ) (ts : ℕ) → time_after partial ts [] ≡ ts
time_after-nil [] ts = refl
time_after-nil (c ∷ s) ts = refl

buffered-joined :
    (ps : List Part) (st : TailState)
    → All IsNonempty ps
    → length st.partial + length (joined ps) ≤ max_line_bytes
    → buffered st ps ≡ record {
      partial = st.partial ++ joined ps;
      partial_ts = time_after st.partial st.partial_ts ps;
      probe = st.probe;
      json_logging = st.json_logging;
      written = st.written;
    }
unfolding buffer_part
buffered-joined [] st h fits =
    rw (append-nil st.partial, time_after-nil st.partial st.partial_ts) refl
buffered-joined (p ∷ ps) st (h, hs) fits =
    let sum : length (p.content ++ joined ps) ≡ length p.content + length (joined ps) =
      length-append p.content (joined ps) in
    let room : ltb (length st.partial) max_line_bytes ≡ true = ground arith in
    let here : buffer_part st (parsed_part p) ≡ record {
      partial = st.partial ++ p.content;
      partial_ts = if length st.partial == 0 then p.time else st.partial_ts;
      probe = st.probe;
      json_logging = st.json_logging;
      written = st.written;
    } =
      rw (buffer_part, room) refl in
    let ih =
      buffered-joined ps
        (record st {
          partial = st.partial ++ p.content;
          partial_ts = if length st.partial == 0 then p.time else st.partial_ts;
        })
        hs (rw (length-append st.partial p.content) (omega arith)) in
    rw here (
      ih
      ∙ rw
          (
            append_assoc st.partial p.content (joined ps),
            time_after-part st.partial st.partial_ts p ps h,
          )
          refl)

-- The parts fit the buffer, and none but the last is empty.
abbrev pub IsMessage : Message → Type 0
IsMessage m = All IsNonempty m.parts × (length (joined m.parts) ≤ max_line_bytes)

module _ (valid : List ℕ → Bool) (stored : ℕ → List ℕ → List ℕ) (is_default : Bool) where
  -- The lines of a message, parsed, one after the other.
  abbrev pub take_message : TailState → Message → TailState
  take_message st m = take_line valid stored is_default (buffered st m.parts) (parsed_final m.final)

  pub take_message-written :
      (ps : List Part) (final : Part) (st : TailState)
      → IsMessage (record { parts = ps; final = final })
      → st.partial ≡ []
      → let m : Message = record { parts = ps; final = final } in
        ((take_message st m).partial ≡ [])
        × ((take_message st m).written
            ≡ st.written
              ++ (log_line (message_time m) (stored (message_time m) (message_content m)) ∷ []))
  unfolding take_line finish_line
  take_message-written [] final st (h, fits) empty =
      let q : ltb 0 (length st.partial) ≡ false = rw empty (ground arith) in
      rw (take_line, q, finish_line) (refl, refl)
  take_message-written (p ∷ ps) final st ((h, hs), fits) empty =
      let len : length st.partial ≡ 0 = rw empty refl in
      let q : ltb 0 (length (p.content ++ joined ps)) ≡ true =
        rw (length-append p.content (joined ps)) (ground arith) in
      let e : buffered st (p ∷ ps)
          ≡ record st { partial = p.content ++ joined ps; partial_ts = p.time } =
        buffered-joined (p ∷ ps) st (h, hs) (omega (arith, fits, len)) ∙ simp empty refl in
      rw (e, take_line, q, finish_line) (refl, refl)
