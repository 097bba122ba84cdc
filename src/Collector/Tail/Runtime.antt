-- ===== src/Collector/Tail/Runtime.antt =====
-- The bytes that a container runtime appends to a log file, and the tail that reads them.
use simple_logging.Prelude.{
  ℕ, zero, suc, ◌≤◌, ◌<◌, ◌≡◌, refl, sym, ap, ◌∙◌, Bool, false, List, [], ◌∷◌, ◌++◌, Option, none,
  some, length, length-append, ◌==◌, All, All-append, append_assoc, append-nil, arith,
}
use simple_logging.Prelude.Text.{
  codes, text_eq, index_byte, index_byte-append_none, trim_newlines-line,
}
use simple_logging.Prelude.Bufio.{newline, raw_line, raw_line-append, is_complete, is_complete-line}
use simple_logging.Collector.Line.{
  DockerEntry, parse_cri_log_line, cri_line, parse_cri_log_line-cri_line,
}
use simple_logging.Collector.Tail.{
  TailOutput, log_line, TailState, Wake, buffer_part, take_line, tail_line, read_to_end, tail_wake,
  tail_wakes,
}
use simple_logging.Collector.Tail.Messages.{
  Part, Message, IsMessage, message_time, message_content, take_message, take_message-written,
  parsed_part,
}

-- A file of whole lines.
abbrev pub whole : List (List ℕ) → List ℕ
whole [] = []
whole (t ∷ ts) = t ++ (newline ∷ whole ts)

abbrev IsLine : List ℕ → Type 0
IsLine t = index_byte t newline ≡ none

length-whole : (ts : List (List ℕ)) → length ts ≤ length (whole ts)
length-whole [] = omega arith
length-whole (t ∷ ts) = rw (length-append t (newline ∷ whole ts)) (omega (arith, length-whole ts))

-- A field and the space behind it have no newline.
spaced : (s t : List ℕ) → IsLine s → IsLine t → IsLine (s ++ (b' ' ∷ t))
spaced s t h h' =
    index_byte-append_none s (b' ' ∷ t) newline h
      (index_byte-append_none (b' ' ∷ []) t newline refl h')

-- `stream` is "stdout" or "stderr".
module _ (stream : List ℕ) where
  abbrev part_line : List ℕ → Part → List ℕ
  part_line flag p = cri_line (p.first ∷ p.stamp) stream flag p.content

  -- The lines of a message: all but the last are flagged as partial.
  abbrev lines_of : List Part → Part → List (List ℕ)
  lines_of [] final = part_line (codes "F") final ∷ []
  lines_of (p ∷ ps) final = part_line (codes "P") p ∷ lines_of ps final

  abbrev pub message_lines : List Message → List (List ℕ)
  message_lines [] = []
  message_lines (m ∷ ms) = lines_of m.parts m.final ++ message_lines ms

  -- Batches of messages, each with the clock at which the tail sees them.
  abbrev pub wakes_of : List (ℕ × List Message) → List Wake
  wakes_of [] = []
  wakes_of ((now, ms) ∷ bs) =
      record { appended = whole (message_lines ms); next_file = false; now = now } ∷ wakes_of bs

abbrev pub messages_of : List (ℕ × List Message) → List Message
messages_of [] = []
messages_of ((now, ms) ∷ bs) = ms ++ messages_of bs

module _ (stored : ℕ → List ℕ → List ℕ) where
  abbrev pub stored_messages : List Message → List TailOutput
  stored_messages [] = []
  stored_messages (m ∷ ms) =
      log_line (message_time m) (stored (message_time m) (message_content m)) ∷ stored_messages ms

  -- What is left behind: nothing buffered, and the messages written behind the rest.
  abbrev pub HasWritten : TailState → TailState → List Message → Type 0
  HasWritten st st' ms = (st'.partial ≡ []) × (st'.written ≡ st.written ++ stored_messages ms)

module _ (parse_time : List ℕ → Option ℕ) where
  -- The time stamp is one that the parser reads, and the content has no newline.
  abbrev pub IsPart : Part → Type 0
  IsPart p =
      ((p.first == b'{') ≡ false)
      × (index_byte (p.first ∷ p.stamp) b' ' ≡ none)
      × (index_byte (p.first ∷ p.stamp) newline ≡ none)
      × (parse_time (p.first ∷ p.stamp) ≡ some p.time)
      × (index_byte p.content newline ≡ none)

  abbrev pub IsRuntimeMessage : Message → Type 0
  IsRuntimeMessage m = IsMessage m × All IsPart m.parts × IsPart m.final

module _ (valid : List ℕ → Bool) (stored : ℕ → List ℕ → List ℕ) (is_default : Bool)
    (parse_time : List ℕ → Option ℕ) (unmarshal : List ℕ → Option DockerEntry) where
  abbrev tail_texts : ℕ → TailState → List (List ℕ) → TailState
  tail_texts now st [] = st
  tail_texts now st (t ∷ ts) =
      tail_texts now
        (take_line valid stored is_default st (parse_cri_log_line parse_time unmarshal now t)) ts

  partial_line :
      (p : Part) (st : TailState)
      → take_line valid stored is_default st (parsed_part p) ≡ buffer_part st (parsed_part p)
  unfolding take_line
  partial_line p st = refl

  tail_texts-append :
      (now : ℕ) (st : TailState) (ts us : List (List ℕ))
      → tail_texts now st (ts ++ us) ≡ tail_texts now (tail_texts now st ts) us
  tail_texts-append now st [] us = refl
  tail_texts-append now st (t ∷ ts) us =
      tail_texts-append now
        (take_line valid stored is_default st (parse_cri_log_line parse_time unmarshal now t)) ts us

  read_to_end-whole :
      (ts : List (List ℕ)) (f now : ℕ) (st : TailState)
      → length ts < f
      → All IsLine ts
      → read_to_end valid stored is_default parse_time unmarshal f now st (whole ts)
        ≡ tail_texts now st ts
  unfolding read_to_end tail_line
  read_to_end-whole ts zero now st h l = absurd (omega arith)
  read_to_end-whole [] (suc f) now st h l = unfold raw_line is_complete in refl
  read_to_end-whole (t ∷ ts) (suc f) now st h (l, ls) =
      rw (raw_line-append t (whole ts) l, is_complete-line t, tail_line, trim_newlines-line t l)
        (read_to_end-whole ts f now
          (take_line valid stored is_default st (parse_cri_log_line parse_time unmarshal now t))
          (omega arith) ls)

  module _ (stream : List ℕ) (no_space : index_byte stream b' ' ≡ none)
      (no_newline : index_byte stream newline ≡ none) where
    part_line-parsed :
        (now : ℕ) (p : Part) (flag : List ℕ)
        → index_byte flag b' ' ≡ none
        → IsPart parse_time p
        → parse_cri_log_line parse_time unmarshal now (part_line stream flag p)
          ≡ record { ts = p.time; content = p.content; is_partial = text_eq flag (codes "P") }
    part_line-parsed now p flag s (a, b, c, d, e) =
        parse_cri_log_line-cri_line parse_time unmarshal now p.first p.stamp stream flag p.content a
          b no_space s d

    part_line-IsLine :
        (p : Part) (flag : List ℕ)
        → index_byte flag newline ≡ none
        → IsPart parse_time p
        → IsLine (part_line stream flag p)
    part_line-IsLine p flag s (a, b, c, d, e) =
        spaced (p.first ∷ p.stamp) (stream ++ (b' ' ∷ (flag ++ (b' ' ∷ p.content)))) c
          (spaced stream (flag ++ (b' ' ∷ p.content)) no_newline (spaced flag p.content s e))

    tail_texts-lines_of :
        (now : ℕ) (ps : List Part) (final : Part) (st : TailState)
        → All (IsPart parse_time) ps
        → IsPart parse_time final
        → tail_texts now st (lines_of stream ps final)
          ≡ take_message valid stored is_default st (record { parts = ps; final = final })
    tail_texts-lines_of now [] final st h f =
        ap (take_line valid stored is_default st) (part_line-parsed now final (codes "F") refl f)
    tail_texts-lines_of now (p ∷ ps) final st (h, hs) f =
        let part : take_line valid stored is_default st
              (parse_cri_log_line parse_time unmarshal now (part_line stream (codes "P") p))
            ≡ buffer_part st (parsed_part p) =
          ap (take_line valid stored is_default st) (part_line-parsed now p (codes "P") refl h)
          ∙ partial_line p st in
        ap (λ s. tail_texts now s (lines_of stream ps final)) part
        ∙ tail_texts-lines_of now ps final (buffer_part st (parsed_part p)) hs f

    lines_of-IsLine :
        (ps : List Part) (final : Part)
        → All (IsPart parse_time) ps
        → IsPart parse_time final
        → All IsLine (lines_of stream ps final)
    lines_of-IsLine [] final h f = (part_line-IsLine final (codes "F") refl f, tt)
    lines_of-IsLine (p ∷ ps) final (h, hs) f =
        (part_line-IsLine p (codes "P") refl h, lines_of-IsLine ps final hs f)

    message_lines-IsLine :
        (ms : List Message)
        → All (IsRuntimeMessage parse_time) ms
        → All IsLine (message_lines stream ms)
    message_lines-IsLine [] h = tt
    message_lines-IsLine (m ∷ ms) ((i, ps, f), hs) =
        All-append IsLine (lines_of stream m.parts m.final) (message_lines stream ms)
          (lines_of-IsLine m.parts m.final ps f) (message_lines-IsLine ms hs)

    tail_texts-messages :
        (now : ℕ) (ms : List Message) (st : TailState)
        → st.partial ≡ []
        → All (IsRuntimeMessage parse_time) ms
        → HasWritten stored st (tail_texts now st (message_lines stream ms)) ms
    tail_texts-messages now [] st empty h = (empty, sym (append-nil st.written))
    tail_texts-messages now (m ∷ ms) st empty ((i, ps, f), hs) =
        let st' = take_message valid stored is_default st m in
        let (empty', here) =
          take_message-written valid stored is_default m.parts m.final st i empty in
        let (empty'', there) = tail_texts-messages now ms st' empty' hs in
        rw
          (
            tail_texts-append now st (lines_of stream m.parts m.final) (message_lines stream ms),
            tail_texts-lines_of now m.parts m.final st ps f,
          )
          (empty'', there ∙ rw here (append_assoc st.written _ _))

    tail_wake-messages :
        (rfc3339 : ℕ → List ℕ) (now : ℕ) (ms : List Message) (st : TailState)
        → st.partial ≡ []
        → All (IsRuntimeMessage parse_time) ms
        → HasWritten stored st
            (tail_wake valid stored is_default parse_time unmarshal rfc3339 st
              (record { appended = whole (message_lines stream ms); next_file = false; now = now }))
            ms
    unfolding tail_wake
    tail_wake-messages rfc3339 now ms st empty h =
        rw
          (
            tail_wake,
            read_to_end-whole (message_lines stream ms)
                (suc (length (whole (message_lines stream ms)))) now st
                (omega (arith, length-whole (message_lines stream ms))) (message_lines-IsLine ms h),
          )
          (tail_texts-messages now ms st empty h)

    stored_messages-append :
        (ms ns : List Message)
        → stored_messages stored (ms ++ ns) ≡ stored_messages stored ms ++ stored_messages stored ns
    stored_messages-append [] ns = refl
    stored_messages-append (m ∷ ms) ns =
        ap (λ t. log_line (message_time m) (stored (message_time m) (message_content m)) ∷ t)
          (stored_messages-append ms ns)

    -- For messages that a container runtime writes as CRI lines, all but the last line of a
    -- message flagged as partial: if the time stamps are ones that the parser reads and the
    -- contents have no newline, the parts before the last of a message are not empty and together
    -- fit the size limit of a line, and the file grows by whole messages, in batches of any size:
    -- the tail hands one line for each message to the writer, in order, with the time of its first
    -- part and the contents of its parts joined, and no part stays buffered.
    pub tail_wakes-messages :
        (rfc3339 : ℕ → List ℕ) (batches : List (ℕ × List Message)) (st : TailState)
        → st.partial ≡ []
        → All (λ b. All (IsRuntimeMessage parse_time) b.1) batches
        → HasWritten stored st
            (tail_wakes valid stored is_default parse_time unmarshal rfc3339 st
              (wakes_of stream batches))
            (messages_of batches)
    unfolding tail_wakes
    tail_wakes-messages rfc3339 [] st empty h = (empty, sym (append-nil st.written))
    tail_wakes-messages rfc3339 ((now, ms) ∷ bs) st empty (h, hs) =
        let st' =
          tail_wake valid stored is_default parse_time unmarshal rfc3339 st
            (record { appended = whole (message_lines stream ms); next_file = false; now = now }) in
        let (empty', here) = tail_wake-messages rfc3339 now ms st empty h in
        let (empty'', there) = tail_wakes-messages rfc3339 bs st' empty' hs in
        (
          empty'',
          there
              ∙ rw (here, stored_messages-append ms (messages_of bs)) (append_assoc st.written _ _),
        )
