-- ===== src/Collector/Line.antt =====
-- server/internal/collector/collector.go: `parseCRILogLine`, which reads a line of a container's log
-- file on its node, and `storedLine`, which formats a line for the store.
use simple_logging.Prelude.{
  ℕ, suc, ◌≡◌, refl, ap, Bool, false, not, ◌&&◌, List, [], ◌∷◌, ◌++◌, Option, none, some, length,
  get_or, ltb, ◌==◌, if◌then◌else◌, Bool-cases, inl, inr,
}
use simple_logging.Prelude.Text.{
  codes, text_eq, index_byte, cut, cut-append, cut_text, cut_text-append, has_suffix, trim_suffix,
}

-- The fields of Docker's JSON lines that are read.
pub record DockerEntry : Type 0 where
  pub log : List ℕ
  pub time : List ℕ

-- A parsed line: its time, its content, and whether the next line goes on with it.
pub record ParsedLine : Type 0 where
  pub ts : ℕ
  pub content : List ℕ
  pub is_partial : Bool

abbrev pub line_feed : List ℕ
line_feed = b'\n' ∷ []

-- A line as a CRI runtime writes it, less its newline.
abbrev pub cri_line : List ℕ → List ℕ → List ℕ → List ℕ → List ℕ
cri_line stamp stream flag content =
    stamp ++ (b' ' ∷ (stream ++ (b' ' ∷ (flag ++ (b' ' ∷ content)))))

-- `parse_time` is time.Parse with RFC 3339, `unmarshal` is json.Unmarshal, and `now` is the clock.
module _ (parse_time : List ℕ → Option ℕ) (unmarshal : List ℕ → Option DockerEntry) (now : ℕ) where
  abbrev time_or_now : List ℕ → ℕ
  time_or_now token = elim (parse_time token) [ some t ↦ t | none ↦ now ]

  abbrev parse_docker : DockerEntry → ParsedLine
  parse_docker entry = record {
    ts = time_or_now entry.time;
    content = trim_suffix entry.log line_feed;
    is_partial = not (has_suffix entry.log line_feed);
  }

  abbrev unparsed : List ℕ → ParsedLine
  unparsed line = record { ts = now; content = line; is_partial = false }

  -- The three cuts of the CRI format.
  unfoldable pub parse_cri : List ℕ → ParsedLine
  parse_cri line = elim (cut line b' ') [
    | none ↦ unparsed line
    | some (stamp, rest) ↦ elim (cut rest b' ') [
      | none ↦ unparsed line
      | some (stream, rest') ↦ elim (cut rest' b' ') [
        | none ↦ unparsed line
        | some (flag, content) ↦ record {
          ts = time_or_now stamp;
          content = content;
          is_partial = text_eq flag (codes "P");
        }
      ]
    ]
  ]

  unfoldable pub parse_cri_log_line : List ℕ → ParsedLine
  parse_cri_log_line line =
      if ltb 0 (length line) && get_or line 0 0 == b'{'
      then elim (unmarshal line) [ some entry ↦ parse_docker entry | none ↦ parse_cri line ]
      else parse_cri line

  parse_cri-cri_line :
      (stamp stream flag content : List ℕ) {t : ℕ}
      → index_byte stamp b' ' ≡ none
      → index_byte stream b' ' ≡ none
      → index_byte flag b' ' ≡ none
      → parse_time stamp ≡ some t
      → parse_cri (cri_line stamp stream flag content)
        ≡ record { ts = t; content = content; is_partial = text_eq flag (codes "P") }
  unfolding parse_cri
  parse_cri-cri_line stamp stream flag content a b c e =
      let first = cut-append stamp (stream ++ (b' ' ∷ (flag ++ (b' ' ∷ content)))) b' ' a in
      let second = cut-append stream (flag ++ (b' ' ∷ content)) b' ' b in
      rw (parse_cri, first, second, cut-append flag content b' ' c)
        (ap (λ ts. record { ts = ts; content = content; is_partial = text_eq flag (codes "P") })
          (rw (time_or_now, e) refl))

  -- A line that a CRI runtime writes is read with its time and content, as partial exactly if its
  -- flag is "P".
  pub parse_cri_log_line-cri_line :
      (first : ℕ) (stamp stream flag content : List ℕ) {t : ℕ}
      → (first == b'{') ≡ false
      → index_byte (first ∷ stamp) b' ' ≡ none
      → index_byte stream b' ' ≡ none
      → index_byte flag b' ' ≡ none
      → parse_time (first ∷ stamp) ≡ some t
      → parse_cri_log_line (cri_line (first ∷ stamp) stream flag content)
        ≡ record { ts = t; content = content; is_partial = text_eq flag (codes "P") }
  unfolding parse_cri_log_line
  parse_cri_log_line-cri_line first stamp stream flag content o a b c e =
      rw (parse_cri_log_line, o)
        (elim (Bool-cases (
          ltb 0
            (suc (length (stamp ++ (b' ' ∷ (stream ++ (b' ' ∷ (flag ++ (b' ' ∷ content)))))))))) [
              | inl h ↦ rw h (parse_cri-cri_line (first ∷ stamp) stream flag content a b c e)
              | inr h ↦ rw h (parse_cri-cri_line (first ∷ stamp) stream flag content a b c e)
            ])

-- `storedLine`, with `format_time` the time's Format in UTC.
module _ (format_time : ℕ → List ℕ) where
  -- "<RFC3339Nano> [<namespace>/<pod>/<container>"
  unfoldable pub stored_prefix : ℕ → List ℕ → List ℕ → List ℕ → List ℕ
  stored_prefix ts namespace pod container =
      format_time ts ++ (codes " [" ++ (namespace ++ (b'/' ∷ (pod ++ (b'/' ∷ container)))))

  unfoldable pub stored_line : ℕ → List ℕ → List ℕ → List ℕ → List ℕ → List ℕ
  stored_line ts namespace pod container content =
      stored_prefix ts namespace pod container ++ (codes "] " ++ content)

-- The content of a stored line: what stands behind the first "] ".
unfoldable pub stored_content : List ℕ → Option (List ℕ)
stored_content line = elim (cut_text line (codes "] ")) [
  | none ↦ none
  | some (prefix, content) ↦ some content
]

pub stored_content-stored_line :
    (format_time : ℕ → List ℕ) (ts : ℕ) (namespace pod container content : List ℕ)
    → index_byte (stored_prefix format_time ts namespace pod container) b']' ≡ none
    → stored_content (stored_line format_time ts namespace pod container content) ≡ some content
unfolding stored_content stored_line
stored_content-stored_line format_time ts namespace pod container content e =
    rw
      (
        stored_content,
        stored_line,
        cut_text-append (stored_prefix format_time ts namespace pod container) content (codes " ")
            b']' e,
      )
      refl
