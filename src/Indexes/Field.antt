-- ===== src/Indexes/Field.antt =====
-- server/internal/indexes/manager.go: what an index reads off a stored line, and the reference to it.
use simple_logging.Prelude.{
  ℕ, Bool, true, false, List, [], ◌∷◌, Option, none, some, length, take, get_or, leb, ◌==◌,
  if◌then◌else◌, ◌&&◌, ◌||◌,
}
use simple_logging.Prelude.Text.{codes, text_eq, has_prefix, index_byte, cut_text}
use simple_logging.Prelude.Spaces.{trim_space}
use simple_logging.Indexes.Reference.{Reference}

-- `encodePathPart` keeps keys apart, so the files of an index are named by the key itself.
abbrev is_alpha : ℕ → Bool
is_alpha c = (leb b'A' c && leb c b'Z') || (leb b'a' c && leb c b'z') || c == b'_'

abbrev is_key_byte : ℕ → Bool
is_key_byte c = is_alpha c || (leb b'0' c && leb c b'9') || c == b'.' || c == b'-'

all_key_bytes : List ℕ → Bool
all_key_bytes [] = true
all_key_bytes (c ∷ s) = is_key_byte c && all_key_bytes s

-- `ValidateKey`: the match of `validIndexKey`.
unfoldable pub valid_key : List ℕ → Bool
unfolding all_key_bytes
valid_key [] = false
valid_key (c ∷ s) = is_alpha c && leb (length s) 127 && all_key_bytes s

-- A value of a decoded JSON object; a number is the float64's bits.
pub data JsonValue : Type 0 where
  null : JsonValue
  text : List ℕ → JsonValue
  truth : Bool → JsonValue
  number : ℕ → JsonValue
  nested : JsonValue

-- The functions of other packages that an index calls: json.Unmarshal into a map, FormatFloat,
-- time.Parse as the 64 bits of UnixNano, and SHA-256.
pub record Codecs : Type 0 where
  pub unmarshal : List ℕ → Option (List ℕ → Option JsonValue)
  pub format_float : ℕ → List ℕ
  pub parse_time : List ℕ → Option ℕ
  pub sum256 : List ℕ → List ℕ

unfoldable pub json_payload : List ℕ → List ℕ
json_payload line =
    let trimmed =
      trim_space (elim (cut_text line (codes "] ")) [ none ↦ line | some (_, rest) ↦ rest ]) in
    if has_prefix trimmed (codes "{") then trimmed else []

unfoldable pub line_timestamp : List ℕ → List ℕ
line_timestamp line = elim (index_byte line b' ') [ none ↦ [] | some i ↦ take i line ]

-- UnixNano of the zero time, which overflows.
abbrev pub zero_nanos : ℕ
zero_nanos = 11651379494838206464

-- Where a line stands.
pub record Place : Type 0 where
  pub namespace : List ℕ
  pub pod : List ℕ
  pub container : List ℕ
  pub segment : List ℕ

module _ (c : Codecs) where
  -- The switch over the decoded value.
  value_text : JsonValue → Option (List ℕ)
  value_text null = none
  value_text (text s) = some s
  value_text (truth b) = some (if b then codes "true" else codes "false")
  value_text (number bits) = some (c.format_float bits)
  value_text nested = none

  unfoldable pub indexed_value : List ℕ → List ℕ → Option (List ℕ)
  unfolding value_text json_payload
  indexed_value line key =
      if text_eq (json_payload line) [] then none else elim (c.unmarshal (json_payload line)) [
        | none ↦ none
        | some obj ↦ elim (obj key) [ none ↦ none | some v ↦ value_text v ]
      ]

  unfoldable pub shard_number : List ℕ → ℕ
  shard_number value = get_or (c.sum256 value) 0 0

  -- The reference that `ObserveLineAt` and `backfillFileLocked` build.
  unfoldable pub line_reference : Place → List ℕ → List ℕ → ℕ → ℕ → Reference
  unfolding line_timestamp
  line_reference at line value offset line_length = record {
    timestamp = elim (c.parse_time (line_timestamp line)) [ none ↦ zero_nanos | some t ↦ t ];
    valid_time = elim (c.parse_time (line_timestamp line)) [ none ↦ false | some t ↦ true ];
    namespace = at.namespace;
    pod = at.pod;
    container = at.container;
    segment = at.segment;
    value = value;
    offset = offset;
    line_length = line_length;
  }
