-- ===== src/Indexes/Reference.antt =====
-- server/internal/indexes/manager.go: the binary record of one index reference.
-- A timestamp (`UnixNano`) and an offset are int64s, kept as the uint64 that is written.
pub mod RoundTrip
pub mod Scan
use simple_logging.Prelude.{
  ℕ, zero, suc, ◌+◌, ◌-◌, ◌*◌, ◌%◌, ◌^◌, ◌≤◌, ◌<◌, ◌≡◌, refl, Bool, true, false, not, ◌&&◌, List,
  [], ◌∷◌, ◌++◌, Option, none, some, Result, ok, err, ◌>>=◌, length, take, drop, get_or, ltb, leb,
  ◌==◌, if◌then◌else◌, ◌||◌,
}
use simple_logging.Prelude.Text.{codes, text_eq}
use simple_logging.Prelude.Bytes.{put_be, get_be}
use simple_logging.Prelude.Slices.{slice, flat}

pub data Error : Type 0 where
  invalid_key not_exist invalid_token : Error
  too_large short_read unsupported_format invalid_length invalid_payload : Error
  io : Error
  -- No Go error: a loop of the model ran out of fuel.
  stuck : Error

pub record Reference : Type 0 where
  pub timestamp : ℕ  -- the int64 of UnixNano as a uint64
  pub valid_time : Bool
  pub namespace : List ℕ
  pub pod : List ℕ
  pub container : List ℕ
  pub segment : List ℕ
  pub value : List ℕ
  pub offset : ℕ  -- int64 as a uint64
  pub line_length : ℕ  -- uint32

abbrev pub shard_magic : List ℕ
shard_magic = codes "SLI3"

abbrev pub max_body : ℕ
max_body = 64 * 1024 * 1024

abbrev pub u32 : ℕ → ℕ
u32 n = n % 2 ^ 32

abbrev pub body_length : Reference → ℕ
body_length r =
    41 + length r.namespace + length r.pod + length r.container + length r.segment + length r.value

-- The buffer's writes behind the length. `put_be 4` of a length is that of its uint32.
unfoldable pub body_fields : Reference → List (List ℕ)
body_fields r =
    ((if r.valid_time then 1 else 0) ∷ [])
    ∷ put_be 8 r.timestamp
    ∷ put_be 8 r.offset
    ∷ put_be 4 r.line_length
    ∷ put_be 4 (length r.namespace)
    ∷ put_be 4 (length r.pod)
    ∷ put_be 4 (length r.container)
    ∷ put_be 4 (length r.segment)
    ∷ put_be 4 (length r.value)
    ∷ r.namespace
    ∷ r.pod
    ∷ r.container
    ∷ r.segment
    ∷ r.value
    ∷ []

unfoldable pub encode_reference : Reference → Bool → Result Error (List ℕ)
unfolding body_fields
encode_reference r include_magic =
    let magic : List ℕ = if include_magic then shard_magic else [] in
    if ltb (2 ^ 32 - 1) (body_length r)
    then err too_large
    else ok (magic ++ (put_be 4 (body_length r) ++ flat (body_fields r)))

-- io.ReadFull: `none` is EOF or an unexpected EOF.
unfoldable pub read_full : ℕ → List ℕ → Option (List ℕ × List ℕ)
read_full n input = if ltb (length input) n then none else some (take n input, drop n input)

-- The part of the scan loop that decodes `body`, whose length is at least 41.
unfoldable pub decode_body : List ℕ → Result Error Reference
decode_body body =
    let namespace_length = get_be (slice 21 25 body) in
    let pod_length = get_be (slice 25 29 body) in
    let container_length = get_be (slice 29 33 body) in
    let segment_length = get_be (slice 33 37 body) in
    let value_length = get_be (slice 37 41 body) in
    let payload_length =
      namespace_length + pod_length + container_length + segment_length + value_length in
    let pos₁ = u32 (41 + namespace_length) in
    let pos₂ = u32 (pos₁ + pod_length) in
    let pos₃ = u32 (pos₂ + container_length) in
    let pos₄ = u32 (pos₃ + segment_length) in
    let pos₅ = u32 (pos₄ + value_length) in
    if not (payload_length == length body - 41)
    then err invalid_payload
    else ok (record {
      timestamp = get_be (slice 1 9 body);
      valid_time = get_or body 0 0 == 1;
      namespace = slice 41 pos₁ body;
      pod = slice pos₁ pos₂ body;
      container = slice pos₂ pos₃ body;
      segment = slice pos₃ pos₄ body;
      value = slice pos₄ pos₅ body;
      offset = get_be (slice 9 17 body);
      line_length = get_be (slice 17 21 body);
    })

module _ {ℓ} {S : Type ℓ} (visit : S → Reference → Result Error S) where
  -- The loop of `scanShardLocked`; `visit` is its callback, over the state that it captures.
  unfoldable pub scan_records : ℕ → List ℕ → S → Result Error S
  scan_records zero input s = err stuck
  scan_records (suc fuel) input s = elim (read_full 4 input) [
    | none ↦ ok s
    | some (head, rest) ↦ elim (ltb (get_be head) 41 || ltb max_body (get_be head)) [
      | true ↦ err invalid_length
      | false ↦ elim (read_full (get_be head) rest) [
        | none ↦ ok s
        | some (body, rest') ↦ elim (decode_body body) [
          | err e ↦ err e
          | ok r ↦ elim (visit s r) [ err e ↦ err e | ok s' ↦ scan_records fuel rest' s' ]
        ]
      ]
    ]
  ]

  -- `scanShardLocked` over the file's bytes; `none` is a file that does not exist.
  unfoldable pub scan_shard : Option (List ℕ) → S → Result Error S
  unfolding scan_records
  scan_shard none s = ok s
  scan_shard (some file) s = elim (read_full 4 file) [
    | none ↦ err short_read
    | some (magic, rest) ↦ elim (text_eq magic shard_magic) [
      | false ↦ err unsupported_format
      | true ↦ scan_records (suc (length rest)) rest s
    ]
  ]

-- `appendReferenceLocked` on the shard's bytes.
unfoldable pub append_reference : Option (List ℕ) → Reference → Result Error (Option (List ℕ))
unfolding encode_reference
append_reference none r = do record' ← encode_reference r true; ok (some record')
append_reference (some file) r = do
  record' ← encode_reference r (length file == 0)
  ok (some (file ++ record'))
