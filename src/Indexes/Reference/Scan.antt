-- ===== src/Indexes/Reference/Scan.antt =====
-- server/internal/indexes/manager.go: a whole shard, from `appendReferenceLocked` to
-- `scanShardLocked`, also after a write that stopped half way.
use simple_logging.Prelude.{
  ℕ, zero, suc, ◌+◌, ◌-◌, ◌≤◌, ◌<◌, ◌≡◌, refl, sym, ◌∙◌, Bool, true, false, List, [], ◌∷◌, ◌++◌,
  some, none, Option, Result, ok, ◌>>=◌, length, length-append, ltb, if◌then◌else◌, arith,
  append_assoc, append-nil, take, All, length-take, Bool-cases, inl, inr, >>=-ext,
}
use simple_logging.Prelude.Bytes.{put_be, get_be, length-put_be, get_be-put_be}
use simple_logging.Prelude.Slices.{flat, take_left, drop_left, take_past}
use simple_logging.Indexes.Reference.{
  Reference, Error, body_fields, body_length, decode_body, encode_reference, max_body, read_full,
  scan_records, scan_shard, append_reference, shard_magic,
}
use simple_logging.Indexes.Reference.RoundTrip.{Fits, length-body, decode_body-flat}

-- What one append writes, the magic apart.
unfoldable pub record_bytes : Reference → List ℕ
record_bytes r = put_be 4 (body_length r) ++ flat (body_fields r)

pub records : List Reference → List ℕ
records [] = []
records (r ∷ rs) = record_bytes r ++ records rs

pub length-record_bytes : (r : Reference) → length (record_bytes r) ≡ 4 + body_length r
unfolding record_bytes
length-record_bytes r =
    length-append (put_be 4 (body_length r)) _
    ∙ omega (arith, length-put_be 4 (body_length r), length-body r)

head_read : (r : Reference) → Fits r → get_be (put_be 4 (body_length r)) ≡ body_length r
head_read r h = get_be-put_be 4 (body_length r) (omega (arith, h.body_fits))

-- A read of `n` bytes that are there.
read_full-append : (n : ℕ) (xs ys : List ℕ) → length xs ≡ n → read_full n (xs ++ ys) ≡ some (xs, ys)
unfolding read_full
read_full-append n xs ys h =
    ground (arith, length-append xs ys, take_left n xs ys h, drop_left n xs ys h)

module _ {ℓ} {S : Type ℓ} (visit : S → Reference → Result Error S) where
  -- The callback on one reference after the other, until it fails.
  unfoldable pub visit_all : List Reference → S → Result Error S
  visit_all [] s = ok s
  visit_all (r ∷ rs) s = visit s r >>= visit_all rs

  -- One round of the loop, by what the two reads give.
  scan_records-next :
      (fuel : ℕ) (input head rest body rest' : List ℕ) (r : Reference) (s : S)
      → read_full 4 input ≡ some (head, rest)
      → 41 ≤ get_be head
      → get_be head ≤ max_body
      → read_full (get_be head) rest ≡ some (body, rest')
      → decode_body body ≡ ok r
      → scan_records visit (suc fuel) input s ≡ (visit s r >>= scan_records visit fuel rest')
  unfolding scan_records
  scan_records-next fuel input head rest body rest' r s p lo hi q d = ground arith

  scan_records-end :
      (fuel : ℕ) (input : List ℕ) (s : S)
      → read_full 4 input ≡ none
      → scan_records visit (suc fuel) input s ≡ ok s
  unfolding scan_records
  scan_records-end fuel input s p = ground arith

  scan_records-cut :
      (fuel : ℕ) (input head rest : List ℕ) (s : S)
      → read_full 4 input ≡ some (head, rest)
      → 41 ≤ get_be head
      → get_be head ≤ max_body
      → read_full (get_be head) rest ≡ none
      → scan_records visit (suc fuel) input s ≡ ok s
  unfolding scan_records
  scan_records-cut fuel input head rest s p lo hi q = ground arith

  scan_records-record :
      (fuel : ℕ) (r : Reference) (rest : List ℕ) (s : S)
      → Fits r
      → scan_records visit (suc fuel) (record_bytes r ++ rest) s
        ≡ (visit s r >>= scan_records visit fuel rest)
  unfolding record_bytes
  scan_records-record fuel r rest s h =
      let head = put_be 4 (body_length r) in
      let n = head_read r h in
      scan_records-next fuel (record_bytes r ++ rest) head (flat (body_fields r) ++ rest)
        (flat (body_fields r)) rest r s
        (rw append_assoc (read_full-append 4 head _ (length-put_be 4 (body_length r))))
        (omega (arith, n)) (omega (arith, n, h.body_fits))
        (read_full-append _ (flat (body_fields r)) rest (length-body r ∙ sym n))
        (decode_body-flat r h)

  torn_body :
      (fuel : ℕ) (r : Reference) (k : ℕ) (s : S)
      → Fits r
      → k < body_length r
      → scan_records visit (suc fuel) (take (4 + k) (record_bytes r)) s ≡ ok s
  unfolding record_bytes
  torn_body fuel r k s h torn =
      let head = put_be 4 (body_length r) in
      let n = head_read r h in
      let e : 4 + k ≡ length head + k = omega (arith, length-put_be 4 (body_length r)) in
      rw (e, take_past)
        (scan_records-cut fuel _ head (take k (flat (body_fields r))) s
          (read_full-append 4 head _ (length-put_be 4 (body_length r))) (omega (arith, n))
          (omega (arith, n, h.body_fits))
          (unfold read_full in
            ground (arith, n, length-take k (flat (body_fields r)), length-body r)))

  -- A proper prefix of a record ends the scan with what was read before it.
  scan_records-torn :
      (fuel : ℕ) (r : Reference) (k : ℕ) (s : S)
      → Fits r
      → k < length (record_bytes r)
      → scan_records visit (suc fuel) (take k (record_bytes r)) s ≡ ok s
  scan_records-torn fuel r k s h torn = elim (Bool-cases (ltb k 4)) [
    | inl short ↦
        scan_records-end fuel _ s
          (unfold read_full in ground (arith, length-take k (record_bytes r)))
    | inr long ↦
        let e : k ≡ 4 + (k - 4) = ground arith in
        rw e (torn_body fuel r (k - 4) s h (ground (arith, length-record_bytes r)))
  ]

  scan_records-records :
      (fuel : ℕ) (rs : List Reference) (r : Reference) (k : ℕ) (s : S)
      → All Fits rs
      → Fits r
      → k < length (record_bytes r)
      → length rs < fuel
      → scan_records visit fuel (records rs ++ take k (record_bytes r)) s ≡ visit_all rs s
  unfolding visit_all records
  scan_records-records zero rs r k s hs h torn enough = absurd (omega arith)
  scan_records-records (suc fuel) [] r k s hs h torn enough = scan_records-torn fuel r k s h torn
  scan_records-records (suc fuel) (q ∷ qs) r k s (hq, hs) h torn enough = rw append_assoc (
      scan_records-record fuel q _ s hq
      ∙ >>=-ext (visit s q) (λ t. scan_records-records fuel qs r k t hs h torn (omega arith)))

-- One append after the other, until one fails.
unfoldable pub append_all : Option (List ℕ) → List Reference → Result Error (Option (List ℕ))
append_all file [] = ok file
append_all file (r ∷ rs) = append_reference file r >>= λ file'. append_all file' rs

pub encode_reference-record_bytes :
    (r : Reference) (include_magic : Bool)
    → Fits r
    → encode_reference r include_magic
      ≡ ok ((if include_magic then shard_magic else []) ++ record_bytes r)
unfolding encode_reference record_bytes
encode_reference-record_bytes r include_magic h = ground (arith, h.body_fits)

append_reference-ok :
    (c : ℕ) (file : List ℕ) (r : Reference)
    → Fits r
    → (append_reference none r ≡ ok (some (shard_magic ++ record_bytes r)))
      × (append_reference (some (c ∷ file)) r ≡ ok (some ((c ∷ file) ++ record_bytes r)))
unfolding append_reference
append_reference-ok c file r h =
    ground (arith, encode_reference-record_bytes r true h, encode_reference-record_bytes r false h)

append_all-records_from :
    (rs : List Reference) (c : ℕ) (file : List ℕ)
    → All Fits rs
    → append_all (some (c ∷ file)) rs ≡ ok (some ((c ∷ file) ++ records rs))
unfolding append_all records
append_all-records_from [] c file h = rw append-nil
append_all-records_from (r ∷ rs) c file (h, hs) =
    rw ((append_reference-ok c file r h).1)
      (append_all-records_from rs c (file ++ record_bytes r) hs ∙ rw append_assoc)

append_all-records :
    (r : Reference) (rs : List Reference)
    → Fits r
    → All Fits rs
    → append_all none (r ∷ rs) ≡ ok (some (shard_magic ++ records (r ∷ rs)))
unfolding append_all records
append_all-records r rs h hs =
    rw ((append_reference-ok 0 [] r h).0) (append_all-records_from rs _ _ hs)

length-records : (rs : List Reference) → length rs ≤ length (records rs)
unfolding records
length-records [] = omega arith
length-records (r ∷ rs) =
    omega
      (arith, length-append (record_bytes r) (records rs), length-record_bytes r, length-records rs)

module _ {ℓ} {S : Type ℓ} (visit : S → Reference → Result Error S) where
  scan_shard-magic :
      (input : List ℕ) (s : S)
      → scan_shard visit (some (shard_magic ++ input)) s
        ≡ scan_records visit (suc (length input)) input s
  unfolding scan_shard
  scan_shard-magic input s = rw (read_full-append 4 shard_magic input refl, scan_shard)

  scan_shard-records :
      (r : Reference) (rs : List Reference) (q : Reference) (k : ℕ) (s : S)
      → Fits r
      → All Fits rs
      → Fits q
      → k < length (record_bytes q)
      → scan_shard visit (some ((shard_magic ++ records (r ∷ rs)) ++ take k (record_bytes q))) s
        ≡ visit_all visit (r ∷ rs) s
  scan_shard-records r rs q k s h hs hq torn = rw append_assoc (
      scan_shard-magic _ s
      ∙ scan_records-records visit _ (r ∷ rs) q k s (h, hs) hq torn
          (omega (
            arith,
            length-records (r ∷ rs),
            length-append (records (r ∷ rs)) (take k (record_bytes q)),
          )))

  -- References that fit the record format, appended to a new shard one after another, are the ones
  -- that a scan visits, in order and with all fields, also when a further append was cut short
  -- after any number of bytes of its record.
  pub scan_shard-append_all :
      (r : Reference) (rs : List Reference) (q : Reference) (k : ℕ) (s : S)
      → Fits r
      → All Fits rs
      → Fits q
      → k < length (record_bytes q)
      → (file : List ℕ) × (append_all none (r ∷ rs) ≡ ok (some file))
        × (scan_shard visit (some (file ++ take k (record_bytes q))) s ≡ visit_all visit (r ∷ rs) s)
  scan_shard-append_all r rs q k s h hs hq torn = (
    shard_magic ++ records (r ∷ rs),
    append_all-records r rs h hs,
    scan_shard-records r rs q k s h hs hq torn,
  )

-- Appending one or more references that fit the record format to a new shard succeeds, and for
-- every callback a scan of the result does what calling it on these references in order does,
-- errors included.
pub append_all-stored :
    (r : Reference) (rs : List Reference)
    → Fits r
    → All Fits rs
    → (file : List ℕ) × (append_all none (r ∷ rs) ≡ ok (some file))
      × ((S : Type 0) (visit : S → Reference → Result Error S) (s : S)
          → scan_shard visit (some file) s ≡ visit_all visit (r ∷ rs) s)
append_all-stored r rs h hs = (
  shard_magic ++ records (r ∷ rs),
  append_all-records r rs h hs,
  λ S visit s.
      rw append-nil at
        (scan_shard-records visit r rs r 0 s h hs h (omega (arith, length-record_bytes r))),
)
