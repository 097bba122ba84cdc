-- ===== src/Indexes/Reference/RoundTrip.antt =====
-- server/internal/indexes/manager.go: one record that was encoded is decoded to itself.
use simple_logging.Prelude.{
  ℕ, ◌+◌, ◌^◌, ◌≤◌, ◌<◌, ◌≡◌, refl, sym, ap, ◌∙◌, List, [], ◌∷◌, ◌++◌, ok, length, get_or, ◌==◌,
  arith, take, drop,
}
use simple_logging.Prelude.Bytes.{put_be, get_be, length-put_be, get_be-put_be}
use simple_logging.Prelude.Slices.{slice, flat, total, slice-flat, length-flat}
use simple_logging.Indexes.Reference.{
  Reference, body_fields, body_length, decode_body, u32, max_body,
}

-- The values fit the fields of the record, and the record fits the reader's limit.
pub record Fits (r : Reference) : Type 0 where
  pub timestamp_fits : r.timestamp < 2 ^ 64
  pub offset_fits : r.offset < 2 ^ 64
  pub line_length_fits : r.line_length < 2 ^ 32
  pub body_fits : body_length r ≤ max_body

total-body_fields : (r : Reference) → total (body_fields r) ≡ body_length r
unfolding body_fields
total-body_fields r = ground (
  arith,
  length-put_be 8 r.timestamp,
  length-put_be 8 r.offset,
  length-put_be 4 r.line_length,
  length-put_be 4 (length r.namespace),
  length-put_be 4 (length r.pod),
  length-put_be 4 (length r.container),
  length-put_be 4 (length r.segment),
  length-put_be 4 (length r.value),
)

pub length-body : (r : Reference) → length (flat (body_fields r)) ≡ body_length r
length-body r = length-flat (body_fields r) ∙ total-body_fields r

-- A number of `w` bytes, read back at the place where it was written.
number_at :
    (xs : List (List ℕ)) (w n : ℕ) (zs : List (List ℕ)) (i j : ℕ)
    → i ≡ total xs
    → j ≡ i + w
    → n < 256 ^ w
    → get_be (slice i j (flat (xs ++ (put_be w n ∷ zs)))) ≡ n
number_at xs w n zs i j hi hj fits =
    ap get_be (slice-flat xs (put_be w n) zs i j hi (omega (arith, length-put_be w n)))
    ∙ get_be-put_be w n fits

module _ (r : Reference) where
  -- The first `k` fields, and those from there on.
  front : ℕ → List (List ℕ)
  unfolding body_fields
  front k = take k (body_fields r)

  total_front :
      (total (front 1) ≡ 1)
      × (total (front 2) ≡ 9)
      × (total (front 3) ≡ 17)
      × (total (front 4) ≡ 21)
      × (total (front 5) ≡ 25)
      × (total (front 6) ≡ 29)
      × (total (front 7) ≡ 33)
      × (total (front 8) ≡ 37)
      × (total (front 9) ≡ 41)
  unfolding front body_fields
  total_front = ground (
    arith,
    length-put_be 8 r.timestamp,
    length-put_be 8 r.offset,
    length-put_be 4 r.line_length,
    length-put_be 4 (length r.namespace),
    length-put_be 4 (length r.pod),
    length-put_be 4 (length r.container),
    length-put_be 4 (length r.segment),
    length-put_be 4 (length r.value),
  )

  back : ℕ → List (List ℕ)
  unfolding body_fields
  back k = drop k (body_fields r)

module _ (r : Reference) (h : Fits r) where
  body : List ℕ
  unfolding body_fields
  body = flat (body_fields r)

  numbers_read :
      (get_be (slice 1 9 body) ≡ r.timestamp)
      × (get_be (slice 9 17 body) ≡ r.offset)
      × (get_be (slice 17 21 body) ≡ r.line_length)
  unfolding body front back body_fields
  numbers_read =
      let t = total_front r in
      (
        number_at (front r 1) 8 r.timestamp (back r 2) 1 9 (sym t.0) refl h.timestamp_fits,
        number_at (front r 2) 8 r.offset (back r 3) 9 17 (sym t.1) refl h.offset_fits,
        number_at (front r 3) 4 r.line_length (back r 4) 17 21 (sym t.2) refl h.line_length_fits,
      )

  lengths_read :
      (get_be (slice 21 25 body) ≡ length r.namespace)
      × (get_be (slice 25 29 body) ≡ length r.pod)
      × (get_be (slice 29 33 body) ≡ length r.container)
      × (get_be (slice 33 37 body) ≡ length r.segment)
      × (get_be (slice 37 41 body) ≡ length r.value)
  unfolding body front back body_fields
  lengths_read =
      let t = total_front r in
      (
        number_at (front r 4) 4 (length r.namespace) (back r 5) 21 25 (sym t.3) refl (omega arith),
        number_at (front r 5) 4 (length r.pod) (back r 6) 25 29 (sym t.4) refl (omega arith),
        number_at (front r 6) 4 (length r.container) (back r 7) 29 33 (sym t.5) refl (omega arith),
        number_at (front r 7) 4 (length r.segment) (back r 8) 33 37 (sym t.6) refl (omega arith),
        number_at (front r 8) 4 (length r.value) (back r 9) 37 41 (sym t.7) refl (omega arith),
      )

  -- The payload's slices, between the positions that the reader adds up.
  payload_read :
      let p₁ = u32 (41 + length r.namespace) in
      let p₂ = u32 (p₁ + length r.pod) in
      let p₃ = u32 (p₂ + length r.container) in
      let p₄ = u32 (p₃ + length r.segment) in
      (slice 41 p₁ body ≡ r.namespace)
      × (slice p₁ p₂ body ≡ r.pod)
      × (slice p₂ p₃ body ≡ r.container)
      × (slice p₃ p₄ body ≡ r.segment)
      × (slice p₄ (u32 (p₄ + length r.value)) body ≡ r.value)
  unfolding body front back body_fields
  payload_read =
      let t = total_front r in
      (
        slice-flat (front r 9) r.namespace (back r 10) _ _ (sym t.8) (omega arith),
        slice-flat (front r 9 ++ (r.namespace ∷ [])) r.pod (back r 11) _ _ (omega (arith, t))
            (omega arith),
        slice-flat (front r 9 ++ (r.namespace ∷ r.pod ∷ [])) r.container (back r 12) _ _
            (omega (arith, t)) (omega arith),
        slice-flat (front r 9 ++ (r.namespace ∷ r.pod ∷ r.container ∷ [])) r.segment (back r 13) _ _
            (omega (arith, t)) (omega arith),
        slice-flat (front r 9 ++ (r.namespace ∷ r.pod ∷ r.container ∷ r.segment ∷ [])) r.value [] _
            _ (omega (arith, t)) (omega arith),
      )

  flag_read : (get_or body 0 0 == 1) ≡ r.valid_time
  unfolding body body_fields
  flag_read = ground arith

  length_read : length body ≡ body_length r
  unfolding body
  length_read = length-body r

  decode_body-body : decode_body body ≡ ok r
  unfolding decode_body
  decode_body-body =
      ground (arith, numbers_read, lengths_read, payload_read, flag_read, length_read)

  -- The reader's decoder gives back the reference that was written.
  pub decode_body-flat : decode_body (flat (body_fields r)) ≡ ok r
  unfolding body
  decode_body-flat = decode_body-body
