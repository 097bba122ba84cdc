-- ===== src/Storage/Lines/Capped.antt =====
-- server/internal/storage/lines.go: `ReadCappedLine` against the line that it reads.
use simple_logging.Prelude.{
  ℕ, zero, suc, ◌+◌, ◌-◌, ◌≤◌, ◌<◌, ◌≡◌, refl, ap, ◌∙◌, Bool, true, false, List, [], ◌∷◌, ◌++◌,
  Option, none, some, length, length-append, length-take, take, ltb, ◌==◌, if◌then◌else◌,
  Bool-cases, inl, inr, arith, append_assoc,
}
use simple_logging.Prelude.Bufio.{newline, raw_line, length-raw_line}
use simple_logging.Prelude.Slices.{take_past, take_all}
use simple_logging.Storage.Lines.{
  SliceEnd, found, buffer_full, end_of_file, read_slice, append_room, trim_newline, read_capped,
  read_capped_line,
}

-- A slice is a part of the line.
abbrev SliceOf : ℕ → List ℕ → List ℕ × SliceEnd × List ℕ → Type 0
SliceOf n s (chunk, found, rest) = (raw_line s ≡ (chunk, rest)) × (0 < length chunk)
SliceOf n s (chunk, buffer_full, rest) =
    (raw_line s ≡ (chunk ++ (raw_line rest).0, (raw_line rest).1)) × (length rest + n ≡ length s)
SliceOf n s (chunk, end_of_file, rest) = (raw_line s ≡ (chunk, rest)) × (rest ≡ [])

SliceOf-cons :
    (n c : ℕ) (s : List ℕ) (p : List ℕ × SliceEnd × List ℕ)
    → (c == newline) ≡ false
    → SliceOf n s p
    → SliceOf (suc n) (c ∷ s) (c ∷ p.0, p.1, p.2)
unfolding raw_line
SliceOf-cons n c s (chunk, found, rest) other (e, l) = (ground (arith, e), omega arith)
SliceOf-cons n c s (chunk, buffer_full, rest) other (e, l) = (ground (arith, e), omega arith)
SliceOf-cons n c s (chunk, end_of_file, rest) other (e, l) = (ground (arith, e), l)

read_slice-SliceOf : (n : ℕ) (s : List ℕ) → SliceOf n s (read_slice n s)
unfolding read_slice raw_line
read_slice-SliceOf n [] = (refl, refl)
read_slice-SliceOf zero (c ∷ s) = (refl, omega arith)
read_slice-SliceOf (suc n) (c ∷ s) = elim (Bool-cases (c == newline)) [
  | inl e ↦ rw (e, read_slice) (rw (e, raw_line) refl, omega arith)
  | inr e ↦ rw (e, read_slice) (SliceOf-cons n c s (read_slice n s) e (read_slice-SliceOf n s))
]

take_within : (n : ℕ) (xs ys : List ℕ) → n ≤ length xs → take n (xs ++ ys) ≡ take n xs
take_within zero xs ys h = refl
take_within (suc n) [] ys h = absurd (omega arith)
take_within (suc n) (x ∷ xs) ys h = ap (λ t. x ∷ t) (take_within n xs ys (omega arith))

-- The buffer holds the first bytes of what was read.
append_room-take :
    (n : ℕ) (seen chunk : List ℕ) → append_room n (take n seen) chunk ≡ take n (seen ++ chunk)
unfolding append_room
append_room-take n seen chunk = elim (Bool-cases (ltb (length seen) n)) [
  | inl e ↦
      let whole : take n seen ≡ seen = take_all n seen (ground arith) in
      let past : take n (seen ++ chunk) ≡ seen ++ take (n - length seen) chunk =
        let split : n ≡ length seen + (n - length seen) = ground arith in
        ap (λ k. take k (seen ++ chunk)) split ∙ take_past (n - length seen) seen chunk in
      let short : length chunk ≤ n - length seen → take (n - length seen) chunk ≡ chunk =
        take_all (n - length seen) chunk in
      rw whole (ground (arith, past, short))
  | inr e ↦
      let cut : take n (seen ++ chunk) ≡ take n seen = take_within n seen chunk (ground arith) in
      ground (arith, cut, length-take n seen)
]

-- The line behind `seen`, cut to the limit; `none` if there is nothing.
abbrev capped_from : ℕ → List ℕ → List ℕ → Option (List ℕ × List ℕ)
capped_from n seen input =
    if length (seen ++ (raw_line input).0) == 0
    then none
    else some (trim_newline (take n (seen ++ (raw_line input).0)), (raw_line input).1)

some_if {ℓ} :
    {A : Type ℓ} (c : Bool) (x : A)
    → (if c then some none else some (some x)) ≡ some (if c then none else some x)
some_if true x = refl
some_if false x = refl

-- One round of the loop, by what the slice is.
read_capped-step :
    (fuel buf_size n : ℕ) (seen input : List ℕ) (p : List ℕ × SliceEnd × List ℕ)
    → read_slice buf_size input ≡ p
    → 0 < buf_size
    → 0 < n
    → SliceOf buf_size input p
    → ((seen' rest : List ℕ)
        → length rest < length input
        → read_capped fuel buf_size n (take n seen') rest ≡ some (capped_from n seen' rest))
    → read_capped (suc fuel) buf_size n (take n seen) input ≡ some (capped_from n seen input)
unfolding read_capped
read_capped-step fuel buf_size n seen input (chunk, found, rest) e b h (r, l) ih =
    let full : (length (seen ++ chunk) == 0) ≡ false = ground (arith, length-append seen chunk) in
    rw (
      read_capped,
      ap (λ q. q.1) e,
      ap (λ q. q.0) e,
      ap (λ q. q.2) e,
      append_room-take n seen chunk,
      r,
      full,
    )
read_capped-step fuel buf_size n seen input (chunk, buffer_full, rest) e b h (r, l) ih = rw (
  read_capped,
  ap (λ q. q.1) e,
  ap (λ q. q.0) e,
  ap (λ q. q.2) e,
  append_room-take n seen chunk,
  ih (seen ++ chunk) rest (omega arith),
  r,
  append_assoc,
)
read_capped-step fuel buf_size n seen input (chunk, end_of_file, rest) e b h (r, l) ih =
    let same : (length (take n (seen ++ chunk)) == 0) ≡ (length (seen ++ chunk) == 0) =
      ground (arith, length-take n (seen ++ chunk)) in
    rw
      (
        read_capped,
        ap (λ q. q.1) e,
        ap (λ q. q.0) e,
        ap (λ q. q.2) e,
        append_room-take n seen chunk,
        r,
        same,
      )
      (some_if (length (seen ++ chunk) == 0) _)

read_capped-capped_from :
    (fuel buf_size n : ℕ) (seen input : List ℕ)
    → 0 < buf_size
    → 0 < n
    → length input < fuel
    → read_capped fuel buf_size n (take n seen) input ≡ some (capped_from n seen input)
read_capped-capped_from zero buf_size n seen input b h enough = absurd (omega arith)
read_capped-capped_from (suc fuel) buf_size n seen input b h enough =
    read_capped-step fuel buf_size n seen input (read_slice buf_size input) refl b h
      (read_slice-SliceOf buf_size input)
      (λ seen' rest fewer. read_capped-capped_from fuel buf_size n seen' rest b h (omega arith))

-- For every positive buffer size and limit, a read of a line ends. It reports the end of the input
-- exactly if the input is empty; else it returns the first bytes, up to the limit, of the input's
-- first line, without the line end among them, and takes that whole line off the input, however
-- long it is.
pub read_capped_line-raw_line :
    (buf_size n : ℕ) (input : List ℕ)
    → 0 < buf_size
    → 0 < n
    → read_capped_line buf_size n input
      ≡ some (
          if length input == 0
          then none
          else some (trim_newline (take n (raw_line input).0), (raw_line input).1))
unfolding read_capped_line
read_capped_line-raw_line buf_size (suc n) [] b h =
    unfold raw_line in read_capped-capped_from 1 buf_size (suc n) [] [] b h (omega arith)
read_capped_line-raw_line buf_size (suc n) (c ∷ s) b h =
    let nonempty : (length (raw_line (c ∷ s)).0 == 0) ≡ false =
      ground (arith, length-raw_line c s) in
    let nonempty' : (suc (length s) == 0) ≡ false = ground arith in
    read_capped-capped_from (suc (suc (length s))) buf_size (suc n) [] (c ∷ s) b h (omega arith)
    ∙ rw (nonempty, nonempty')
read_capped_line-raw_line buf_size zero input b h = absurd (omega arith)
