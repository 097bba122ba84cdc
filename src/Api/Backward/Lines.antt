-- ===== src/Api/Backward/Lines.antt =====
-- What `scanBackwardInFile` finds, in terms of the lines of the text before the offset.
use simple_logging.Prelude.{
  ℕ, zero, suc, ◌+◌, ◌-◌, ◌≤◌, ◌<◌, ◌≡◌, refl, sym, ap, ◌∙◌, true, false, List, [], ◌∷◌, Option,
  some, length, take, drop, length-drop, get_or, ◌==◌, if◌then◌else◌, Bool-cases, inl, inr, arith,
  ◌⊎◌,
}
use native.Mathlib.Nat.{add-zero}
use native.Mathlib.Numerals.{add-one}
use simple_logging.Prelude.Slices.{slice}
use simple_logging.Prelude.Bufio.{newline}
use simple_logging.Api.Backward.{scan_block, scan_blocks, scan_backward_in_file}

-- The scan with no blocks: over the first `i` bytes of the file, from the last.
scan_all : List ℕ → ℕ → ℕ → ℕ → ℕ × ℕ
scan_all file need zero count = (0, count - 1)
scan_all file need (suc i) count = elim (get_or file i 0 == newline) [
  | true ↦ elim (suc count == suc need) [
    | true ↦ (suc i, need)
    | false ↦ scan_all file need i (suc count)
  ]
  | false ↦ scan_all file need i count
]

get_or-drop : (s i : ℕ) (xs : List ℕ) → get_or (drop s xs) i 0 ≡ get_or xs (s + i) 0
get_or-drop zero i xs = ap (λ j. get_or xs j 0) (omega arith)
get_or-drop (suc s) i [] = refl
get_or-drop (suc s) i (x ∷ xs) =
    let e : suc s + i ≡ suc (s + i) = omega arith in rw e (get_or-drop s i xs)

get_or-take : (n i : ℕ) (xs : List ℕ) → i < n → get_or (take n xs) i 0 ≡ get_or xs i 0
get_or-take zero i xs h = absurd (omega arith)
get_or-take (suc n) i [] h = refl
get_or-take (suc n) zero (x ∷ xs) h = refl
get_or-take (suc n) (suc i) (x ∷ xs) h = get_or-take n i xs (omega arith)

get_or-slice :
    (s e i : ℕ) (xs : List ℕ) → s + i < e → get_or (slice s e xs) i 0 ≡ get_or xs (s + i) 0
get_or-slice s e i xs h = get_or-take (e - s) i (drop s xs) (omega arith) ∙ get_or-drop s i xs

-- How one block continues the scan.
after_block : List ℕ → ℕ → ℕ → ℕ ⊎ ℕ → ℕ × ℕ
after_block file need start (inl i) = (start + i + 1, need)
after_block file need start (inr count) = scan_all file need start count

scan_all-block :
    (file : List ℕ) (need start end i count : ℕ)
    → start + i ≤ end
    → scan_all file need (start + i) count
      ≡ after_block file need start (scan_block (slice start end file) need i count)
unfolding scan_block after_block scan_all
scan_all-block file need start end zero count h = ap (λ j. scan_all file need j count) (omega arith)
scan_all-block file need start end (suc i) count h =
    let e : start + suc i ≡ suc (start + i) = omega arith in
    rw (e, scan_all)
      (ground (
        arith,
        get_or-slice start end i file,
        scan_all-block file need start end i count,
        scan_all-block file need start end i (suc count),
      ))

-- A block's outcome, handed on by the outer loop.
next_block : ℕ → ℕ → List ℕ → ℕ → ℕ → ℕ ⊎ ℕ → Option (ℕ × ℕ)
next_block fuel buf_size file need start (inl i) = some (start + i + 1, need)
next_block fuel buf_size file need start (inr count) =
    scan_blocks fuel buf_size file need start count

scan_blocks-next :
    (fuel buf_size : ℕ) (file : List ℕ) (need pos count : ℕ)
    → 0 < pos
    → pos ≤ length file
    → scan_blocks (suc fuel) buf_size file need pos count
      ≡ next_block fuel buf_size file need
          (pos - buf_size)
          (scan_block (slice (pos - buf_size) pos file) need (pos - (pos - buf_size)) count)
unfolding scan_blocks next_block
scan_blocks-next fuel buf_size file need pos count p l = ground arith

next_block-after_block :
    (fuel buf_size : ℕ) (file : List ℕ) (need start : ℕ) (r : ℕ ⊎ ℕ)
    → ((c : ℕ) → scan_blocks fuel buf_size file need start c ≡ some (scan_all file need start c))
    → next_block fuel buf_size file need start r ≡ some (after_block file need start r)
unfolding next_block after_block
next_block-after_block fuel buf_size file need start (inl i) ih = refl
next_block-after_block fuel buf_size file need start (inr c) ih = ih c

scan_blocks-scan_all :
    (fuel buf_size : ℕ) (file : List ℕ) (need pos count : ℕ)
    → 0 < buf_size
    → pos ≤ fuel
    → pos ≤ length file
    → scan_blocks fuel buf_size file need pos count ≡ some (scan_all file need pos count)
unfolding scan_blocks scan_all
scan_blocks-scan_all zero buf_size file need zero count b h l = refl
scan_blocks-scan_all zero buf_size file need (suc pos) count b h l = absurd (omega arith)
scan_blocks-scan_all (suc fuel) buf_size file need zero count b h l = refl
scan_blocks-scan_all (suc fuel) buf_size file need (suc pos) count b h l =
    let start = suc pos - buf_size in
    let e : start + (suc pos - start) ≡ suc pos = omega arith in
    scan_blocks-next fuel buf_size file need (suc pos) count (omega arith) l
    ∙ next_block-after_block fuel buf_size file need start _
        (λ c. scan_blocks-scan_all fuel buf_size file need start c b (omega arith) (omega arith))
    ∙ ap some (
        sym (
          rw e at (scan_all-block file need start (suc pos) (suc pos - start) count (omega arith))))

unfoldable pub newlines : List ℕ → ℕ
newlines [] = 0
newlines (c ∷ s) = (if c == newline then 1 else 0) + newlines s

-- What the scan of the first `i` bytes says of the newlines behind its result.
abbrev Found : List ℕ → ℕ → ℕ → ℕ → ℕ → ℕ → Type 0
Found file need i count o f =
    ((0 < o)
      × (o ≤ i)
      × (get_or file (o - 1) 0 ≡ newline)
      × (f ≡ need)
      × (count + newlines (slice o i file) ≡ need))
    ⊎ ((o ≡ 0) × (f ≡ count + newlines (take i file) - 1) × (count + newlines (take i file) ≤ need))

is_newline : ℕ → ℕ
is_newline c = if c == newline then 1 else 0

newlines-take-suc :
    (n : ℕ) (xs : List ℕ)
    → n < length xs
    → newlines (take (suc n) xs) ≡ newlines (take n xs) + is_newline (get_or xs n 0)
unfolding newlines is_newline
newlines-take-suc n [] h = absurd (omega arith)
newlines-take-suc zero (c ∷ s) h = omega arith
newlines-take-suc (suc n) (c ∷ s) h = omega (arith, newlines-take-suc n s (omega arith))

newlines-slice-suc :
    (o i : ℕ) (file : List ℕ)
    → o ≤ i
    → i < length file
    → newlines (slice o (suc i) file) ≡ newlines (slice o i file) + is_newline (get_or file i 0)
newlines-slice-suc o i file p q =
    let e : suc i - o ≡ suc (i - o) = omega arith in
    let e' : o + (i - o) ≡ i = omega arith in
    rw e (
      newlines-take-suc (i - o) (drop o file) (omega (arith, length-drop o file))
      ∙ ap (λ c. newlines (slice o i file) + is_newline c)
          (get_or-drop o (i - o) file ∙ ap (λ j. get_or file j 0) e'))

newlines-slice_end : (i : ℕ) (file : List ℕ) → newlines (slice i i file) ≡ 0
unfolding newlines
newlines-slice_end i file = let e : i - i ≡ 0 = omega arith in rw e refl

Found-suc :
    (file : List ℕ) (need i count o f : ℕ)
    → i < length file
    → Found file need i (count + is_newline (get_or file i 0)) o f
    → Found file need (suc i) count o f
Found-suc file need i count o f h (inl (a, b, c, d, e)) =
    inl (a, omega arith, c, d, omega (arith, newlines-slice-suc o i file b h))
Found-suc file need i count o f h (inr (a, b, c)) =
    inr (a, omega (arith, newlines-take-suc i file h), omega (arith, newlines-take-suc i file h))

scan_all-Found :
    (file : List ℕ) (need i count : ℕ)
    → i ≤ length file
    → count ≤ need
    → Found file need i count (scan_all file need i count).0 (scan_all file need i count).1
unfolding scan_all newlines is_newline
scan_all-Found file need zero count h c = inr (refl, omega arith, omega arith)
scan_all-Found file need (suc i) count h c = elim (Bool-cases (get_or file i 0 == newline)) [
  | inr other ↦
      rw (other, scan_all)
        (Found-suc file need i count _ _ h
          (rw (other, is_newline, add-zero) (scan_all-Found file need i count (omega arith) c)))
  | inl hit ↦ elim (Bool-cases (suc count == suc need)) [
    | inl enough ↦
        rw (hit, scan_all, enough)
          (inl (
            omega arith,
            omega arith,
            ground arith,
            refl,
            ground (arith, newlines-slice_end (suc i) file),
          ))
    | inr more ↦
        rw (hit, scan_all, more)
          (Found-suc file need i count _ _ h (
            rw (hit, is_newline, add-one)
              (scan_all-Found file need i (suc count) (omega arith) (ground arith))))
  ]
]

-- How many lines lie between two offsets; the last need not be terminated.
abbrev pub lines_between : List ℕ → ℕ → ℕ → ℕ
lines_between file start end =
    (if get_or file (end - 1) 0 == newline then 0 else 1) + newlines (slice start end file)

-- For a positive number of lines before a positive offset inside the file, and any block size: the
-- scan succeeds, and either the result is the start of a line from which exactly that many lines
-- follow, or the text has at most that many lines, the offset is 0 and the reported count is one
-- less than the number of those lines.
pub scan_backward_in_file-lines :
    (buf_size : ℕ) (file : List ℕ) (end need : ℕ)
    → 0 < buf_size
    → 0 < need
    → 0 < end
    → end ≤ length file
    → (offset found : ℕ) × (scan_backward_in_file buf_size file end need ≡ some (offset, found))
      × (((0 < offset)
            × (get_or file (offset - 1) 0 ≡ newline)
            × (lines_between file offset end ≡ need)
            × (found ≡ need))
          ⊎ ((offset ≡ 0)
              × (lines_between file 0 end ≤ need)
              × (found ≡ lines_between file 0 end - 1)))
unfolding scan_backward_in_file
scan_backward_in_file-lines buf_size file end need b n e l =
    let count : ℕ = if get_or file (end - 1) 0 == newline then 0 else 1 in
    let r = scan_all file need end count in
    (
      r.0,
      r.1,
      ground (
        arith,
        scan_blocks-scan_all end buf_size file need end 0 b (omega arith) l,
        scan_blocks-scan_all end buf_size file need end 1 b (omega arith) l,
      ),
      let whole : end - 0 ≡ end = omega arith in
          rw whole (elim (scan_all-Found file need end count l (ground arith)) [
            | inl (p, _, c, d, q) ↦ inl (p, c, q, d)
            | inr (p, f, q) ↦ inr (p, q, f)
          ]),
    )
