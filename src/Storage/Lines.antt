-- ===== src/Storage/Lines.antt =====
-- server/internal/storage/lines.go: the size limit of stored lines.
pub mod Capped
use simple_logging.Prelude.{
  ℕ, zero, suc, ◌+◌, ◌-◌, ◌*◌, ◌^◌, ◌≤◌, ◌<◌, ◌≡◌, refl, sym, ap, ◌∙◌, Bool, true, false, not, ◌&&◌,
  ◌||◌, List, [], ◌∷◌, ◌++◌, Option, none, some, length, length-append, length-take, take, drop,
  get_or, ltb, leb, ◌==◌, if◌then◌else◌, Bool-cases, inl, inr, ◌⊎◌, arith, append_assoc, append-nil,
}
use simple_logging.Prelude.Text.{codes, text_eq}
use simple_logging.Prelude.Bufio.{newline, raw_line}
use simple_logging.Prelude.Slices.{take_past, take_all}

abbrev pub max_line_bytes : ℕ
max_line_bytes = 2 ^ 20

-- " …[truncated]" in UTF-8.
abbrev pub truncated_marker : List ℕ
truncated_marker = 32 ∷ 226 ∷ 128 ∷ 166 ∷ codes "[truncated]"

-- utf8.RuneStart: not a continuation byte.
abbrev pub rune_start : ℕ → Bool
rune_start b = ltb b 128 || leb 192 b

-- The loop of `CapLine`.
unfoldable pub cut_back : List ℕ → ℕ → ℕ
cut_back line zero = zero
cut_back line (suc cut) =
    let less = cut_back line cut in if rune_start (get_or line (suc cut) 0) then suc cut else less

-- `CapLine` with `MaxLineBytes` as an argument.
unfoldable pub cap_line_to : ℕ → List ℕ → List ℕ
unfolding cut_back
cap_line_to limit line =
    if leb (length line) limit
    then line
    else take (cut_back line (limit - length truncated_marker)) line ++ truncated_marker

unfoldable pub cap_line : List ℕ → List ℕ
unfolding cap_line_to
cap_line line = cap_line_to max_line_bytes line

-- No rune starts at the `gap` positions behind `cut`.
abbrev pub IsGap : List ℕ → ℕ → ℕ → Type 0
IsGap line cut zero = Unit
IsGap line cut (suc gap) = (rune_start (get_or line (cut + suc gap) 0) ≡ false) × IsGap line cut gap

cut_back-rune_start :
    (line : List ℕ) (n : ℕ)
    → (gap : ℕ) × (cut_back line n + gap ≡ n)
      × IsGap line (cut_back line n) gap
      × ((cut_back line n ≡ 0) ⊎ (rune_start (get_or line (cut_back line n) 0) ≡ true))
unfolding cut_back
cut_back-rune_start line zero = (0, omega arith, tt, inl refl)
cut_back-rune_start line (suc n) =
    let (gap, a, b, c) = cut_back-rune_start line n in
    elim (Bool-cases (rune_start (get_or line (suc n) 0))) [
      | inl e ↦ rw (e, cut_back) (0, omega arith, tt, inr e)
      | inr e ↦
          let here : cut_back line n + suc gap ≡ suc n = omega arith in
          rw (e, cut_back) (suc gap, here, (rw (here, e) refl, b), c)
    ]

-- For any limit that the marker fits in, a capped line is within the limit. It is the line itself
-- if that fits, and else the longest prefix that leaves room for the marker and ends before the
-- start of a rune, or is empty, followed by the marker.
pub cap_line_to-longest :
    (limit : ℕ) (line : List ℕ)
    → length truncated_marker ≤ limit
    → (length (cap_line_to limit line) ≤ limit)
      × (((length line ≤ limit) × (cap_line_to limit line ≡ line))
          ⊎ ((cut : ℕ) × (gap : ℕ) × (limit < length line)
              × (cap_line_to limit line ≡ take cut line ++ truncated_marker)
              × (cut + gap + length truncated_marker ≡ limit)
              × IsGap line cut gap
              × ((cut ≡ 0) ⊎ (rune_start (get_or line cut 0) ≡ true))))
unfolding cap_line_to
cap_line_to-longest limit line room =
    let cut = cut_back line (limit - length truncated_marker) in
    let (gap, a, b, c) = cut_back-rune_start line (limit - length truncated_marker) in
    elim (Bool-cases (leb (length line) limit)) [
      | inl e ↦ rw (e, cap_line_to) (ground arith, inl (ground arith, refl))
      | inr e ↦
          rw (e, cap_line_to)
            (
              omega (arith, length-append (take cut line) truncated_marker, length-take cut line),
              inr (cut, gap, ground arith, refl, omega arith, b, c),
            )
    ]

-- How `bufio.Reader.ReadSlice('\n')` ends.
pub data SliceEnd : Type 0 where
  found buffer_full end_of_file : SliceEnd

-- `ReadSlice('\n')` with a buffer of `n` bytes: the slice and the rest.
unfoldable pub read_slice : ℕ → List ℕ → List ℕ × SliceEnd × List ℕ
read_slice n [] = ([], end_of_file, [])
read_slice zero (c ∷ s) = ([], buffer_full, c ∷ s)
read_slice (suc n) (c ∷ s) =
    let (chunk, end, rest) = read_slice n s in
    if c == newline then (c ∷ [], found, s) else (c ∷ chunk, end, rest)

-- `trimNewline`
unfoldable pub trim_newline : List ℕ → List ℕ
trim_newline b =
    let b₁ =
      if ltb 0 (length b) && get_or b (length b - 1) 0 == 10 then take (length b - 1) b else b in
    if ltb 0 (length b₁) && get_or b₁ (length b₁ - 1) 0 == 13 then take (length b₁ - 1) b₁ else b₁

-- The buffer behind one slice.
unfoldable pub append_room : ℕ → List ℕ → List ℕ → List ℕ
append_room max_bytes buf chunk =
    let room = max_bytes - length buf in
    if ltb 0 room
    then (if ltb room (length chunk) then buf ++ take room chunk else buf ++ chunk)
    else buf

-- The result of `ReadCappedLine`: `none` is io.EOF, and else the line and the rest of the input.
-- Reads do not fail, and every round but the last consumes the whole buffer.
unfoldable pub read_capped : ℕ → ℕ → ℕ → List ℕ → List ℕ → Option (Option (List ℕ × List ℕ))
unfolding read_slice append_room
read_capped zero buf_size max_bytes buf input = none
read_capped (suc fuel) buf_size max_bytes buf input =
    let (chunk, end, rest) = read_slice buf_size input in
    let buf' = append_room max_bytes buf chunk in
    elim end [
      | found ↦ some (some (trim_newline buf', rest))
      | buffer_full ↦ read_capped fuel buf_size max_bytes buf' rest
      | end_of_file ↦ if length buf' == 0 then some none else some (some (trim_newline buf', rest))
    ]

unfoldable pub read_capped_line : ℕ → ℕ → List ℕ → Option (Option (List ℕ × List ℕ))
unfolding read_capped
read_capped_line buf_size max_bytes input =
    read_capped (suc (length input)) buf_size max_bytes [] input
