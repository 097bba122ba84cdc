-- ===== src/Indexes/Rebuild/Segment.antt =====
-- server/internal/indexes/manager.go: filling an index from a segment of whole lines, against observing
-- its lines when they are stored.
use mathlib.Core.Path.{subst}
use simple_logging.Prelude.{
  ℕ, zero, suc, ◌+◌, ◌%◌, ◌^◌, ◌<◌, ◌≡◌, refl, sym, ap, ◌∙◌, false, List, [], ◌∷◌, ◌++◌, Option,
  none, some, length, length-append, ◌==◌, All, Option-cases, inl, inr, arith,
}
use simple_logging.Prelude.Text.{index_byte, trim_right}
use simple_logging.Prelude.Bufio.{newline, raw_line, raw_line-append, is_complete-line}
use simple_logging.Indexes.Reference.{Reference, Error, u32}
use simple_logging.Indexes.Field.{Codecs, Place, indexed_value, line_reference}
use simple_logging.Indexes.Rebuild.{
  Index, Outcome, Disk, and_then, each, append_to, index_line, observe_line, backfill_lines,
  backfill_file, place_path,
}

-- A stored line has no newline.
abbrev pub IsLine : List ℕ → Type 0
IsLine l = index_byte l newline ≡ none

-- It does not end in a carriage return.
abbrev pub IsTrimmed : List ℕ → Type 0
IsTrimmed l = trim_right l ≡ l

-- The content of a segment of whole lines.
abbrev pub file_of : List (List ℕ) → List ℕ
file_of [] = []
file_of (l ∷ ls) = l ++ (newline ∷ file_of ls)

trim_right-line : (l : List ℕ) → trim_right (l ++ (newline ∷ [])) ≡ trim_right l
unfolding trim_right
trim_right-line [] = refl
trim_right-line (c ∷ l) = rw (trim_right, trim_right-line l) refl

and_then-each :
    {A S : Type 0} (f : A → S → Outcome S) (xs ys : List A) (s : S) (e : Option Error)
    → each f (xs ++ ys) s ≡ and_then (each f xs s) (each f ys)
    → and_then (s, e) (each f (xs ++ ys)) ≡ and_then (and_then (s, e) (each f xs)) (each f ys)
and_then-each f xs ys s none h = h
and_then-each f xs ys s (some e) h = refl

pub and_then-ext :
    {S : Type 0} (r : Outcome S) {f g : S → Outcome S}
    → ((s : S) → f s ≡ g s)
    → and_then r f ≡ and_then r g
and_then-ext (s, none) h = h s
and_then-ext (s, some e) h = refl

pub each-append :
    {A S : Type 0} (f : A → S → Outcome S) (xs ys : List A) (s : S)
    → each f (xs ++ ys) s ≡ and_then (each f xs s) (each f ys)
each-append f [] ys s = refl
each-append f (x ∷ xs) ys s =
    let (s', e) = f x s in and_then-each f xs ys s' e (each-append f xs ys s')

module _ (c : Codecs) (key : List ℕ) (at : Place) where
  -- The references to the lines of a segment from an offset on, without carriage returns at their end.
  unfoldable pub refs_at : ℕ → List (List ℕ) → List Reference
  refs_at offset [] = []
  refs_at offset (l ∷ ls) =
      let rest = refs_at (offset + length l + 1) ls in
      let line = trim_right l in
      elim (indexed_value c line key) [
        | none ↦ rest
        | some value ↦ line_reference c at line value offset (u32 (length line)) ∷ rest
      ]

  module _ (disk : Disk) where
    -- Each line is observed behind the ones before it.
    unfoldable pub observe_lines : ℕ → List (List ℕ) → Index → Index
    observe_lines offset [] index = index
    observe_lines offset (l ∷ ls) index =
        observe_lines (offset + length l + 1) ls
          (observe_line c disk key at offset (u32 (length l)) l index)

    backfill_lines-refs :
        (fuel offset : ℕ) (lines : List (List ℕ)) (index : Index)
        → All IsLine lines
        → length (file_of lines) < fuel
        → offset + length (file_of lines) < 2 ^ 64
        → backfill_lines c disk key fuel at offset (file_of lines) index
          ≡ each (append_to c disk) (refs_at offset lines) index
    unfolding backfill_lines refs_at index_line
    backfill_lines-refs zero offset lines index h enough small = absurd (omega arith)
    backfill_lines-refs (suc fuel) offset [] index h enough small = unfold raw_line in refl
    backfill_lines-refs (suc fuel) offset (l ∷ ls) index (no_end, h) enough small =
        let sizes = length-append l (newline ∷ file_of ls) in
        let raw_size = length-append l (newline ∷ []) in
        let some_read : (length (l ++ (newline ∷ [])) == 0) ≡ false = ground (arith, raw_size) in
        let next : (offset + length (l ++ (newline ∷ []))) % 2 ^ 64 ≡ offset + length l + 1 =
          omega (arith, sizes, raw_size) in
        let ih = λ (index' : Index).
          backfill_lines-refs fuel (offset + length l + 1) ls index' h (omega (arith, sizes))
            (omega (arith, sizes)) in
        rw
          (
            raw_line-append l (file_of ls) no_end,
            backfill_lines,
            some_read,
            trim_right-line l,
            is_complete-line l,
            next,
          )
          (elim (Option-cases (indexed_value c (trim_right l) key)) [
            | inl no_value ↦ rw (no_value, index_line, refs_at) (ih index)
            | inr (value, there) ↦
                rw (there, index_line, refs_at)
                  (and_then-ext
                    (append_to c disk
                      (line_reference c at (trim_right l) value offset
                        (u32 (length (trim_right l))))
                      index)
                    ih)
          ])

    appended :
        (offset : ℕ) (ls : List (List ℕ)) (r : Outcome Index) (index' : Index)
        → and_then r (each (append_to c disk) (refs_at offset ls)) ≡ (index', none)
        → ((t : Index)
            → each (append_to c disk) (refs_at offset ls) t ≡ (index', none)
            → observe_lines offset ls t ≡ index')
        → observe_lines offset ls r.0 ≡ index'
    appended offset ls (t, none) index' e ih = ih t e
    appended offset ls (t, some err) index' e ih = cc

    -- A line that is indexed without an error is observed.
    observe_lines-refs :
        (offset : ℕ) (lines : List (List ℕ)) (index index' : Index)
        → All IsTrimmed lines
        → each (append_to c disk) (refs_at offset lines) index ≡ (index', none)
        → observe_lines offset lines index ≡ index'
    unfolding observe_lines observe_line index_line refs_at
    observe_lines-refs offset [] index index' h e = ap (λ r. r.0) e
    observe_lines-refs offset (l ∷ ls) index index' (trimmed, h) e =
        let rest = refs_at (offset + length l + 1) ls in
        let e' =
          subst
            (λ t.
              each (append_to c disk)
                (elim (indexed_value c t key) [
                  | none ↦ rest
                  | some value ↦ line_reference c at t value offset (u32 (length t)) ∷ rest
                ])
                index
              ≡ (index', none))
            trimmed e in
        elim (Option-cases (indexed_value c l key)) [
          | inl no_value ↦
              rw (no_value, observe_line, index_line)
                (observe_lines-refs (offset + length l + 1) ls index index' h (rw no_value at e'))
          | inr (value, there) ↦
              rw (there, observe_line, index_line)
                (appended (offset + length l + 1) ls _ index' (rw there at e')
                  (λ t. observe_lines-refs (offset + length l + 1) ls t index' h))
        ]

    -- Filling an index from a segment appends the references to its lines.
    pub backfill_file-refs :
        (logs_root : List ℕ) (lines : List (List ℕ)) (index index' : Index)
        → disk.files (place_path logs_root at) ≡ some (file_of lines)
        → All IsLine lines
        → length (file_of lines) < 2 ^ 64
        → backfill_file c disk key logs_root at index ≡ (index', none)
        → each (append_to c disk) (refs_at 0 lines) index ≡ (index', none)
    unfolding backfill_file
    backfill_file-refs logs_root lines index index' e h small done =
        sym (
          backfill_lines-refs (suc (length (file_of lines))) 0 lines index h (omega arith)
            (omega arith))
        ∙ rw (e, backfill_file) at done

    -- If a segment has whole lines that do not end in a carriage return, and fewer than 2^64
    -- bytes, and filling an index from it ends without an error, the result is the index that
    -- appending the references of its lines gives, and the one that ObserveLineAt leaves when it
    -- is called for each of these lines in order.
    pub backfill_file-observe :
        (logs_root : List ℕ) (lines : List (List ℕ)) (index index' : Index)
        → disk.files (place_path logs_root at) ≡ some (file_of lines)
        → All IsLine lines
        → All IsTrimmed lines
        → length (file_of lines) < 2 ^ 64
        → backfill_file c disk key logs_root at index ≡ (index', none)
        → (each (append_to c disk) (refs_at 0 lines) index ≡ (index', none))
          × (observe_lines 0 lines index ≡ index')
    backfill_file-observe logs_root lines index index' e h trimmed small done =
        let filled = backfill_file-refs logs_root lines index index' e h small done in
        (filled, observe_lines-refs 0 lines index index' trimmed filled)
