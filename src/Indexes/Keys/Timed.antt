-- ===== src/Indexes/Keys/Timed.antt =====
-- server/internal/indexes/manager.go: the lines that a new index leads to, in the order of their times.
use mathlib.Core.Path.{subst}
use simple_logging.Prelude.{
  ℕ, suc, ◌+◌, ◌^◌, ◌<◌, ◌≡◌, refl, ap, ◌∙◌, Bool, true, false, ◌&&◌, List, [], ◌∷◌, ◌++◌,
  append_assoc, Option, none, some, length, length-append, take, ltb, ◌==◌, All, All-append,
  Bool-cases, Option-cases, inl, inr, arith,
}
use simple_logging.Prelude.Text.{text_eq, index_byte, trim_right}
use simple_logging.Prelude.Bufio.{newline}
use simple_logging.Paging.Sort.{sort, IsSorted, All-insert}
use simple_logging.Paging.Heap.{arrived}
use simple_logging.Indexes.Reference.{Reference, u32}
use simple_logging.Indexes.Available.{Files, is_available, read_referenced_line}
use simple_logging.Indexes.Page.{SortableEntry, sortable_entry_less, instant, read_lines}
use simple_logging.Indexes.Page.Spec.{found, all_found}
use simple_logging.Indexes.Page.Walk.{lines_of}
use simple_logging.Indexes.Page.Hits.{lines_of-cons}
use simple_logging.Indexes.Field.{
  Codecs, Place, indexed_value, line_reference, line_timestamp, shard_number, zero_nanos,
}
use simple_logging.Indexes.Rebuild.{place_path}
use simple_logging.Indexes.Rebuild.Segment.{file_of, refs_at}
use simple_logging.Indexes.Rebuild.Shards.{in_shard, key_refs}
use simple_logging.Indexes.Keys.Found.{line_there, IsServed}

-- A time before another; a line without a time is behind all others.
abbrev pub earlier : Option ℕ → Option ℕ → Bool
earlier none o = false
earlier (some s) none = true
earlier (some s) (some t) = ltb (instant s) (instant t)

abbrev HasTime : Reference → Option ℕ → Type 0
HasTime r none = r.valid_time ≡ false
HasTime r (some t) = (r.valid_time ≡ true) × (r.timestamp ≡ t)

parsed-HasTime :
    (r : Reference) (o : Option ℕ)
    → r.valid_time ≡ elim o [ none ↦ false | some t ↦ true ]
    → r.timestamp ≡ elim o [ none ↦ zero_nanos | some t ↦ t ]
    → HasTime r o
parsed-HasTime r none e f = e
parsed-HasTime r (some t) e f = (e, f)

not_less-earlier :
    (x y : SortableEntry) (o p : Option ℕ)
    → HasTime x.entry o
    → HasTime y.entry p
    → sortable_entry_less y x ≡ false
    → earlier p o ≡ false
unfolding sortable_entry_less
not_less-earlier x y o none h k e = refl
not_less-earlier x y none (some t) h (k, q) e = absurd (ground (arith, e, h, k))
not_less-earlier x y (some s) (some t) (h, r) (k, q) e = ground (arith, e, h, r, k, q)

-- What holds of all references holds of those in a shard and of those found.
module _ {κ} (P : Reference → Type κ) where
  pub All-in_shard : (c : Codecs) (n : ℕ) (rs : List Reference) → All P rs → All P (in_shard c n rs)
  unfolding in_shard
  All-in_shard c n [] h = tt
  All-in_shard c n (r ∷ rs) (h, hs) = elim (Bool-cases (shard_number c r.value == n)) [
    | inl here ↦ rw here (h, All-in_shard c n rs hs)
    | inr apart ↦ rw apart (All-in_shard c n rs hs)
  ]

  abbrev Holds : SortableEntry → Type κ
  Holds x = P x.entry

  All-found :
      (logs_root : List ℕ) (files : Files) (value : List ℕ) (n : ℕ) (rs : List Reference)
      → All P rs
      → All Holds (found logs_root files value n rs)
  unfolding found
  All-found logs_root files value n [] h = tt
  All-found logs_root files value n (r ∷ rs) (h, hs) =
      elim (Bool-cases (text_eq r.value value && is_available logs_root files r)) [
        | inl hit ↦ rw hit (h, All-found logs_root files value (n + 1) rs hs)
        | inr miss ↦ rw miss (All-found logs_root files value n rs hs)
      ]

  All-arrived :
      (seen xs : List SortableEntry) → All Holds seen → All Holds xs → All Holds (arrived seen xs)
  unfolding arrived
  All-arrived seen [] h k = h
  All-arrived seen (x ∷ xs) h (k, ks) = All-arrived (x ∷ seen) xs (k, h) ks

  All-sort : (xs : List SortableEntry) → All Holds xs → All Holds (sort sortable_entry_less xs)
  unfolding sort
  All-sort [] h = tt
  All-sort (x ∷ xs) (h, hs) =
      All-insert sortable_entry_less Holds x (sort sortable_entry_less xs) h (All-sort xs hs)

  pub All-all_found :
      (logs_root : List ℕ) (files : Files) (value : List ℕ) (rs : List Reference)
      → All P rs
      → All Holds (all_found logs_root files value rs)
  unfolding all_found
  All-all_found logs_root files value rs h =
      All-sort (arrived [] (found logs_root files value 0 rs)) (
        All-arrived [] (found logs_root files value 0 rs) tt
          (All-found logs_root files value 0 rs h))

module _ (c : Codecs) where
  -- The time in front of a line's first space.
  abbrev pub time_in : List ℕ → Option ℕ
  time_in l = elim (index_byte l b' ') [ none ↦ c.parse_time [] | some i ↦ c.parse_time (take i l) ]

  abbrev pub line_earlier : List ℕ → List ℕ → Bool
  line_earlier l k = earlier (time_in l) (time_in k)

  parse_taken :
      (l : List ℕ) (o : Option ℕ)
      → c.parse_time (elim o [ none ↦ [] | some i ↦ take i l ])
        ≡ elim o [ none ↦ c.parse_time [] | some i ↦ c.parse_time (take i l) ]
  parse_taken l none = refl
  parse_taken l (some i) = refl

  parse_time-time_in : (l : List ℕ) → c.parse_time (line_timestamp l) ≡ time_in l
  unfolding line_timestamp
  parse_time-time_in l = parse_taken l (index_byte l b' ')

  line_reference-HasTime :
      (at : Place) (l v : List ℕ) (offset n : ℕ)
      → HasTime (line_reference c at l v offset n) (time_in l)
  unfolding line_reference
  line_reference-HasTime at l v offset n =
      subst (HasTime (line_reference c at l v offset n)) (parse_time-time_in l) (
        parsed-HasTime (line_reference c at l v offset n) (c.parse_time (line_timestamp l)) refl
          refl)

  module _ (logs_root : List ℕ) (files : Files) where
    -- The reference leads to a line and has its time.
    abbrev pub IsTimed : Reference → Type 0
    IsTimed r =
        (l : List ℕ) × (read_referenced_line logs_root files r ≡ some l) × HasTime r (time_in l)

    refs_at-IsTimed :
        (key : List ℕ) (at : Place) (before : List ℕ) (ls : List (List ℕ))
        → files (place_path logs_root at) ≡ some (before ++ file_of ls)
        → length (before ++ file_of ls) < 2 ^ 63
        → All (λ l. length l < 2 ^ 32) ls
        → All IsTimed (refs_at c key at (length before) ls)
    unfolding refs_at
    refs_at-IsTimed key at before [] e small short = tt
    refs_at-IsTimed key at before (l ∷ ls) e small (s, short) =
        let before' = before ++ (l ++ (newline ∷ [])) in
        let split : before' ++ file_of ls ≡ before ++ (l ++ (newline ∷ file_of ls)) =
          append_assoc before (l ++ (newline ∷ [])) (file_of ls)
          ∙ ap (λ t. before ++ t) (append_assoc l (newline ∷ []) (file_of ls)) in
        let next : length before + length l + 1 ≡ length before' =
          omega
            (arith, length-append before (l ++ (newline ∷ [])), length-append l (newline ∷ [])) in
        let ih : All IsTimed (refs_at c key at (length before') ls) =
          refs_at-IsTimed key at before' ls (rw split e) (rw split small) short in
        elim (Option-cases (indexed_value c (trim_right l) key)) [
          | inl no_value ↦ rw (no_value, refs_at, next) ih
          | inr (v, there) ↦
              let line =
                (line_there c logs_root files key v at l v before (file_of ls) e small s).1 in
              rw (there, refs_at, next)
                (
                  (
                    trim_right l,
                    line,
                    line_reference-HasTime at (trim_right l) v (length before)
                        (u32 (length (trim_right l))),
                  ),
                  ih,
                )
        ]

    pub key_refs-IsTimed :
        (key value : List ℕ) (lines : Place → List (List ℕ)) (ps : List Place)
        → All (IsServed c logs_root files key value lines) ps
        → All IsTimed (key_refs c lines key ps)
    unfolding key_refs
    key_refs-IsTimed key value lines [] h = tt
    key_refs-IsTimed key value lines (at ∷ ps) ((e, small, short), h) =
        All-append IsTimed (refs_at c key at 0 (lines at)) (key_refs c lines key ps)
          (refs_at-IsTimed key at [] (lines at) e small short)
          (key_refs-IsTimed key value lines ps h)

    abbrev AllTimed : List SortableEntry → Type 0
    AllTimed = All (λ x. IsTimed x.entry)

    pub length-lines_of :
        (es : List SortableEntry) → AllTimed es → length (lines_of logs_root files es) ≡ length es
    unfolding read_lines
    length-lines_of [] h = refl
    length-lines_of (x ∷ es) ((l, e, _), h) =
        rw (lines_of-cons logs_root files x es, e) (ap suc (length-lines_of es h))

    lines_of-later :
        (x : SortableEntry) (o : Option ℕ) (es : List SortableEntry)
        → HasTime x.entry o
        → All (λ y. sortable_entry_less y x ≡ false) es
        → AllTimed es
        → All (λ m. earlier (time_in m) o ≡ false) (lines_of logs_root files es)
    unfolding read_lines
    lines_of-later x o [] t h k = tt
    lines_of-later x o (y ∷ es) t (h, hs) ((m, e, u), k) =
        rw (lines_of-cons logs_root files y es, e)
          (not_less-earlier x y o (time_in m) t u h, lines_of-later x o es t hs k)

    -- Sorted entries lead to sorted lines.
    pub lines_of-IsSorted :
        (es : List SortableEntry)
        → AllTimed es
        → IsSorted sortable_entry_less es
        → IsSorted line_earlier (lines_of logs_root files es)
    unfolding read_lines
    lines_of-IsSorted [] h k = tt
    lines_of-IsSorted (x ∷ es) ((l, e, t), h) (k, ks) =
        rw (lines_of-cons logs_root files x es, e)
          (lines_of-later x (time_in l) es t k h, lines_of-IsSorted es h ks)
