-- ===== src/Indexes/Keys/Found.antt =====
-- server/internal/indexes/manager.go: what a client of a new index gets, from the stored lines to the pages.
use mathlib.Core.List.{Perm}
use mathlib.Core.Path.{subst}
use simple_logging.Prelude.{
  ℕ, ◌+◌, ◌-◌, ◌%◌, ◌^◌, ◌<◌, ◌≡◌, refl, ap, ◌∙◌, true, false, ◌&&◌, List, [], ◌∷◌, ◌++◌,
  append_assoc, none, some, length, length-append, ◌==◌, leb, ltb, if◌then◌else◌, All, Bool-cases,
  Option-cases, inl, inr, map, ==_iff, and_both, arith,
}
use simple_logging.Prelude.Text.{text_eq, trim_right, is_line_end, text_eq_iff}
use simple_logging.Prelude.Slices.{flat, drop_left, take_left}
use simple_logging.Prelude.Bufio.{newline}
use simple_logging.Indexes.Reference.{Reference, u32}
use simple_logging.Indexes.Available.{
  Files, is_available, read_referenced_line, reference_path, fits_size, stat_size,
}
use simple_logging.Indexes.Page.Spec.{found, all_found}
use simple_logging.Indexes.Page.Walk.{lines_of}
use simple_logging.Indexes.Page.Hits.{cons_line, hits, lines_of-found, lines_of-all_found}
use simple_logging.Indexes.Field.{Codecs, Place, indexed_value, line_reference, shard_number}
use simple_logging.Indexes.Rebuild.{place_path}
use simple_logging.Indexes.Rebuild.Segment.{file_of, refs_at}
use simple_logging.Indexes.Rebuild.Shards.{in_shard, key_refs}

trim_right-prefix : (l : List ℕ) → (rest : List ℕ) × (l ≡ trim_right l ++ rest)
unfolding trim_right
trim_right-prefix [] = ([], refl)
trim_right-prefix (b ∷ l) =
    let (rest, q) = trim_right-prefix l in
    elim (Bool-cases (is_line_end b && text_eq (trim_right l) [])) [
      | inl ends ↦ rw (ends, trim_right) (b ∷ l, refl)
      | inr stays ↦ rw (stays, trim_right) (rest, ap (λ t. b ∷ t) q)
    ]

module _ (c : Codecs) (logs_root : List ℕ) (files : Files) (key value : List ℕ) where
  -- The lines, without carriage returns at their end, whose value for the key is the given one.
  unfoldable pub matching : List (List ℕ) → List (List ℕ)
  matching [] = []
  matching (l ∷ ls) =
      let rest = matching ls in
      let line = trim_right l in
      elim (indexed_value c line key) [
        | none ↦ rest
        | some v ↦ if text_eq v value then line ∷ rest else rest
      ]

  hits-append :
      (xs ys : List Reference)
      → hits logs_root files value (xs ++ ys)
        ≡ hits logs_root files value xs ++ hits logs_root files value ys
  unfolding hits
  hits-append [] ys = refl
  hits-append (x ∷ xs) ys =
      elim (Bool-cases (text_eq x.value value && is_available logs_root files x)) [
        | inr miss ↦ rw (miss, hits) (hits-append xs ys)
        | inl hit ↦
            rw (hit, hits)
              (elim (Option-cases (read_referenced_line logs_root files x)) [
                | inl gone ↦ rw gone (hits-append xs ys)
                | inr (l, there) ↦ rw there (ap (λ t. l ∷ t) (hits-append xs ys))
              ])
      ]

  -- The references with the value are all in its shard.
  hits-in_shard :
      (rs : List Reference)
      → hits logs_root files value (in_shard c (shard_number c value) rs)
        ≡ hits logs_root files value rs
  unfolding hits in_shard
  hits-in_shard [] = refl
  hits-in_shard (r ∷ rs) =
      elim (Bool-cases (text_eq r.value value && is_available logs_root files r)) [
        | inl hit ↦
            let same = ap (shard_number c) ((text_eq_iff r.value value).0 (and_both hit).0) in
            let here : (shard_number c r.value == shard_number c value) ≡ true =
              (==_iff _ _).1 same in
            rw (here, hit, hits)
              (ap (cons_line (read_referenced_line logs_root files r)) (hits-in_shard rs))
        | inr miss ↦ elim (Bool-cases (shard_number c r.value == shard_number c value)) [
          | inl here ↦ rw (here, miss, hits) (hits-in_shard rs)
          | inr apart ↦ rw (apart, miss) (hits-in_shard rs)
        ]
      ]

  -- A text at its place in a file is read back.
  text_there :
      (at : Place) (l v before after : List ℕ)
      → files (place_path logs_root at) ≡ some (before ++ (l ++ after))
      → length (before ++ (l ++ after)) < 2 ^ 63
      → length l < 2 ^ 32
      → (is_available logs_root files (line_reference c at l v (length before) (u32 (length l)))
          ≡ true)
        × (read_referenced_line logs_root files
              (line_reference c at l v (length before) (u32 (length l)))
            ≡ some l)
  unfolding line_reference is_available read_referenced_line reference_path fits_size stat_size
  text_there at l v before after e small short =
      let n = length-append before (l ++ after) in
      let k = length-append l after in
      let whole : u32 (length l) ≡ length l = omega arith in
      let rest = drop_left (length before) before (l ++ after) refl in
      let size : length before + length l - length before ≡ length l = omega arith in
      let line = take_left (length l) l after refl in
      let low : leb (2 ^ 63) (length before) ≡ false = ground (arith, n, k) in
      let inside : ltb (length (before ++ (l ++ after))) (length before + length l) ≡ false =
        ground (arith, n, k) in
      let fits : leb ((length before + length l) % 2 ^ 64) (length (before ++ (l ++ after)))
          ≡ true =
        ground (arith, n, k) in
      let high : leb (2 ^ 63) ((length before + length l) % 2 ^ 64) ≡ false =
        ground (arith, n, k) in
      (
        rw (is_available, stat_size, e, fits_size, whole, low, high, fits) refl,
        rw (read_referenced_line, e, whole, low, inside, size, rest) (ap some line),
      )

  -- So is a stored line, without carriage returns at its end.
  pub line_there :
      (at : Place) (l v before after : List ℕ)
      → files (place_path logs_root at) ≡ some (before ++ (l ++ (newline ∷ after)))
      → length (before ++ (l ++ (newline ∷ after))) < 2 ^ 63
      → length l < 2 ^ 32
      → let line = trim_right l in
        let r = line_reference c at line v (length before) (u32 (length line)) in
        (is_available logs_root files r ≡ true)
        × (read_referenced_line logs_root files r ≡ some line)
  line_there at l v before after e small short =
      let (rest, q) = trim_right-prefix l in
      let split : l ++ (newline ∷ after) ≡ trim_right l ++ (rest ++ (newline ∷ after)) =
        ap (λ t. t ++ (newline ∷ after)) q ∙ append_assoc (trim_right l) rest (newline ∷ after) in
      let whole = ap (λ t. before ++ t) split in
      let size = ap length q ∙ length-append (trim_right l) rest in
      text_there at (trim_right l) v before (rest ++ (newline ∷ after)) (e ∙ ap some whole)
        (subst (λ t. length t < 2 ^ 63) whole small) (omega (arith, size, short))

  hits-cons :
      (r : Reference) (rs : List Reference) (l : List ℕ)
      → is_available logs_root files r ≡ true
      → read_referenced_line logs_root files r ≡ some l
      → hits logs_root files value (r ∷ rs) ≡ (
          if text_eq r.value value
          then l ∷ hits logs_root files value rs
          else hits logs_root files value rs)
  unfolding hits
  hits-cons r rs l available line = elim (Bool-cases (text_eq r.value value)) [
    | inl hit ↦ rw (hit, hits, available, line) refl
    | inr miss ↦ rw (miss, hits) refl
  ]

  -- The references to a segment's lines lead to those that match.
  hits-refs_at :
      (at : Place) (before : List ℕ) (ls : List (List ℕ))
      → files (place_path logs_root at) ≡ some (before ++ file_of ls)
      → length (before ++ file_of ls) < 2 ^ 63
      → All (λ l. length l < 2 ^ 32) ls
      → hits logs_root files value (refs_at c key at (length before) ls) ≡ matching ls
  unfolding hits refs_at matching line_reference
  hits-refs_at at before [] e small short = refl
  hits-refs_at at before (l ∷ ls) e small (s, short) =
      let before' = before ++ (l ++ (newline ∷ [])) in
      let split : before' ++ file_of ls ≡ before ++ (l ++ (newline ∷ file_of ls)) =
        append_assoc before (l ++ (newline ∷ [])) (file_of ls)
        ∙ ap (λ t. before ++ t) (append_assoc l (newline ∷ []) (file_of ls)) in
      let next : length before + length l + 1 ≡ length before' =
        omega (arith, length-append before (l ++ (newline ∷ [])), length-append l (newline ∷ [])) in
      let ih : hits logs_root files value (refs_at c key at (length before') ls) ≡ matching ls =
        hits-refs_at at before' ls (rw split e) (rw split small) short in
      elim (Option-cases (indexed_value c (trim_right l) key)) [
        | inl no_value ↦ rw (no_value, refs_at, matching, next) ih
        | inr (v, there) ↦
            let (available, line) = line_there at l v before (file_of ls) e small s in
            rw (there, refs_at, matching, next)
              (hits-cons
                  (line_reference c at (trim_right l) v (length before)
                    (u32 (length (trim_right l))))
                  (refs_at c key at (length before') ls) (trim_right l) available line
                ∙ ap (λ t. if text_eq v value then trim_right l ∷ t else t) ih)
      ]

  module _ (lines : Place → List (List ℕ)) where
    -- The segment at a place is stored, and within the sizes that a reference can hold.
    abbrev pub IsServed : Place → Type 0
    IsServed at =
        (files (place_path logs_root at) ≡ some (file_of (lines at)))
        × (length (file_of (lines at)) < 2 ^ 63)
        × All (λ l. length l < 2 ^ 32) (lines at)

    -- The matching lines of all segments.
    unfoldable pub all_matching : List Place → List (List ℕ)
    all_matching ps = flat (map (λ at. matching (lines at)) ps)

    hits-key_refs :
        (ps : List Place)
        → All IsServed ps
        → hits logs_root files value (key_refs c lines key ps) ≡ all_matching ps
    unfolding hits key_refs all_matching
    hits-key_refs [] h = refl
    hits-key_refs (at ∷ ps) ((e, small, short), h) =
        hits-append (refs_at c key at 0 (lines at)) (key_refs c lines key ps)
        ∙ rw (hits-refs_at at [] (lines at) e small short)
            (ap (λ t. matching (lines at) ++ t) (hits-key_refs ps h))

    -- The lines found in the value's shard are the matching ones, up to their order.
    pub shard-matching :
        (ps : List Place)
        → All IsServed ps
        → let rs = in_shard c (shard_number c value) (key_refs c lines key ps) in
          Perm (lines_of logs_root files (all_found logs_root files value rs)) (all_matching ps)
    shard-matching ps h =
        let rs = in_shard c (shard_number c value) (key_refs c lines key ps) in
        let same : lines_of logs_root files (found logs_root files value 0 rs) ≡ all_matching ps =
          lines_of-found logs_root files value 0 rs
          ∙ (hits-in_shard (key_refs c lines key ps) ∙ hits-key_refs ps h) in
        rw same at (lines_of-all_found logs_root files value rs)
