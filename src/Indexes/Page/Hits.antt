-- ===== src/Indexes/Page/Hits.antt =====
-- The lines that a page of an index has (server/internal/indexes/manager.go), up to their order.
use mathlib.Core.List.{Perm, perm_middle}
use mathlib.Core.List.Perm
use simple_logging.Prelude.{
  ℕ, ◌+◌, ◌≡◌, refl, ap, ◌∙◌, ◌&&◌, List, [], ◌∷◌, ◌++◌, append-nil, Option, none, some,
  if◌then◌else◌, Bool-cases, Option-cases, inl, inr,
}
use simple_logging.Prelude.Text.{text_eq}
use simple_logging.Paging.Sort.{sort, insert, IsSorted, sort-IsSorted}
use simple_logging.Paging.Heap.{arrived}
use simple_logging.Indexes.Reference.{Reference}
use simple_logging.Indexes.Available.{Files, is_available, read_referenced_line}
use simple_logging.Indexes.Page.{
  SortableEntry, sortable_entry_less, sortable_entry_less-IsLess, read_lines,
}
use simple_logging.Indexes.Page.Spec.{found, all_found}
use simple_logging.Indexes.Page.Walk.{lines_of}

-- A line in front of others, if there is one.
abbrev pub cons_line : Option (List ℕ) → List (List ℕ) → List (List ℕ)
cons_line none ls = ls
cons_line (some l) ls = l ∷ ls

cons_line-perm :
    (o : Option (List ℕ)) {xs ys : List (List ℕ)}
    → Perm xs ys
    → Perm (cons_line o xs) (cons_line o ys)
cons_line-perm none p = p
cons_line-perm (some l) p = Perm.cons l p

cons_line-swap :
    (o p : Option (List ℕ)) (ls : List (List ℕ))
    → Perm (cons_line o (cons_line p ls)) (cons_line p (cons_line o ls))
cons_line-swap none p ls = Perm.refl (cons_line p ls)
cons_line-swap (some l) none ls = Perm.refl (l ∷ ls)
cons_line-swap (some l) (some k) ls = perm_middle (l ∷ []) ls

cons_line-append :
    (o : Option (List ℕ)) (xs ys : List (List ℕ)) → cons_line o (xs ++ ys) ≡ cons_line o xs ++ ys
cons_line-append none xs ys = refl
cons_line-append (some l) xs ys = refl

module _ (logs_root : List ℕ) (files : Files) where
  abbrev pub line_of : SortableEntry → Option (List ℕ)
  line_of x = read_referenced_line logs_root files x.entry

  pub lines_of-cons :
      (x : SortableEntry) (xs : List SortableEntry)
      → lines_of logs_root files (x ∷ xs) ≡ cons_line (line_of x) (lines_of logs_root files xs)
  unfolding read_lines
  lines_of-cons x xs = elim (Option-cases (line_of x)) [
    | inl gone ↦ rw (gone, read_lines) refl
    | inr (l, there) ↦ rw (there, read_lines) refl
  ]

  lines_of-perm_cons :
      (x : SortableEntry) (xs ys : List SortableEntry)
      → Perm (lines_of logs_root files xs) (lines_of logs_root files ys)
      → Perm (lines_of logs_root files (x ∷ xs)) (lines_of logs_root files (x ∷ ys))
  lines_of-perm_cons x xs ys p =
      rw (lines_of-cons x xs, lines_of-cons x ys) (cons_line-perm (line_of x) p)

  lines_of-swap :
      (x y : SortableEntry) (xs : List SortableEntry)
      → Perm (lines_of logs_root files (x ∷ y ∷ xs)) (lines_of logs_root files (y ∷ x ∷ xs))
  lines_of-swap x y xs =
      rw
        (lines_of-cons x (y ∷ xs), lines_of-cons y xs, lines_of-cons y (x ∷ xs), lines_of-cons x xs)
        (cons_line-swap (line_of x) (line_of y) (lines_of logs_root files xs))

  -- The order of the entries changes only the order of the lines.
  lines_of-insert :
      (x : SortableEntry) (ys : List SortableEntry)
      → Perm
          (lines_of logs_root files (insert sortable_entry_less x ys))
          (lines_of logs_root files (x ∷ ys))
  unfolding insert
  lines_of-insert x [] = Perm.refl (lines_of logs_root files (x ∷ []))
  lines_of-insert x (y ∷ ys) = elim (Bool-cases (sortable_entry_less y x)) [
    | inl later ↦ rw later (
        Perm.trans
          (lines_of-perm_cons y (insert sortable_entry_less x ys) (x ∷ ys) (lines_of-insert x ys))
          (lines_of-swap y x ys))
    | inr here ↦ rw here (Perm.refl (lines_of logs_root files (x ∷ y ∷ ys)))
  ]

  lines_of-sort :
      (xs : List SortableEntry)
      → Perm (lines_of logs_root files (sort sortable_entry_less xs)) (lines_of logs_root files xs)
  unfolding sort
  lines_of-sort [] = Perm.refl (lines_of logs_root files [])
  lines_of-sort (x ∷ xs) =
      Perm.trans (lines_of-insert x (sort sortable_entry_less xs))
        (lines_of-perm_cons x (sort sortable_entry_less xs) xs (lines_of-sort xs))

  lines_of-middle :
      (seen : List SortableEntry) (x : SortableEntry) (xs : List SortableEntry)
      → Perm
          (lines_of logs_root files (x ∷ (seen ++ xs)))
          (lines_of logs_root files (seen ++ (x ∷ xs)))
  lines_of-middle [] x xs = Perm.refl (lines_of logs_root files (x ∷ xs))
  lines_of-middle (y ∷ seen) x xs =
      Perm.trans (lines_of-swap x y (seen ++ xs))
        (lines_of-perm_cons y (x ∷ (seen ++ xs)) (seen ++ (x ∷ xs)) (lines_of-middle seen x xs))

  lines_of-arrived :
      (seen xs : List SortableEntry)
      → Perm (lines_of logs_root files (arrived seen xs)) (lines_of logs_root files (seen ++ xs))
  unfolding arrived
  lines_of-arrived seen [] = rw append-nil (Perm.refl (lines_of logs_root files seen))
  lines_of-arrived seen (x ∷ xs) =
      Perm.trans (lines_of-arrived (x ∷ seen) xs) (lines_of-middle seen x xs)

  module _ (value : List ℕ) where
    -- All found lines are there, and sorted.
    pub lines_of-all_found :
        (rs : List Reference)
        → Perm
            (lines_of logs_root files (all_found logs_root files value rs))
            (lines_of logs_root files (found logs_root files value 0 rs))
    unfolding all_found
    lines_of-all_found rs =
        Perm.trans (lines_of-sort (arrived [] (found logs_root files value 0 rs)))
          (lines_of-arrived [] (found logs_root files value 0 rs))

    pub all_found-IsSorted :
        (rs : List Reference) → IsSorted sortable_entry_less (all_found logs_root files value rs)
    unfolding all_found
    all_found-IsSorted rs = sort-IsSorted sortable_entry_less-IsLess _

    -- The lines of the references that hold the value and whose file is long enough.
    unfoldable pub hits : List Reference → List (List ℕ)
    hits [] = []
    hits (r ∷ rs) =
        let rest = hits rs in
        if text_eq r.value value && is_available logs_root files r
        then cons_line (read_referenced_line logs_root files r) rest
        else rest

    pub lines_of-found :
        (n : ℕ) (rs : List Reference)
        → lines_of logs_root files (found logs_root files value n rs) ≡ hits rs
    unfolding found hits read_lines
    lines_of-found n [] = refl
    lines_of-found n (r ∷ rs) =
        elim (Bool-cases (text_eq r.value value && is_available logs_root files r)) [
          | inl hit ↦
              rw (hit, found)
                (lines_of-cons (record { entry = r; position = n }) _
                  ∙ ap (cons_line (read_referenced_line logs_root files r))
                      (lines_of-found (n + 1) rs))
          | inr miss ↦ rw (miss, found) (lines_of-found n rs)
        ]
