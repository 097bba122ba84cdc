-- ===== src/Indexes/Page/Spec.antt =====
-- The pages of `Manager.GetLogs` (server/internal/indexes/manager.go) against the whole result in
-- order: a scan that keeps one page in memory gives the same pages as sorting everything.
use simple_logging.Prelude.{
  ℕ, ◌+◌, ◌-◌, ◌≡◌, refl, Bool, true, false, ◌&&◌, List, [], ◌∷◌, Option, length, take, drop, map,
  if◌then◌else◌, arith, Result, ok,
}
use simple_logging.Prelude.Text.{text_eq}
use simple_logging.Prelude.Slices.{drop-take, drop-min}
use simple_logging.Paging.Sort.{sort}
use simple_logging.Paging.Heap.{
  push_bounded, push_all, arrived, length-sorted_arrived, sort-push_all_newest,
  sort-push_all_oldest,
}
use simple_logging.Indexes.Reference.{Reference, Error, scan_shard}
use simple_logging.Indexes.Reference.Scan.{visit_all}
use simple_logging.Indexes.Available.{
  Files, IsCurrent, is_available, reference_available, reference_available-is_available,
}
use simple_logging.Indexes.Page.{
  SortableEntry, sortable_entry_less, sortable_entry_less-IsLess, PageScan, visit_page,
  read_reference_page,
}

-- Scanning the shard visits these references, in order.
abbrev pub Stores : Option (List ℕ) → List Reference → Type 1
Stores shard rs =
    (S : Type 0) (visit : S → Reference → Result Error S) (s : S)
    → scan_shard visit shard s ≡ visit_all visit rs s

abbrev pub references : List SortableEntry → List Reference
references = map (λ e. e.entry)

module _ (logs_root : List ℕ) (files : Files) (value : List ℕ) where
  -- The references that hold the value and still point into a file, numbered from `n`.
  unfoldable pub found : ℕ → List Reference → List SortableEntry
  found n [] = []
  found n (r ∷ rs) =
      if text_eq r.value value && is_available logs_root files r
      then record { entry = r; position = n } ∷ found (n + 1) rs
      else found n rs

  -- All of them in order.
  unfoldable pub all_found : List Reference → List SortableEntry
  all_found rs = sort sortable_entry_less (arrived [] (found 0 rs))

  abbrev is_match : Reference → Bool
  is_match r = text_eq r.value value && is_available logs_root files r

  -- The state after one reference.
  next : Bool → ℕ → PageScan → Reference → PageScan
  next newest limit s r = record {
    heap =
        if is_match r
        then push_bounded sortable_entry_less newest limit s.heap
            (record { entry = r; position = s.total })
        else s.heap;
    total = if is_match r then s.total + 1 else s.total;
    file_sizes =
        if text_eq r.value value
        then (reference_available logs_root files r s.file_sizes).1
        else s.file_sizes;
  }

  visit_page-next :
      (newest : Bool) (limit : ℕ) (s : PageScan) (r : Reference)
      → IsCurrent logs_root files s.file_sizes
      → (visit_page logs_root files value newest limit s r ≡ ok (next newest limit s r))
        × IsCurrent logs_root files (next newest limit s r).file_sizes
  unfolding visit_page next
  visit_page-next newest limit s r h =
      let (a, h') = reference_available-is_available logs_root files r s.file_sizes h in
      (
        ground (arith, a),
        elim (text_eq r.value value)
            as (λ b. IsCurrent logs_root files (
              if b then (reference_available logs_root files r s.file_sizes).1 else s.file_sizes)) [
                | true ↦ h'
                | false ↦ h
              ],
      )

  -- A scan pushes exactly the found references, and counts them.
  visit_page-found :
      (newest : Bool) (limit : ℕ) (rs : List Reference) (s : PageScan)
      → IsCurrent logs_root files s.file_sizes
      → (s' : PageScan) × (visit_all (visit_page logs_root files value newest limit) rs s ≡ ok s')
        × (s'.heap ≡ push_all sortable_entry_less newest limit s.heap (found s.total rs))
        × (s'.total ≡ s.total + length (found s.total rs))
  unfolding visit_all found push_all next
  visit_page-found newest limit [] s h = (s, refl, refl, omega arith)
  visit_page-found newest limit (r ∷ rs) s h =
      let (e, h₁) = visit_page-next newest limit s r h in
      let (s', e', heap', total') = visit_page-found newest limit rs (next newest limit s r) h₁ in
      (s', rw e e', ground (arith, heap'), ground (arith, total'))

  pub length-all_found : (rs : List Reference) → length (all_found rs) ≡ length (found 0 rs)
  unfolding all_found
  length-all_found rs =
      length-sorted_arrived sortable_entry_less sortable_entry_less-IsLess (found 0 rs)

  -- For a shard whose scan visits given references, the scan that keeps one page in memory
  -- returns, for any start and page size, that part of the list of all references found for the
  -- value, sorted by timestamp and position, together with the length of that list.
  pub read_reference_page-forward :
      (shard : Option (List ℕ)) (rs : List Reference) (start page_size : ℕ)
      → Stores shard rs
      → read_reference_page logs_root files shard value start page_size false
        ≡ ok (references (take page_size (drop start (all_found rs))), length (all_found rs))
  unfolding read_reference_page all_found
  read_reference_page-forward shard rs start page_size stores =
      let empty : PageScan = record { heap = []; total = 0; file_sizes = [] } in
      let (s', e, heap', total') = visit_page-found false (page_size + start) rs empty tt in
      let (sorted, count) =
        sort-push_all_oldest sortable_entry_less sortable_entry_less-IsLess (page_size + start)
          (found 0 rs) in
      rw
        (
          stores PageScan (visit_page logs_root files value false (page_size + start)) empty,
          e,
          total',
          heap',
          sorted,
          drop-min,
          drop-take,
        )
        (ground (
          arith,
          length-sorted_arrived sortable_entry_less sortable_entry_less-IsLess (found 0 rs),
        ))

  -- For a shard whose scan visits given references, the scan for the last page returns the last
  -- references, as many as the page size if there are so many, of the list of all references found
  -- for the value, sorted by timestamp and position, together with the length of that list.
  pub read_reference_page-last :
      (shard : Option (List ℕ)) (rs : List Reference) (page_size : ℕ)
      → Stores shard rs
      → read_reference_page logs_root files shard value 0 page_size true
        ≡ ok (
          references (drop (length (all_found rs) - page_size) (all_found rs)),
          length (all_found rs),
        )
  unfolding read_reference_page all_found
  read_reference_page-last shard rs page_size stores =
      let empty : PageScan = record { heap = []; total = 0; file_sizes = [] } in
      let (s', e, heap', total') = visit_page-found true page_size rs empty tt in
      let (sorted, count) =
        sort-push_all_newest sortable_entry_less sortable_entry_less-IsLess page_size
          (found 0 rs) in
      rw
        (
          stores PageScan (visit_page logs_root files value true page_size) empty,
          e,
          total',
          heap',
          sorted,
        )
        (ground (
          arith,
          length-sorted_arrived sortable_entry_less sortable_entry_less-IsLess (found 0 rs),
        ))
