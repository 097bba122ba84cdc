-- ===== src/Indexes/Values/Listed.antt =====
-- server/internal/indexes/manager.go: the pages of `ListValues` against the whole list of values.
use simple_logging.Prelude.{
  ℕ, zero, suc, ◌+◌, ◌-◌, ◌≡◌, refl, sym, ap, ◌∙◌, Bool, true, false, List, [], ◌∷◌, ◌++◌, some,
  All, Result, ok, err, arith, Bool-cases, inl, inr, if◌then◌else◌, ltb, min, take, drop, length,
  length-append, length-take, length-drop,
}
use simple_logging.Prelude.Text.{text_eq}
use simple_logging.Prelude.Assoc.{find, IsMap}
use simple_logging.Prelude.Decimal.{itoa}
use simple_logging.Prelude.Slices.{drop-take}
use simple_logging.Paging.Sort.{sort, All-map}
use simple_logging.Paging.Heap.{
  heap_push, push_bounded, push_all, heap_less, arrived, length-sorted_arrived,
  sort-push_all_oldest,
}
use simple_logging.Paging.Distinct.{
  Differs, Differs-swap, Apart, All-heap_pop, Apart-heap_pop, heap_pop-behind,
}
use simple_logging.Storage.Layout.{contains_string}
use simple_logging.Indexes.Reference.{Reference, Error, invalid_token}
use simple_logging.Indexes.Available.{Files, IsCurrent}
use simple_logging.Indexes.Page.{parse_start}
use simple_logging.Indexes.Page.Spec.{Stores}
use simple_logging.Indexes.Field.{Codecs, valid_key, shard_number}
use simple_logging.Indexes.Rebuild.{Index}
use simple_logging.Indexes.Values.{
  ValueInfo, ValueScan, value_info_less, push_value, push_values, infos_in, scan_values,
  visit_value, values_page_size, finish_values, list_values,
}
use simple_logging.Indexes.Values.Tally.{tally, tally-IsMap}
use simple_logging.Indexes.Values.Counted.{visit_value-tally, info_of, find-tally}
use simple_logging.Indexes.Values.Less.{value_info_less-IsLess}
use simple_logging.Indexes.Values.Iterated.{iterated, iterated-Apart}
use mathlib.Core.List.{Permᴰ}

push_values-append :
    (limit : ℕ) (h xs ys : List ValueInfo)
    → push_values limit h (xs ++ ys) ≡ push_values limit (push_values limit h xs) ys
unfolding push_values
push_values-append limit h [] ys = refl
push_values-append limit h (x ∷ xs) ys = push_values-append limit (push_value limit h x) xs ys

push_value-push_bounded :
    (limit : ℕ) (h : List ValueInfo) (x : ValueInfo)
    → Apart value_info_less (x ∷ h)
    → push_value limit h x ≡ push_bounded value_info_less false limit h x
unfolding push_value push_bounded heap_push heap_less
push_value-push_bounded limit h x apart =
    ap (λ t. if ltb limit (suc (length h)) then t else x ∷ h)
      (heap_pop-behind value_info_less (x ∷ h) apart)

-- The order in which `valueInfoHeap` takes elements out.
abbrev later : ValueInfo → ValueInfo → Bool
later a b = value_info_less b a

-- What all elements still to come differ from.
abbrev Across : List ValueInfo → List ValueInfo → Type 0
Across h = All (λ z. All (λ w. Differs value_info_less w z) h)

Across-nil : (xs : List ValueInfo) → Across [] xs
Across-nil [] = tt
Across-nil (x ∷ xs) = (tt, Across-nil xs)

Across-cons :
    (x : ValueInfo) (h xs : List ValueInfo)
    → All (λ z. Differs value_info_less z x) xs
    → Across h xs
    → Across (x ∷ h) xs
Across-cons x h [] ds cs = tt
Across-cons x h (z ∷ xs) (d, ds) (c, cs) =
    ((Differs-swap value_info_less z x d, c), Across-cons x h xs ds cs)

push_value-Apart :
    (limit : ℕ) (h : List ValueInfo) (x : ValueInfo)
    → Apart value_info_less (x ∷ h)
    → Apart value_info_less (push_value limit h x)
unfolding push_value heap_push
push_value-Apart limit h x apart = elim (Bool-cases (ltb limit (suc (length h)))) [
  | inl full ↦ rw full (Apart-heap_pop value_info_less later (x ∷ h) apart)
  | inr room ↦ rw room apart
]

push_value-Across :
    (limit : ℕ) (h : List ValueInfo) (x : ValueInfo) (xs : List ValueInfo)
    → Across (x ∷ h) xs
    → Across (push_value limit h x) xs
unfolding push_value heap_push
push_value-Across limit h x xs across = elim (Bool-cases (ltb limit (suc (length h)))) [
  | inl full ↦ rw full (
      All-map value_info_less (λ z. All (λ w. Differs value_info_less w z) (x ∷ h)) xs
        (λ z. All-heap_pop value_info_less later (λ w. Differs value_info_less w z) (x ∷ h)) across)
  | inr room ↦ rw room across
]

-- Without ties the heap is the one that keeps the first ones of a strict weak order.
push_values-push_all :
    (limit : ℕ) (h xs : List ValueInfo)
    → Apart value_info_less h
    → Apart value_info_less xs
    → Across h xs
    → push_values limit h xs ≡ push_all value_info_less false limit h xs
unfolding push_values push_all
push_values-push_all limit h [] hs apart across = refl
push_values-push_all limit h (x ∷ xs) hs (ds, apart) (c, across) =
    push_values-push_all limit (push_value limit h x) xs (push_value-Apart limit h x (c, hs)) apart
      (push_value-Across limit h x xs (Across-cons x h xs ds across))
    ∙ ap (λ t. push_all value_info_less false limit t xs)
        (push_value-push_bounded limit h x (c, hs))

-- The page from `start` on of all the values, and the tokens.
unfoldable pub listed_page :
    ℕ → ℕ → List ValueInfo → Result Error (List ValueInfo × List ℕ × List ℕ)
listed_page page_size start all =
    let sorted = sort value_info_less (arrived [] all) in
    if ltb (length all) start
    then err invalid_token
    else ok (
      take page_size (drop start sorted),
      if ltb (start + page_size) (length all) then itoa (start + page_size) else [],
      if ltb 0 start then itoa (start - page_size) else [],
    )

-- The token behind a page that is as long as it can be.
next_token :
    (page_size start k n : ℕ)
    → start + k ≡ min (start + page_size) n
    → (if ltb (start + k) n then itoa (start + k) else [])
      ≡ (if ltb (start + page_size) n then itoa (start + page_size) else [])
next_token page_size start k n e = elim (Bool-cases (ltb (start + page_size) n)) [
  | inl more ↦ let whole : start + k ≡ start + page_size = ground arith in rw whole refl
  | inr last ↦ let ended : ltb (start + k) n ≡ false = ground arith in rw (ended, last) refl
]

finish_values-listed_page :
    (page_size start : ℕ) (all : List ValueInfo) (s : ValueScan)
    → sort value_info_less s.heap ≡ take (start + page_size) (sort value_info_less (arrived [] all))
    → s.value_count ≡ length all
    → finish_values page_size start s ≡ listed_page page_size start all
unfolding finish_values listed_page
finish_values-listed_page page_size start all s e count =
    let sorted = sort value_info_less (arrived [] all) in
    let swap : start + page_size ≡ page_size + start = omega arith in
    let page : drop start (take (start + page_size) sorted) ≡ take page_size (drop start sorted) =
      ap (λ k. drop start (take k sorted)) swap ∙ drop-take start page_size sorted in
    let n = length-sorted_arrived value_info_less value_info_less-IsLess all in
    let held = length-take (start + page_size) sorted in
    elim (Bool-cases (ltb (length all) start)) [
      | inl past ↦ rw (count, past) refl
      | inr fits ↦
          let from : min start (length (take (start + page_size) sorted)) ≡ start = ground arith in
          rw (e, count, fits, from, page)
            (ap
              (λ t. ok (
                take page_size (drop start sorted),
                t,
                if ltb 0 start then itoa (start - page_size) else [],
              ))
              (next_token page_size start (length (take page_size (drop start sorted))) (length all)
                (ground
                  (arith, length-take page_size (drop start sorted), length-drop start sorted))))
    ]

module _ (logs_root : List ℕ) (files : Files) (order : ℕ → List ValueInfo → List ValueInfo)
    (refs : ℕ → List Reference) (index : Index) (stores : (n : ℕ) → Stores (index n) (refs n)) where
  scan_values-iterated :
      (limit left n : ℕ) (s : ValueScan)
      → IsCurrent logs_root files s.file_sizes
      → (s' : ValueScan) × (scan_values logs_root files order limit left n index s ≡ ok s')
        × (s'.heap ≡ push_values limit s.heap (iterated logs_root files order refs left n))
        × (s'.value_count ≡ s.value_count + length (iterated logs_root files order refs left n))
  unfolding scan_values iterated push_values
  scan_values-iterated limit zero n s h = (s, refl, refl, omega arith)
  scan_values-iterated limit (suc left) n s h =
      let (sizes, e, h') = visit_value-tally logs_root files (refs n) [] s.file_sizes h in
      let infos = order n (infos_in (tally logs_root files (refs n) [])) in
      let later_ones = iterated logs_root files order refs left (suc n) in
      let t : ValueScan = record {
        heap = push_values limit s.heap infos;
        value_count = s.value_count + length infos;
        file_sizes = sizes;
      } in
      let (s', e', heap', count') = scan_values-iterated limit left (suc n) t h' in
      (
        s',
        rw (stores n _ (visit_value logs_root files) ([], s.file_sizes), e) e',
        heap' ∙ sym (push_values-append limit s.heap infos later_ones),
        omega (arith, count', length-append infos later_ones),
      )

  -- If the key is valid and known, the token names a start, each shard's scan visits given
  -- references, which are in the shard of their value, and each map is iterated in some order of
  -- its entries: ListValues gives the part from the start on, at most a page long, of the list of
  -- all shards' values, the latest first, with the tokens of the pages beside it, or an error if
  -- the start is past that list. Of a shard, that list has each value of a reference that points
  -- into a stored file, once, with the number of these references and the latest of their valid
  -- times.
  pub list_values-listed_page :
      (c : Codecs) (keys : List (List ℕ)) (key : List ℕ) (request_size start : ℕ)
      (page_token : List ℕ)
      → ((n : ℕ) (xs : List ValueInfo) → Permᴰ xs (order n xs))
      → ((n : ℕ) → All (λ r. shard_number c r.value ≡ n) (refs n))
      → valid_key key ≡ true
      → contains_string keys key ≡ true
      → parse_start false page_token ≡ some start
      → (list_values logs_root files order keys index key request_size page_token
          ≡ listed_page
              (values_page_size request_size)
              start
              (iterated logs_root files order refs 256 0))
        × ((n : ℕ)
            → IsMap text_eq (tally logs_root files (refs n) [])
              × ((v : List ℕ)
                  → find text_eq v (tally logs_root files (refs n) [])
                    ≡ info_of logs_root files v (refs n)))
  unfolding list_values
  list_values-listed_page c keys key request_size start page_token permuted sharded valid known
        token =
      let size = values_page_size request_size in
      let all = iterated logs_root files order refs 256 0 in
      let (s, e, heap, count) =
        scan_values-iterated (start + size) 256 0
          (record { heap = []; value_count = 0; file_sizes = [] }) tt in
      let apart = iterated-Apart logs_root files order refs c permuted sharded 256 0 in
      let (sorted, _) =
        sort-push_all_oldest value_info_less value_info_less-IsLess (start + size) all in
      (
        rw (valid, known, token, e)
            (finish_values-listed_page size start all s
              (ap (sort value_info_less)
                  (heap ∙ push_values-push_all (start + size) [] all tt apart (Across-nil all))
                ∙ sorted)
              (omega (arith, count))),
        λ n. (
          (tally-IsMap logs_root files (refs n) [] tt tt).0,
          λ v. find-tally logs_root files v (refs n),
        ),
      )
