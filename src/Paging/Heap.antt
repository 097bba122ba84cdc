-- ===== src/Paging/Heap.antt =====
-- The heaps `logEntryHeap` (server/internal/api/merge.go), `entryPageHeap` and `valueInfoHeap`
-- (server/internal/indexes/manager.go): each keeps one edge of a result, of at most `limit` entries.
-- container/heap is read by what it promises, that `heap.Pop` removes an element which the heap's
-- `Less` puts first; the order of the backing array is never looked at before it is sorted.
use simple_logging.Prelude.{
  ℕ, zero, suc, ◌+◌, ◌-◌, ◌≤◌, ◌≡◌, refl, sym, ap, ◌∙◌, Bool, true, false, not, List, [], ◌∷◌, ◌++◌,
  length, if◌then◌else◌, arith, take, drop, All, Bool-cases, inl, inr, ltb, min,
}
use simple_logging.Prelude.Slices.{take_left, take_all}
use simple_logging.Prelude.Order.{IsLess, not_less_trans, not_less-less}
use simple_logging.Paging.Sort.{
  insert, sort, IsSorted, length-insert, length-sort, insert_front, insert_back, insert-append_last,
  take-insert-take, All-drop, All-map, sort-IsSorted,
}

module _ {ℓ} {A : Type ℓ} where
  -- The heap `x ∷ xs` without the element that `before` puts first, and that element.
  unfoldable pub extract : (A → A → Bool) → A → List A → A × List A
  extract before x [] = (x, [])
  extract before x (y ∷ ys) =
      let (m, rest) = extract before y ys in if before m x then (m, x ∷ rest) else (x, y ∷ ys)

  -- `heap.Pop`, by what container/heap promises of it.
  unfoldable pub heap_pop : (A → A → Bool) → List A → List A
  unfolding extract
  heap_pop before [] = []
  heap_pop before (x ∷ xs) = (extract before x xs).1

  -- `heap.Push`, likewise.
  unfoldable pub heap_push : A → List A → List A
  heap_push x h = x ∷ h

module _ {ℓ} {A : Type ℓ} (less : A → A → Bool) (newest : Bool) where
  -- `Less` of the heaps: `less` if the newest entries are kept, and its negation if the oldest are.
  unfoldable pub heap_less : A → A → Bool
  heap_less a b = if newest then less a b else not (less a b)

  -- `heap.Push(h, x)`, then `heap.Pop(h)` if the heap has passed the limit.
  unfoldable pub push_bounded : ℕ → List A → A → List A
  unfolding heap_push heap_pop heap_less
  push_bounded limit h x =
      let h' = heap_push x h in if ltb limit (length h') then heap_pop heap_less h' else h'

  -- The heap after a scan over `xs`.
  unfoldable pub push_all : ℕ → List A → List A → List A
  push_all limit h [] = h
  push_all limit h (x ∷ xs) = push_all limit (push_bounded limit h x) xs

-- What was pushed, the last first.
unfoldable pub arrived {ℓ} : {A : Type ℓ} → List A → List A → List A
arrived seen [] = seen
arrived seen (x ∷ xs) = arrived (x ∷ seen) xs

module _ {ℓ} {A : Type ℓ} (less : A → A → Bool) where
  sort-extract_first :
      (x : A) (xs : List A)
      → sort less (x ∷ xs) ≡ (extract less x xs).0 ∷ sort less (extract less x xs).1
  unfolding extract sort insert
  sort-extract_first x [] = refl
  sort-extract_first x (y ∷ ys) = ground (arith, sort-extract_first y ys)

  length-extract :
      (before : A → A → Bool) (x : A) (xs : List A) → length (extract before x xs).1 ≡ length xs
  unfolding extract
  length-extract before x [] = refl
  length-extract before x (y ∷ ys) = ground (arith, length-extract before y ys)

  pub length-heap_pop :
      (before : A → A → Bool) (h : List A) → length (heap_pop before h) ≡ length h - 1
  unfolding heap_pop
  length-heap_pop before [] = refl
  length-heap_pop before (x ∷ xs) = omega (arith, length-extract before x xs)

  -- Popping the heap that keeps the newest entries drops the first of the sorted list.
  sort-heap_pop_first : (h : List A) → sort less (heap_pop less h) ≡ drop 1 (sort less h)
  unfolding heap_pop sort
  sort-heap_pop_first [] = refl
  sort-heap_pop_first (x ∷ xs) = rw (sort-extract_first x xs)

  module _ (laws : IsLess less) where
    abbrev after : A → A → Bool
    after a b = not (less a b)

    All_last {κ} : (P : A → Type κ) (xs : List A) (m : A) → All P (xs ++ (m ∷ [])) → P m
    All_last P [] m h = h.0
    All_last P (x ∷ xs) m h = All_last P xs m h.1

    -- A sorted list whose last element is before `x` lies before `x`.
    All-sorted_before :
        (xs : List A) (m x : A)
        → IsSorted less (xs ++ (m ∷ []))
        → less m x ≡ true
        → All (λ z. less z x ≡ true) (xs ++ (m ∷ []))
    All-sorted_before [] m x h e = (e, tt)
    All-sorted_before (z ∷ zs) m x h e = (
      not_less-less laws m x z e (All_last (λ y. less y z ≡ false) zs m h.0),
      All-sorted_before zs m x h.1 e,
    )

    sort-extract_last :
        (x : A) (xs : List A)
        → sort less (x ∷ xs) ≡ sort less (extract after x xs).1 ++ ((extract after x xs).0 ∷ [])
    unfolding extract sort
    sort-extract_last x [] = unfold insert in refl
    sort-extract_last x (y ∷ ys) =
        let m = (extract after y ys).0 in
        let rest = sort less (extract after y ys).1 in
        let ih = sort-extract_last y ys in
        elim (Bool-cases (less m x)) [
          | inr e ↦ rw (e, ih) (insert-append_last less x m rest e)
          | inl e ↦ rw e (
              insert_back less x (sort less (y ∷ ys))
                (rw ih (All-sorted_before rest m x (rw ih at (sort-IsSorted laws (y ∷ ys))) e)))
        ]

    -- Popping the heap that keeps the oldest entries drops the last of the sorted list.
    sort-heap_pop_last :
        (h : List A) → sort less (heap_pop after h) ≡ take (length h - 1) (sort less h)
    unfolding heap_pop sort
    sort-heap_pop_last [] = refl
    sort-heap_pop_last (x ∷ xs) = rw (sort-extract_last x xs) (
        sym (
          take_left _ (sort less (extract after x xs).1) _
            (omega (arith, length-sort less (extract after x xs).1, length-extract after x xs))))

    -- Dropping the first after an insertion is an insertion behind the dropped ones.
    drop-insert :
        (k : ℕ) (x : A) (ys : List A)
        → IsSorted less ys
        → k ≤ length ys
        → drop 1 (insert less x (drop k ys)) ≡ drop (suc k) (insert less x ys)
    unfolding insert
    drop-insert zero x ys h le = refl
    drop-insert (suc k) x [] h le = absurd (omega arith)
    drop-insert (suc k) x (y ∷ ys) h le = elim (Bool-cases (less y x)) [
      | inl e ↦ rw (e, insert) (drop-insert k x ys h.1 (omega arith))
      | inr e ↦
          rw (e, insert)
            (ap (drop 1) (
              insert_front less x (drop k ys) (
                All-drop less (λ z. less z x ≡ false) k ys
                  (All-map less (λ z. less z y ≡ false) ys (λ z p. not_less_trans laws z y x p e)
                    h.0))))
    ]

    -- What the heap holds, sorted, of the sorted list `all` of what has arrived.
    abbrev KeepsNewest : ℕ → List A → List A → Type ℓ
    KeepsNewest limit h all =
        (sort less h ≡ drop (length all - limit) all) × (length h ≡ min limit (length all))

    abbrev KeepsOldest : ℕ → List A → List A → Type ℓ
    KeepsOldest limit h all = (sort less h ≡ take limit all) × (length h ≡ min limit (length all))

    push_bounded-newest :
        (limit : ℕ) (h : List A) (x : A) (all : List A)
        → IsSorted less all
        → KeepsNewest limit h all
        → KeepsNewest limit (push_bounded less true limit h x) (insert less x all)
    unfolding push_bounded heap_push heap_less sort
    push_bounded-newest limit h x all sorted (e, n) =
        let k = length all - limit in
        elim (Bool-cases (ltb limit (suc (length h)))) [
          | inl full ↦
              let next : suc k ≡ length (insert less x all) - limit =
                ground (arith, length-insert less x all) in
              rw full (
                sort-heap_pop_first (x ∷ h)
                    ∙ ap (λ t. drop 1 (insert less x t)) e
                    ∙ drop-insert k x all sorted (omega arith)
                    ∙ ap (λ j. drop j (insert less x all)) next,
                ground (arith, length-heap_pop less (x ∷ h), length-insert less x all),
              )
          | inr room ↦
              let all_kept : k ≡ 0 = ground arith in
              let still : 0 ≡ length (insert less x all) - limit =
                ground (arith, length-insert less x all) in
              rw room (
                ap (insert less x) (e ∙ ap (λ j. drop j all) all_kept)
                    ∙ ap (λ j. drop j (insert less x all)) still,
                ground (arith, length-insert less x all),
              )
        ]

    push_bounded-oldest :
        (limit : ℕ) (h : List A) (x : A) (all : List A)
        → KeepsOldest limit h all
        → KeepsOldest limit (push_bounded less false limit h x) (insert less x all)
    unfolding push_bounded heap_push heap_less sort
    push_bounded-oldest limit h x all (e, n) = elim (Bool-cases (ltb limit (suc (length h)))) [
      | inl full ↦ rw full (
        sort-heap_pop_last (x ∷ h)
            ∙ ap (λ j. take j (insert less x (sort less h))) (ground arith)
            ∙ ap (λ t. take limit (insert less x t)) e
            ∙ take-insert-take less limit x all,
        ground (arith, length-heap_pop after (x ∷ h), length-insert less x all),
      )
      | inr room ↦ rw room (
        sym (
              take_all limit (insert less x (sort less h))
                (ground (arith, length-insert less x (sort less h), length-sort less h)))
            ∙ ap (λ t. take limit (insert less x t)) e
            ∙ take-insert-take less limit x all,
        ground (arith, length-insert less x all),
      )
    ]

    arrived-insert : (seen : List A) (x : A) → sort less (x ∷ seen) ≡ insert less x (sort less seen)
    unfolding sort
    arrived-insert seen x = refl

    length-arrived : (seen xs : List A) → length (arrived seen xs) ≡ length seen + length xs
    unfolding arrived
    length-arrived seen [] = omega arith
    length-arrived seen (x ∷ xs) = omega (arith, length-arrived (x ∷ seen) xs)

    pub length-sorted_arrived : (xs : List A) → length (sort less (arrived [] xs)) ≡ length xs
    length-sorted_arrived xs = omega (arith, length-sort less (arrived [] xs), length-arrived [] xs)

    push_all-newest :
        (limit : ℕ) (h seen xs : List A)
        → KeepsNewest limit h (sort less seen)
        → KeepsNewest limit (push_all less true limit h xs) (sort less (arrived seen xs))
    unfolding push_all arrived
    push_all-newest limit h seen [] k = k
    push_all-newest limit h seen (x ∷ xs) k =
        push_all-newest limit (push_bounded less true limit h x) (x ∷ seen) xs (
          rw (arrived-insert seen x)
            (push_bounded-newest limit h x (sort less seen) (sort-IsSorted laws seen) k))

    push_all-oldest :
        (limit : ℕ) (h seen xs : List A)
        → KeepsOldest limit h (sort less seen)
        → KeepsOldest limit (push_all less false limit h xs) (sort less (arrived seen xs))
    unfolding push_all arrived
    push_all-oldest limit h seen [] k = k
    push_all-oldest limit h seen (x ∷ xs) k =
        push_all-oldest limit (push_bounded less false limit h x) (x ∷ seen) xs
          (rw (arrived-insert seen x) (push_bounded-oldest limit h x (sort less seen) k))

    -- For a strict weak order, pushing a list's elements on a heap bounded by a limit that drops
    -- the first ones, and sorting the heap, gives the end of the whole sorted list, of at most the
    -- limit's length.
    pub sort-push_all_newest :
        (limit : ℕ) (xs : List A)
        → (sort less (push_all less true limit [] xs)
            ≡ drop (length xs - limit) (sort less (arrived [] xs)))
          × (length (push_all less true limit [] xs) ≡ min limit (length xs))
    unfolding sort
    sort-push_all_newest limit xs =
        let (e, n) = push_all-newest limit [] [] xs (ground arith) in
        rw (← length-sorted_arrived xs) (e, n)

    -- For a strict weak order, pushing a list's elements on a heap bounded by a limit that drops
    -- the last ones, and sorting the heap, gives the start of the whole sorted list, of at most
    -- the limit's length.
    pub sort-push_all_oldest :
        (limit : ℕ) (xs : List A)
        → (sort less (push_all less false limit [] xs) ≡ take limit (sort less (arrived [] xs)))
          × (length (push_all less false limit [] xs) ≡ min limit (length xs))
    unfolding sort
    sort-push_all_oldest limit xs =
        let (e, n) =
          push_all-oldest limit [] [] xs (sym (take_all limit [] (omega arith)), omega arith) in
        rw (← length-sorted_arrived xs) (e, n)
