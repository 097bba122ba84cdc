-- ===== src/Storage/DiskGuard.antt =====
-- server/internal/storage/diskguard.go: `check`, which deletes the oldest segments of a full volume.
use simple_logging.Prelude.{
  ℕ, zero, suc, ◌+◌, ◌≤◌, ◌<◌, ◌≡◌, refl, sym, ap, ◌∙◌, Bool, true, false, not, ◌||◌, List, [], ◌∷◌,
  Option, none, some, length, take, ltb, if◌then◌else◌, ◌⊎◌, inl, inr, Bool-cases, Option-cases,
  arith,
}
use simple_logging.Paging.Sort.{sort}

-- `agedSegment`, with whether a writer has it open and whether os.Remove succeeds.
pub record AgedSegment : Type 0 where
  pub path : List ℕ
  pub date : ℕ
  pub is_open : Bool
  pub removable : Bool

-- The comparison of `allSegmentsByAge`. sort.Slice leaves the order of one day's segments open.
abbrev pub date_before : AgedSegment → AgedSegment → Bool
date_before a b = ltb a.date b.date

-- How the loop ends: with a usage, or with a failed measurement.
pub record Outcome : Type 0 where
  pub deleted : List AgedSegment
  pub used : Option ℕ

-- `probe n` is what the measurement after `n` deletions gives.
module _ (probe : ℕ → Option ℕ) (low_water_percent : ℕ) where
  unfoldable pub guard_loop : List AgedSegment → ℕ → ℕ → Outcome
  guard_loop [] count used = record { deleted = []; used = some used }
  guard_loop (s ∷ ss) count used = elim (ltb used low_water_percent) [
    | true ↦ record { deleted = []; used = some used }
    | false ↦ elim (s.is_open || not s.removable) [
      | true ↦ guard_loop ss count used
      | false ↦ elim (probe (suc count)) [
        | none ↦ record { deleted = s ∷ []; used = none }
        | some used' ↦
            let rest = guard_loop ss (suc count) used' in
            record { deleted = s ∷ rest.deleted; used = rest.used }
      ]
    ]
  ]

-- `check`; `high_water_percent` and `low_water_percent` are the configured marks, and `none` is a
-- failed first measurement.
unfoldable pub check : (ℕ → Option ℕ) → ℕ → ℕ → List AgedSegment → Outcome
unfolding guard_loop
check probe high_water_percent low_water_percent segments = elim (probe 0) [
  | none ↦ record { deleted = []; used = none }
  | some used ↦
      if ltb used high_water_percent
      then record { deleted = []; used = some used }
      else guard_loop probe low_water_percent (sort date_before segments) 0 used
]

-- Whether the index compaction runs after `check`.
abbrev pub compacts : Outcome → Bool
compacts o = ltb 0 (length o.deleted)

-- The segments that the guard can delete.
unfoldable pub deletable : List AgedSegment → List AgedSegment
deletable [] = []
deletable (s ∷ ss) = if s.is_open || not s.removable then deletable ss else s ∷ deletable ss

-- The `n` measurements from the `count`-th on were not below the low water mark.
abbrev pub IsNeeded : (ℕ → Option ℕ) → ℕ → ℕ → ℕ → Type 0
IsNeeded probe low count zero = Unit
IsNeeded probe low count (suc n) =
    ((u : ℕ) × (probe count ≡ some u) × (low ≤ u)) × IsNeeded probe low (suc count) n

-- The loop ended with a usage below the mark, or with nothing left, or with a failed measurement.
abbrev pub Stops : ℕ → List AgedSegment → List AgedSegment → Option ℕ → Type 0
Stops low segments deleted none = Unit
Stops low segments deleted (some u) = (u < low) ⊎ (deleted ≡ deletable segments)

-- What the guard promises about the segments from `count` deletions on.
pub record IsGuarded (probe : ℕ → Option ℕ) (low : ℕ) (segments : List AgedSegment) (count : ℕ)
    (o : Outcome) : Type 0 where
  pub oldest_first : o.deleted ≡ take (length o.deleted) (deletable segments)
  pub was_needed : IsNeeded probe low count (length o.deleted)
  pub stops : Stops low segments o.deleted o.used
  pub measured : o.used ≡ probe (count + length o.deleted)

Stops-cons :
    (low : ℕ) (s : AgedSegment) (ss deleted : List AgedSegment) (used : Option ℕ)
    → (s.is_open || not s.removable) ≡ false
    → Stops low ss deleted used
    → Stops low (s ∷ ss) (s ∷ deleted) used
unfolding deletable
Stops-cons low s ss deleted none e h = tt
Stops-cons low s ss deleted (some u) e (inl enough) = inl enough
Stops-cons low s ss deleted (some u) e (inr all) = inr (rw e (ap (λ t. s ∷ t) all))

Stops-skip :
    (low : ℕ) (s : AgedSegment) (ss deleted : List AgedSegment) (used : Option ℕ)
    → (s.is_open || not s.removable) ≡ true
    → Stops low ss deleted used
    → Stops low (s ∷ ss) deleted used
unfolding deletable
Stops-skip low s ss deleted none e h = tt
Stops-skip low s ss deleted (some u) e (inl enough) = inl enough
Stops-skip low s ss deleted (some u) e (inr all) = inr (rw e all)

guard_loop-IsGuarded :
    (probe : ℕ → Option ℕ) (low : ℕ) (segments : List AgedSegment) (count used : ℕ)
    → probe count ≡ some used
    → IsGuarded probe low segments count (guard_loop probe low segments count used)
unfolding guard_loop deletable
guard_loop-IsGuarded probe low [] count used p = record {
  oldest_first = refl;
  was_needed = tt;
  stops = inr refl;
  measured = let q : count + 0 ≡ count = omega arith in rw (q, p);
}
guard_loop-IsGuarded probe low (s ∷ ss) count used p = elim (Bool-cases (ltb used low)) [
  | inl enough ↦
      rw (guard_loop, enough)
        (record {
          oldest_first = refl;
          was_needed = tt;
          stops = inl (ground arith);
          measured = let q : count + 0 ≡ count = omega arith in rw (q, p);
        })
  | inr full ↦ elim (Bool-cases (s.is_open || not s.removable)) [
    | inl skip ↦
        let ih = guard_loop-IsGuarded probe low ss count used p in
        rw (guard_loop, full, skip)
          (record {
            oldest_first = rw (deletable, skip) ih.oldest_first;
            was_needed = ih.was_needed;
            stops = Stops-skip low s ss _ _ skip ih.stops;
            measured = ih.measured;
          })
    | inr remove ↦ elim (Option-cases (probe (suc count))) [
      | inl failed ↦
          rw (guard_loop, full, remove, failed)
            (record {
              oldest_first = rw (deletable, remove) refl;
              was_needed = ((used, p, ground arith), tt);
              stops = tt;
              measured = let q : count + 1 ≡ suc count = omega arith in rw (q, failed);
            })
      | inr (used', next) ↦
          let ih = guard_loop-IsGuarded probe low ss (suc count) used' next in
          let rest = guard_loop probe low ss (suc count) used' in
          let q : count + suc (length rest.deleted) ≡ suc count + length rest.deleted =
            omega arith in
          rw (guard_loop, full, remove, next)
            (record {
              oldest_first = rw (deletable, remove) (ap (λ t. s ∷ t) ih.oldest_first);
              was_needed = ((used, p, ground arith), ih.was_needed);
              stops = Stops-cons low s ss rest.deleted rest.used remove ih.stops;
              measured = ih.measured ∙ ap probe (sym q);
            })
    ]
  ]
]

-- When the first measurement succeeds: below the high water mark nothing is deleted. From it on,
-- the deleted segments are the oldest ones of those that no writer has open and that can be
-- removed; each deletion was made at a measured usage of the low water mark at least; and the
-- guard ends with a failed measurement, below that mark, or with nothing left that it can delete.
pub check-IsGuarded :
    (probe : ℕ → Option ℕ) (high low used : ℕ) (segments : List AgedSegment)
    → probe 0 ≡ some used
    → ((used < high) × (check probe high low segments ≡ record { deleted = []; used = some used }))
      ⊎ ((high ≤ used)
          × IsGuarded probe low (sort date_before segments) 0 (check probe high low segments))
unfolding check
check-IsGuarded probe high low used segments p = elim (Bool-cases (ltb used high)) [
  | inl below ↦ inl (ground arith, rw (check, p, below))
  | inr above ↦ inr (
    ground arith,
    rw (p, check, above) (guard_loop-IsGuarded probe low (sort date_before segments) 0 used p),
  )
]
