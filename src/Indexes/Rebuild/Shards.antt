-- ===== src/Indexes/Rebuild/Shards.antt =====
-- server/internal/indexes/manager.go: what the shards of a rebuilt index hold.
use simple_logging.Prelude.{
  ℕ, ◌^◌, ◌<◌, ◌≡◌, ap, ◌∙◌, true, false, List, [], ◌∷◌, Option, none, some, length, ◌==◌,
  if◌then◌else◌, All, Bool-cases, Result-cases, ok, inl, inr, ==_iff, arith, map,
}
use simple_logging.Prelude.Slices.{flat}
use simple_logging.Indexes.Reference.{Reference, append_reference}
use simple_logging.Indexes.Reference.Scan.{append_all}
use simple_logging.Indexes.Field.{Codecs, Place, shard_number}
use simple_logging.Indexes.Rebuild.{
  Index, Outcome, Disk, each, append_to, set_shard, place_path, rebuild,
}
use simple_logging.Indexes.Rebuild.Segment.{IsLine, file_of, refs_at, backfill_file-refs}
use simple_logging.Indexes.Rebuild.Walk.{
  places, fill, rebuild-places, each-Splits, Splits, and_then-none,
}

module _ (c : Codecs) where
  -- The references of a shard among all.
  unfoldable pub in_shard : ℕ → List Reference → List Reference
  in_shard n [] = []
  in_shard n (r ∷ rs) =
      let rest = in_shard n rs in if shard_number c r.value == n then r ∷ rest else rest

  module _ (disk : Disk) where
    -- The shard behind an append to one of its number.
    appended_shard :
        (r : Reference) (s t : Index)
        → append_to c disk r s ≡ (t, none)
        → (file : Option (List ℕ)) × (append_reference (s (shard_number c r.value)) r ≡ ok file)
          × (set_shard (shard_number c r.value) file s ≡ t)
    unfolding append_to
    appended_shard r s t e = elim (Bool-cases (disk.can_append (shard_number c r.value))) [
      | inr shut ↦ absurd (cc (rw (shut, append_to) at e))
      | inl open' ↦ elim (Result-cases (append_reference (s (shard_number c r.value)) r)) [
        | inr (x, failed) ↦ absurd (cc (rw (open', failed, append_to) at e))
        | inl (file, wrote) ↦
            (file, wrote, ap (λ (p : Outcome Index). p.0) (rw (open', wrote, append_to) at e))
      ]
    ]

    append_to_here :
        (r : Reference) (s t : Index) (n : ℕ)
        → append_to c disk r s ≡ (t, none)
        → shard_number c r.value ≡ n
        → append_reference (s n) r ≡ ok (t n)
    unfolding set_shard
    append_to_here r s t n e here =
        let (file, wrote, after) = appended_shard r s t e in
        let same : (n == n) ≡ true = ground arith in
        let now : set_shard n file s n ≡ t n = ap (λ (i : Index). i n) (rw here at after) in
        (rw here at wrote) ∙ ap ok (rw (same, set_shard) at now)

    append_to_apart :
        (r : Reference) (s t : Index) (n : ℕ)
        → append_to c disk r s ≡ (t, none)
        → (shard_number c r.value == n) ≡ false
        → s n ≡ t n
    unfolding set_shard
    append_to_apart r s t n e apart =
        let (file, wrote, after) = appended_shard r s t e in
        rw (apart, set_shard) at (ap (λ (i : Index). i n) after)

    each-append_to-shard :
        (rs : List Reference) (s t : Index) (n : ℕ)
        → each (append_to c disk) rs s ≡ (t, none)
        → append_all (s n) (in_shard n rs) ≡ ok (t n)
    unfolding append_all in_shard
    each-append_to-shard [] s t n e = ap (λ (p : Outcome Index). ok (p.0 n)) e
    each-append_to-shard (r ∷ rs) s t n e =
        let (u, first, rest) =
          and_then-none (append_to c disk r s) (each (append_to c disk) rs) e in
        let ih = each-append_to-shard rs u t n rest in
        elim (Bool-cases (shard_number c r.value == n)) [
          | inl here ↦ rw (here, append_all, append_to_here r s u n first ((==_iff _ n).0 here)) ih
          | inr apart ↦ rw (apart, append_to_apart r s u n first apart) ih
        ]

  module _ (lines : Place → List (List ℕ)) where
    -- All references of an index, by the order of the segments.
    unfoldable pub key_refs : List ℕ → List Place → List Reference
    key_refs key ps = flat (map (λ at. refs_at c key at 0 (lines at)) ps)

    -- The segment at a place has whole lines.
    abbrev pub IsWhole : Disk → List ℕ → Place → Type 0
    IsWhole disk logs_root at =
        (disk.files (place_path logs_root at) ≡ some (file_of (lines at)))
        × All IsLine (lines at)
        × (length (file_of (lines at)) < 2 ^ 64)

    module _ (disk : Disk) (key logs_root : List ℕ) (parse_date : List ℕ → Option ℕ) where
      fill-Splits :
          (ps : List Place)
          → All (IsWhole disk logs_root) ps
          → All
              (Splits
                (fill c disk key logs_root parse_date)
                (append_to c disk)
                (λ at. refs_at c key at 0 (lines at)))
              ps
      fill-Splits [] h = tt
      fill-Splits (at ∷ ps) ((e, whole, small), h) = (
        λ s t filled.
            backfill_file-refs c key at disk logs_root (lines at) s t e whole small filled,
        fill-Splits ps h,
      )

      -- Each shard holds the references of its number, in the order of the walk.
      pub rebuild-shards :
          (left : Option Index) (t : Index) (n : ℕ)
          → All (IsWhole disk logs_root) (places disk parse_date)
          → rebuild c disk key logs_root parse_date left ≡ (t, none)
          → append_all none (in_shard n (key_refs key (places disk parse_date))) ≡ ok (t n)
      unfolding key_refs
      rebuild-shards left t n h e =
          each-append_to-shard disk _ (λ m. none) t n
            (each-Splits (fill c disk key logs_root parse_date) (append_to c disk)
              (λ at. refs_at c key at 0 (lines at)) (places disk parse_date) (λ m. none) t
              (fill-Splits (places disk parse_date) h)
              (rebuild-places c disk key logs_root parse_date left t e))
