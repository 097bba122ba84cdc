-- ===== src/Indexes/Values/Counted.antt =====
-- server/internal/indexes/manager.go: what one shard gives to `ListValues`, from the bytes of the shard.
use simple_logging.Prelude.{
  ℕ, zero, suc, ◌≡◌, refl, ◌∙◌, List, [], ◌∷◌, Option, none, some, ◌==◌, if◌then◌else◌, Bool-cases,
  inl, inr, ok, arith,
}
use simple_logging.Prelude.Text.{text_eq}
use simple_logging.Prelude.Assoc.{find}
use simple_logging.Indexes.Reference.{Reference}
use simple_logging.Indexes.Reference.Scan.{visit_all}
use simple_logging.Indexes.Available.{
  Files, FileSizes, IsCurrent, is_available, reference_available-is_available,
}
use simple_logging.Indexes.Values.{ValueInfo, ByValue, count_value, visit_value}
use simple_logging.Indexes.Values.Tally.{count_of, latest_of, tally, combine, find-tally_from}

module _ (logs_root : List ℕ) (files : Files) where
  -- What is known of a value: nothing if no available reference has it.
  unfoldable pub info_of : List ℕ → List Reference → Option ValueInfo
  info_of v rs =
      let c = count_of logs_root files v rs in
      if c == 0
      then none
      else some (record { value = v; count = c; last_updated = latest_of logs_root files v rs })

  combine-none :
      (v : List ℕ) (c l : ℕ)
      → combine logs_root files v none c l
        ≡ (if c == 0 then none else some (record { value = v; count = c; last_updated = l }))
  combine-none v zero l = ground arith
  combine-none v (suc c) l = ground arith

  pub find-tally :
      (v : List ℕ) (rs : List Reference)
      → find text_eq v (tally logs_root files rs []) ≡ info_of v rs
  unfolding info_of
  find-tally v rs =
      find-tally_from logs_root files v rs [] tt
      ∙ combine-none v (count_of logs_root files v rs) (latest_of logs_root files v rs)

  pub visit_value-tally :
      (rs : List Reference) (m : ByValue) (sizes : FileSizes)
      → IsCurrent logs_root files sizes
      → (sizes' : FileSizes) × (visit_all (visit_value logs_root files) rs (m, sizes)
          ≡ ok (tally logs_root files rs m, sizes'))
        × IsCurrent logs_root files sizes'
  unfolding visit_all tally visit_value
  visit_value-tally [] m sizes h = (sizes, refl, h)
  visit_value-tally (r ∷ rs) m sizes h =
      let (a, h') = reference_available-is_available logs_root files r sizes h in
      elim (Bool-cases (is_available logs_root files r)) [
        | inl there ↦ rw (a, there) (visit_value-tally rs (count_value r m) _ h')
        | inr gone ↦ rw (a, gone) (visit_value-tally rs m _ h')
      ]
