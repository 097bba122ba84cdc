-- ===== src/Indexes/Values/Tally.antt =====
-- server/internal/indexes/manager.go: what the map of `ListValues` holds behind a scan.
use simple_logging.Prelude.{
  ℕ, zero, suc, ◌+◌, ◌≡◌, refl, ap, ◌∙◌, ◌&&◌, List, [], ◌∷◌, Option, none, some, max,
  if◌then◌else◌, Bool-cases, inl, inr, arith,
}
use simple_logging.Prelude.Text.{text_eq, text_eq_iff}
use simple_logging.Prelude.Assoc.{find, remove, IsMap, put-IsMap, find-put}
use simple_logging.Indexes.Reference.{Reference}
use simple_logging.Indexes.Available.{Files, is_available}
use simple_logging.Indexes.Page.{instant}
use simple_logging.Indexes.Values.{ValueInfo, ByValue, count_value, info_or_zero, with_one_more}

-- Each value stands under itself.
abbrev pub IsNamed : ByValue → Type 0
IsNamed [] = Unit
IsNamed ((v, info) ∷ m) = (info.value ≡ v) × IsNamed m

remove-IsNamed : (v : List ℕ) (m : ByValue) → IsNamed m → IsNamed (remove text_eq v m)
remove-IsNamed v [] h = tt
remove-IsNamed v ((j, info) ∷ m) (e, h) = elim (Bool-cases (text_eq j v)) [
  | inl same ↦ rw same (remove-IsNamed v m h)
  | inr other ↦ rw other (e, remove-IsNamed v m h)
]

-- The time of a reference with a valid one.
abbrev pub time_of : Reference → ℕ
time_of r = if r.valid_time then suc (instant r.timestamp) else 0

module _ (logs_root : List ℕ) (files : Files) where
  -- How often a value stands among the available references, and its latest time.
  unfoldable pub count_of : List ℕ → List Reference → ℕ
  count_of v [] = 0
  count_of v (r ∷ rs) =
      let rest = count_of v rs in
      if is_available logs_root files r && text_eq r.value v then suc rest else rest

  unfoldable pub latest_of : List ℕ → List Reference → ℕ
  latest_of v [] = 0
  latest_of v (r ∷ rs) =
      let rest = latest_of v rs in
      if is_available logs_root files r && text_eq r.value v then max (time_of r) rest else rest

  -- The map after the references.
  unfoldable pub tally : List Reference → ByValue → ByValue
  tally [] m = m
  tally (r ∷ rs) m = tally rs (if is_available logs_root files r then count_value r m else m)

  pub tally-IsMap :
      (rs : List Reference) (m : ByValue)
      → IsMap text_eq m
      → IsNamed m
      → IsMap text_eq (tally rs m) × IsNamed (tally rs m)
  unfolding tally count_value
  tally-IsMap [] m h k = (h, k)
  tally-IsMap (r ∷ rs) m h k = elim (Bool-cases (is_available logs_root files r)) [
    | inr gone ↦ rw gone (tally-IsMap rs m h k)
    | inl there ↦ rw there (
        tally-IsMap rs (count_value r m)
          (put-IsMap text_eq text_eq_iff r.value
            (with_one_more r (info_or_zero (find text_eq r.value m))) m h)
          (refl, remove-IsNamed r.value m k))
  ]

  -- What is known of a value with what further references add to it.
  abbrev pub combine : List ℕ → Option ValueInfo → ℕ → ℕ → Option ValueInfo
  combine v none zero l = none
  combine v none (suc c) l = some (record { value = v; count = suc c; last_updated = l })
  combine v (some i) c l =
      some (record { value = v; count = i.count + c; last_updated = max i.last_updated l })

  abbrev NamedBy : List ℕ → Option ValueInfo → Type 0
  NamedBy v none = Unit
  NamedBy v (some i) = i.value ≡ v

  combine_nothing : (v : List ℕ) (o : Option ValueInfo) → NamedBy v o → o ≡ combine v o 0 0
  combine_nothing v none h = refl
  combine_nothing v (some i) h = ground arith

  -- One more reference with the value.
  combine_one :
      (v : List ℕ) (r : Reference) (o : Option ValueInfo) (c l : ℕ)
      → combine v (some (with_one_more r (info_or_zero o))) c l
        ≡ combine v o (suc c) (max (time_of r) l)
  combine_one v r none c l = ground arith
  combine_one v r (some i) c l = ground arith

  found_name : (v : List ℕ) (m : ByValue) → IsNamed m → NamedBy v (find text_eq v m)
  found_name v [] h = tt
  found_name v ((j, info) ∷ m) (e, h) = elim (Bool-cases (text_eq j v)) [
    | inl same ↦ rw same (e ∙ (text_eq_iff j v).0 same)
    | inr other ↦ rw other (found_name v m h)
  ]

  pub find-tally_from :
      (v : List ℕ) (rs : List Reference) (m : ByValue)
      → IsNamed m
      → find text_eq v (tally rs m) ≡ combine v (find text_eq v m) (count_of v rs) (latest_of v rs)
  unfolding tally count_of latest_of count_value
  find-tally_from v [] m h = combine_nothing v (find text_eq v m) (found_name v m h)
  find-tally_from v (r ∷ rs) m h = elim (Bool-cases (is_available logs_root files r)) [
    | inr gone ↦ rw gone (find-tally_from v rs m h)
    | inl there ↦
        let info = with_one_more r (info_or_zero (find text_eq r.value m)) in
        let ih =
          find-tally_from v rs (count_value r m) (refl, remove-IsNamed r.value m h)
          ∙ ap (λ o. combine v o (count_of v rs) (latest_of v rs))
              (find-put text_eq text_eq_iff v r.value info m) in
        elim (Bool-cases (text_eq r.value v)) [
          | inr other ↦ rw (there, other) (rw other at ih)
          | inl same ↦
              let q : r.value ≡ v = (text_eq_iff r.value v).0 same in
              rw (there, same)
                (rw same at ih
                  ∙ combine_one v r (find text_eq r.value m) (count_of v rs) (latest_of v rs)
                  ∙ ap
                      (λ u.
                        combine v (find text_eq u m) (suc (count_of v rs))
                          (max (time_of r) (latest_of v rs)))
                      q)
        ]
  ]
