-- ===== src/Indexes/Values/Iterated.antt =====
-- server/internal/indexes/manager.go: over which values `ListValues` iterates, no two of them equal.
use simple_logging.Prelude.{
  ℕ, zero, suc, ◌≤◌, ◌≡◌, ap, false, List, [], ◌∷◌, ◌++◌, none, All, All-append, arith, Bool-cases,
  inl, inr,
}
use simple_logging.Prelude.Text.{text_eq, text_eq_iff}
use simple_logging.Prelude.Assoc.{find, remove, IsMap}
use simple_logging.Paging.Sort.{All-map}
use simple_logging.Paging.Distinct.{Differs, Apart, All-permuted, Apart-permuted, Apart-append}
use simple_logging.Indexes.Reference.{Reference}
use simple_logging.Indexes.Available.{Files, is_available}
use simple_logging.Indexes.Field.{Codecs, shard_number}
use simple_logging.Indexes.Values.{ValueInfo, ByValue, count_value, infos_in, value_info_less}
use simple_logging.Indexes.Values.Tally.{IsNamed, tally, tally-IsMap}
use simple_logging.Indexes.Values.Less.{value_info-Differs}
use mathlib.Core.List.{Permᴰ}

-- The infos of a map are apart.
infos_apart :
    (v : List ℕ) (i : ValueInfo) (m : ByValue)
    → find text_eq v m ≡ none
    → IsNamed m
    → i.value ≡ v
    → All (λ z. Differs value_info_less z i) (infos_in m)
infos_apart v i [] e h q = tt
infos_apart v i ((j, z) ∷ m) e (r, h) q = elim (Bool-cases (text_eq j v)) [
  | inl same ↦ absurd (cc (rw same at e))
  | inr other ↦
      let apart : text_eq z.value i.value ≡ false = rw (r, q) other in
      (value_info-Differs z i apart, infos_apart v i m (rw other at e) h q)
]

infos_in-Apart : (m : ByValue) → IsMap text_eq m → IsNamed m → Apart value_info_less (infos_in m)
infos_in-Apart [] h k = tt
infos_in-Apart ((v, i) ∷ m) (e, h) (q, k) = (infos_apart v i m e k q, infos_in-Apart m h k)

module _ (P : List ℕ → Type 0) where
  abbrev HoldsOf : ValueInfo → Type 0
  HoldsOf i = P i.value

  infos_in-remove :
      (v : List ℕ) (m : ByValue)
      → All HoldsOf (infos_in m)
      → All HoldsOf (infos_in (remove text_eq v m))
  infos_in-remove v [] h = tt
  infos_in-remove v ((j, i) ∷ m) (p, h) = elim (Bool-cases (text_eq j v)) [
    | inl same ↦ rw same (infos_in-remove v m h)
    | inr other ↦ rw other (p, infos_in-remove v m h)
  ]

  -- What holds of the values of the references holds of those counted.
  infos_in-tally :
      (logs_root : List ℕ) (files : Files) (rs : List Reference) (m : ByValue)
      → All (λ r. P r.value) rs
      → All HoldsOf (infos_in m)
      → All HoldsOf (infos_in (tally logs_root files rs m))
  unfolding tally count_value
  infos_in-tally logs_root files [] m hs h = h
  infos_in-tally logs_root files (r ∷ rs) m (p, hs) h =
      elim (Bool-cases (is_available logs_root files r)) [
        | inl there ↦ rw there (
            infos_in-tally logs_root files rs (count_value r m) hs (p, infos_in-remove r.value m h))
        | inr gone ↦ rw gone (infos_in-tally logs_root files rs m hs h)
      ]

module _ (logs_root : List ℕ) (files : Files) (order : ℕ → List ValueInfo → List ValueInfo)
    (refs : ℕ → List Reference) where
  -- What the loop iterates over for `left` shards from the shard `n` on.
  unfoldable pub iterated : ℕ → ℕ → List ValueInfo
  iterated zero n = []
  iterated (suc left) n =
      order n (infos_in (tally logs_root files (refs n) [])) ++ iterated left (suc n)

  module _ (c : Codecs) (permuted : (n : ℕ) (xs : List ValueInfo) → Permᴰ xs (order n xs))
      (sharded : (n : ℕ) → All (λ r. shard_number c r.value ≡ n) (refs n)) where
    in_shard :
        (n : ℕ)
        → All
            (λ i. shard_number c i.value ≡ n)
            (order n (infos_in (tally logs_root files (refs n) [])))
    in_shard n =
        All-permuted value_info_less (λ i. shard_number c i.value ≡ n) (permuted n _)
          (infos_in-tally (λ v. shard_number c v ≡ n) logs_root files (refs n) [] (sharded n) tt)

    in_later : (left n : ℕ) → All (λ i. n ≤ shard_number c i.value) (iterated left n)
    unfolding iterated
    in_later zero n = tt
    in_later (suc left) n =
        All-append (λ i. n ≤ shard_number c i.value) _ (iterated left (suc n))
          (All-map value_info_less (λ i. shard_number c i.value ≡ n) _ (λ i e. omega arith)
            (in_shard n))
          (All-map value_info_less (λ i. suc n ≤ shard_number c i.value) _ (λ i e. omega arith)
            (in_later left (suc n)))

    shards_apart :
        (n : ℕ) (x z : ValueInfo)
        → shard_number c x.value ≡ n
        → suc n ≤ shard_number c z.value
        → Differs value_info_less z x
    shards_apart n x z e le = value_info-Differs z x (elim (Bool-cases (text_eq z.value x.value)) [
      | inr other ↦ other
      | inl same ↦
          let q : shard_number c z.value ≡ shard_number c x.value =
            ap (λ v. shard_number c v) ((text_eq_iff z.value x.value).0 same) in
          absurd (omega (arith, e, le, q))
    ])

    pub iterated-Apart : (left n : ℕ) → Apart value_info_less (iterated left n)
    unfolding iterated
    iterated-Apart zero n = tt
    iterated-Apart (suc left) n =
        let (is_map, named) = tally-IsMap logs_root files (refs n) [] tt tt in
        Apart-append value_info_less _ (iterated left (suc n))
          (Apart-permuted value_info_less (permuted n _) (infos_in-Apart _ is_map named))
          (iterated-Apart left (suc n))
          (All-map value_info_less (λ i. shard_number c i.value ≡ n) _
            (λ x e.
              All-map value_info_less (λ i. suc n ≤ shard_number c i.value) _
                (λ z le. shards_apart n x z e le) (in_later left (suc n)))
            (in_shard n))
