-- ===== src/Indexes/Keys/KeySet.antt =====
-- server/internal/indexes/manager.go: the keys of the `Manager` as a set.
use simple_logging.Prelude.{
  ℕ, ◌≡◌, refl, sym, ap, true, false, not, ◌&&◌, ◌||◌, List, [], ◌∷◌, if◌then◌else◌, Bool-cases,
  inl, inr, arith,
}
use simple_logging.Prelude.Text.{text_eq, text_eq_iff, text_eq_self}
use simple_logging.Storage.Layout.{contains_string}
use simple_logging.Indexes.Field.{valid_key}
use simple_logging.Indexes.Keys.{without, add_key, load_keys}

-- No key stands twice.
abbrev pub Distinct : List (List ℕ) → Type 0
Distinct [] = Unit
Distinct (k ∷ ks) = (contains_string ks k ≡ false) × Distinct ks

pub contains_string-without :
    (key k : List ℕ) (ks : List (List ℕ))
    → contains_string (without key ks) k ≡ (not (text_eq key k) && contains_string ks k)
unfolding contains_string without
contains_string-without key k [] = ground arith
contains_string-without key k (j ∷ ks) =
    ground (
      arith,
      contains_string-without key k ks,
      text_eq_iff j key,
      text_eq_iff key k,
      text_eq_iff j k,
    )

pub without-missing :
    (key : List ℕ) (ks : List (List ℕ)) → contains_string ks key ≡ false → without key ks ≡ ks
unfolding contains_string without
without-missing key [] h = refl
without-missing key (k ∷ ks) h = ground (arith, without-missing key ks)

pub without-Distinct : (key : List ℕ) (ks : List (List ℕ)) → Distinct ks → Distinct (without key ks)
unfolding without
without-Distinct key [] h = tt
without-Distinct key (k ∷ ks) (fresh, h) = elim (Bool-cases (text_eq k key)) [
  | inl same ↦ rw same (without-Distinct key ks h)
  | inr other ↦
      rw other
        (rw (contains_string-without key k ks) (ground (arith, fresh)), without-Distinct key ks h)
]

pub contains_string-add_key :
    (key k : List ℕ) (ks : List (List ℕ))
    → contains_string (add_key key ks) k ≡ (text_eq key k || contains_string ks k)
unfolding contains_string add_key
contains_string-add_key key k ks = elim (Bool-cases (contains_string ks key)) [
  | inl there ↦ rw there (elim (Bool-cases (text_eq key k)) [
    | inl same ↦ rw same (rw ((text_eq_iff key k).0 same) at there)
    | inr other ↦ rw other refl
  ])
  | inr fresh ↦ rw fresh refl
]

pub add_key-Distinct : (key : List ℕ) (ks : List (List ℕ)) → Distinct ks → Distinct (add_key key ks)
unfolding add_key
add_key-Distinct key ks h = elim (Bool-cases (contains_string ks key)) [
  | inl there ↦ rw there h
  | inr fresh ↦ rw fresh (fresh, h)
]

pub load_keys-Distinct : (more ks : List (List ℕ)) → Distinct ks → Distinct (load_keys more ks)
unfolding load_keys
load_keys-Distinct [] ks h = h
load_keys-Distinct (k ∷ more) ks h =
    load_keys-Distinct more _
      (elim (valid_key k) as (λ b. Distinct (if b then add_key k ks else ks)) [
        | true ↦ add_key-Distinct k ks h
        | false ↦ h
      ])

pub contains_string-load_keys :
    (more ks : List (List ℕ)) (k : List ℕ)
    → contains_string (load_keys more ks) k
      ≡ (contains_string ks k || (valid_key k && contains_string more k))
unfolding load_keys contains_string
contains_string-load_keys [] ks k = ground arith
contains_string-load_keys (j ∷ more) ks k =
    let ih = contains_string-load_keys more (if valid_key j then add_key j ks else ks) k in
    elim (Bool-cases (text_eq j k)) [
      | inl same ↦
          let q : valid_key k ≡ valid_key j = ap valid_key (sym ((text_eq_iff j k).0 same)) in
          rw (ih, same, q) (ground (arith, contains_string-add_key j k ks, same))
      | inr other ↦ rw (ih, other) (ground (arith, contains_string-add_key j k ks, other))
    ]

-- A key that was added and taken back.
pub taken_back :
    (key : List ℕ) (ks : List (List ℕ))
    → contains_string ks key ≡ false
    → without key (key ∷ ks) ≡ ks
unfolding without
taken_back key ks fresh = rw (text_eq_self key) (without-missing key ks fresh)
