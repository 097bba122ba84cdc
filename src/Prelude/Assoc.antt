-- ===== src/Prelude/Assoc.antt =====
-- Go maps as association lists in which a key stands once.
use Prim.Native.Nat.{ℕ, suc, ◌+◌}
use mathlib.Core.Path.{◌≡◌, refl, sym, ap}
use mathlib.Core.Logic.{◌↔◌, inl, inr}
use mathlib.Core.Bool.{Bool, true, false}
use mathlib.Core.Option.{Option, none, some}
use mathlib.Core.List.{List, [], ◌∷◌}
use native.Mathlib.Omega.{arith}
use simple_logging.Prelude.Tests.{if◌then◌else◌, Bool-cases}

module _ {K V : Type 0} (eq : K → K → Bool) where
  abbrev pub find : K → List (K × V) → Option V
  find k [] = none
  find k ((j, v) ∷ m) = if eq j k then some v else find k m

  abbrev pub remove : K → List (K × V) → List (K × V)
  remove k [] = []
  remove k ((j, v) ∷ m) = let rest = remove k m in if eq j k then rest else (j, v) ∷ rest

  abbrev pub put : K → V → List (K × V) → List (K × V)
  put k v m = (k, v) ∷ remove k m

  -- No key stands twice.
  abbrev pub IsMap : List (K × V) → Type 0
  IsMap [] = Unit
  IsMap ((k, v) ∷ m) = (find k m ≡ none) × IsMap m

  -- The entries whose key passes a test.
  abbrev pub count : (K → Bool) → List (K × V) → ℕ
  count P [] = 0
  count P ((k, v) ∷ m) = if P k then suc (count P m) else count P m

  pub remove-missing : (k : K) (m : List (K × V)) → find k m ≡ none → remove k m ≡ m
  remove-missing k [] e = refl
  remove-missing k ((j, v) ∷ m) e = elim (Bool-cases (eq j k)) [
    | inl same ↦ absurd (cc (rw same at e))
    | inr other ↦ rw other (ap (λ t. (j, v) ∷ t) (remove-missing k m (rw other at e)))
  ]

  pub find-remove_self : (k : K) (m : List (K × V)) → find k (remove k m) ≡ none
  find-remove_self k [] = refl
  find-remove_self k ((j, v) ∷ m) = elim (Bool-cases (eq j k)) [
    | inl same ↦ rw same (find-remove_self k m)
    | inr other ↦ rw (other, other) (find-remove_self k m)
  ]

  module _ (eq_iff : (a b : K) → (eq a b ≡ true) ↔ (a ≡ b)) where
    pub find-remove_missing :
        (j k : K) (m : List (K × V)) → find j m ≡ none → find j (remove k m) ≡ none
    find-remove_missing j k [] e = refl
    find-remove_missing j k ((i, v) ∷ m) e = elim (Bool-cases (eq i j)) [
      | inl same ↦ absurd (cc (rw same at e))
      | inr other ↦ elim (Bool-cases (eq i k)) [
        | inl here ↦ rw here (find-remove_missing j k m (rw other at e))
        | inr there ↦ rw (there, other) (find-remove_missing j k m (rw other at e))
      ]
    ]

    pub remove-IsMap : (k : K) (m : List (K × V)) → IsMap m → IsMap (remove k m)
    remove-IsMap k [] h = tt
    remove-IsMap k ((j, v) ∷ m) (fresh, h) = elim (Bool-cases (eq j k)) [
      | inl same ↦ rw same (remove-IsMap k m h)
      | inr other ↦ rw other (find-remove_missing j k m fresh, remove-IsMap k m h)
    ]

    pub put-IsMap : (k : K) (v : V) (m : List (K × V)) → IsMap m → IsMap (put k v m)
    put-IsMap k v m h = (find-remove_self k m, remove-IsMap k m h)

    pub count-remove :
        (P : K → Bool) (k : K) {v : V} (m : List (K × V))
        → IsMap m
        → find k m ≡ some v
        → count P m ≡ (if P k then 1 else 0) + count P (remove k m)
    count-remove P k [] h e = absurd (cc e)
    count-remove P k ((j, v) ∷ m) (fresh, h) e = elim (Bool-cases (eq j k)) [
      | inl same ↦
          let q : j ≡ k = (eq_iff j k).0 same in
          rw (same, remove-missing k m (rw (sym q) fresh), q)
            (elim (Bool-cases (P k)) [
              | inl passes ↦ rw passes (omega arith)
              | inr fails ↦ rw fails (omega arith)
            ])
      | inr other ↦
          let ih = count-remove P k m h (rw other at e) in
          rw other (elim (Bool-cases (P j)) [
            | inl passes ↦ rw passes (omega (arith, ih))
            | inr fails ↦ rw fails ih
          ])
    ]

    find-remove_other :
        (j k : K) (m : List (K × V)) → eq k j ≡ false → find j (remove k m) ≡ find j m
    find-remove_other j k [] other = refl
    find-remove_other j k ((i, v) ∷ m) other = elim (Bool-cases (eq i k)) [
      | inl here ↦
          let q : k ≡ i = sym ((eq_iff i k).0 here) in
          let no : eq i j ≡ false = rw q at other in rw (here, no) (find-remove_other j k m other)
      | inr there ↦ rw there (elim (Bool-cases (eq i j)) [
        | inl same ↦ rw same refl
        | inr apart ↦ rw apart (find-remove_other j k m other)
      ])
    ]

    pub find-put :
        (j k : K) (v : V) (m : List (K × V))
        → find j (put k v m) ≡ (if eq k j then some v else find j m)
    find-put j k v m = elim (Bool-cases (eq k j)) [
      | inl same ↦ rw same refl
      | inr other ↦ rw other (find-remove_other j k m other)
    ]

    pub find-remove :
        (j k : K) (m : List (K × V)) → find j (remove k m) ≡ (if eq k j then none else find j m)
    find-remove j k m = elim (Bool-cases (eq k j)) [
      | inl same ↦ rw (same, sym ((eq_iff k j).0 same)) (find-remove_self k m)
      | inr other ↦ rw other (find-remove_other j k m other)
    ]
