-- ===== src/Paging/Sort.antt =====
-- sort.Slice with a comparison `less`, as insertion into a sorted list.
use simple_logging.Prelude.{
  ℕ, zero, suc, ◌≡◌, refl, ap, ◌∙◌, Bool, true, false, List, [], ◌∷◌, ◌++◌, length, if◌then◌else◌,
  arith, take, drop, All, Bool-cases, inl, inr,
}
use simple_logging.Prelude.Order.{IsLess, not_less_trans}
use mathlib.Core.List.{Perm, perm_middle}
use mathlib.Core.List.Perm

module _ {ℓ} {A : Type ℓ} (less : A → A → Bool) where
  unfoldable pub insert : A → List A → List A
  insert x [] = x ∷ []
  insert x (y ∷ ys) = if less y x then y ∷ insert x ys else x ∷ y ∷ ys

  unfoldable pub sort : List A → List A
  sort [] = []
  sort (x ∷ xs) = insert x (sort xs)

  -- No element comes before one that stands to its left.
  abbrev pub IsSorted : List A → Type ℓ
  IsSorted [] = Unit
  IsSorted (x ∷ xs) = All (λ y. less y x ≡ false) xs × IsSorted xs

  pub length-insert : (x : A) (ys : List A) → length (insert x ys) ≡ suc (length ys)
  unfolding insert
  length-insert x [] = refl
  length-insert x (y ∷ ys) = ground (arith, length-insert x ys)

  pub length-sort : (xs : List A) → length (sort xs) ≡ length xs
  unfolding sort
  length-sort [] = refl
  length-sort (x ∷ xs) = length-insert x (sort xs) ∙ ap suc (length-sort xs)

  -- An element that is before none of the list goes to its front.
  pub insert_front : (x : A) (ys : List A) → All (λ y. less y x ≡ false) ys → insert x ys ≡ x ∷ ys
  unfolding insert
  insert_front x [] h = refl
  insert_front x (y ∷ ys) h = ground arith

  pub insert_back :
      (x : A) (ys : List A) → All (λ y. less y x ≡ true) ys → insert x ys ≡ ys ++ (x ∷ [])
  unfolding insert
  insert_back x [] h = refl
  insert_back x (y ∷ ys) h = ground (arith, insert_back x ys h.1)

  pub insert-append_last :
      (x m : A) (ys : List A)
      → less m x ≡ false
      → insert x (ys ++ (m ∷ [])) ≡ insert x ys ++ (m ∷ [])
  unfolding insert
  insert-append_last x m [] h = ground arith
  insert-append_last x m (y ∷ ys) h = ground (arith, insert-append_last x m ys h)

  take-take-suc : (k : ℕ) (ys : List A) → take k (take (suc k) ys) ≡ take k ys
  take-take-suc zero ys = refl
  take-take-suc (suc k) [] = refl
  take-take-suc (suc k) (y ∷ ys) = ap (λ t. y ∷ t) (take-take-suc k ys)

  take-cons-take : (k : ℕ) (y : A) (ys : List A) → take k (y ∷ take k ys) ≡ take k (y ∷ ys)
  take-cons-take zero y ys = refl
  take-cons-take (suc k) y ys = ap (λ t. y ∷ t) (take-take-suc k ys)

  pub take-insert-take :
      (k : ℕ) (x : A) (ys : List A) → take k (insert x (take k ys)) ≡ take k (insert x ys)
  unfolding insert
  take-insert-take zero x ys = refl
  take-insert-take (suc k) x [] = refl
  take-insert-take (suc k) x (y ∷ ys) =
      ground (arith, take-insert-take k x ys, take-cons-take k y ys)

  module _ {κ} (P : A → Type κ) where
    pub All-drop : (k : ℕ) (xs : List A) → All P xs → All P (drop k xs)
    All-drop zero xs h = h
    All-drop (suc k) [] h = h
    All-drop (suc k) (x ∷ xs) h = All-drop k xs h.1

    pub All-insert : (x : A) (ys : List A) → P x → All P ys → All P (insert x ys)
    unfolding insert
    All-insert x [] p h = (p, tt)
    All-insert x (y ∷ ys) p h =
        elim (less y x) as (λ b. All P (if b then y ∷ insert x ys else x ∷ y ∷ ys)) [
          | true ↦ (h.0, All-insert x ys p h.1)
          | false ↦ (p, h)
        ]

    pub All-map {κ'} : {Q : A → Type κ'} (xs : List A) → ((a : A) → P a → Q a) → All P xs → All Q xs
    All-map [] f h = tt
    All-map (x ∷ xs) f h = (f x h.0, All-map xs f h.1)

  insert-perm : (x : A) (ys : List A) → Perm (insert x ys) (x ∷ ys)
  unfolding insert
  insert-perm x [] = Perm.refl (x ∷ [])
  insert-perm x (y ∷ ys) =
      elim (less y x) as (λ b. Perm (if b then y ∷ insert x ys else x ∷ y ∷ ys) (x ∷ y ∷ ys)) [
        | true ↦ Perm.trans (Perm.cons y (insert-perm x ys)) (perm_middle (y ∷ []) ys)
        | false ↦ Perm.refl (x ∷ y ∷ ys)
      ]

  -- Sorting neither loses nor adds an element.
  pub sort-perm : (xs : List A) → Perm (sort xs) xs
  unfolding sort
  sort-perm [] = Perm.refl []
  sort-perm (x ∷ xs) = Perm.trans (insert-perm x (sort xs)) (Perm.cons x (sort-perm xs))

module _ {ℓ} {A : Type ℓ} {less : A → A → Bool} (laws : IsLess less) where
  insert-IsSorted : (x : A) (ys : List A) → IsSorted less ys → IsSorted less (insert less x ys)
  unfolding insert
  insert-IsSorted x [] h = (tt, tt)
  insert-IsSorted x (y ∷ ys) h = elim (Bool-cases (less y x)) [
    | inl e ↦ rw e (
      All-insert less (λ z. less z y ≡ false) x ys (laws.less_asymm y x e) h.0,
      insert-IsSorted x ys h.1,
    )
    | inr e ↦
        rw e (
          (e, All-map less (λ z. less z y ≡ false) ys (λ z p. not_less_trans laws z y x p e) h.0),
          h,
        )
  ]

  pub sort-IsSorted : (xs : List A) → IsSorted less (sort less xs)
  unfolding sort
  sort-IsSorted [] = tt
  sort-IsSorted (x ∷ xs) = insert-IsSorted x (sort less xs) (sort-IsSorted xs)
