-- ===== src/Prelude/Slices.antt =====
-- Go slices `b[i:j]` of a buffer that was written field after field.
use Prim.Native.Nat.{ℕ, zero, suc, ◌+◌, ◌-◌, ◌≤◌, min}
use mathlib.Core.Path.{◌≡◌, refl, sym, ap, ◌∙◌}
use mathlib.Core.List.{List, [], ◌∷◌, ◌++◌, append_assoc}
use native.Mathlib.Omega.{arith}
use simple_logging.Prelude.Lists.{length, length-append, take, drop}

module _ {ℓ} {A : Type ℓ} where
  abbrev pub slice : ℕ → ℕ → List A → List A
  slice i j xs = take (j - i) (drop i xs)

  -- The buffer after the writes of `xs`, in order.
  abbrev pub flat : List (List A) → List A
  flat [] = []
  flat (x ∷ xs) = x ++ flat xs

  abbrev pub total : List (List A) → ℕ
  total [] = 0
  total (x ∷ xs) = length x + total xs

  pub take_left : (n : ℕ) (xs ys : List A) → length xs ≡ n → take n (xs ++ ys) ≡ xs
  take_left zero [] ys h = refl
  take_left zero (x ∷ xs) ys h = absurd (omega arith)
  take_left (suc n) [] ys h = absurd (omega arith)
  take_left (suc n) (x ∷ xs) ys h = ap (λ t. x ∷ t) (take_left n xs ys (omega arith))

  pub drop_left : (n : ℕ) (xs ys : List A) → length xs ≡ n → drop n (xs ++ ys) ≡ ys
  drop_left zero [] ys h = refl
  drop_left zero (x ∷ xs) ys h = absurd (omega arith)
  drop_left (suc n) [] ys h = absurd (omega arith)
  drop_left (suc n) (x ∷ xs) ys h = drop_left n xs ys (omega arith)

  pub length-flat : (xs : List (List A)) → length (flat xs) ≡ total xs
  length-flat [] = refl
  length-flat (x ∷ xs) = length-append x (flat xs) ∙ omega (arith, length-flat xs)

  pub flat-append : (xs ys : List (List A)) → flat (xs ++ ys) ≡ flat xs ++ flat ys
  flat-append [] ys = refl
  flat-append (x ∷ xs) ys = rw (flat-append xs ys) (sym (append_assoc x (flat xs) (flat ys)))

  -- The slice between the end of the fields `xs` and the end of the next field is that field.
  pub slice-flat :
      (xs : List (List A)) (y : List A) (zs : List (List A)) (i j : ℕ)
      → i ≡ total xs
      → j ≡ i + length y
      → slice i j (flat (xs ++ (y ∷ zs))) ≡ y
  slice-flat xs y zs i j hi hj = rw flat-append (
      rw (drop_left i (flat xs) (y ++ flat zs) (length-flat xs ∙ sym hi))
        (take_left (j - i) y (flat zs) (omega arith)))

  pub take_past : (n : ℕ) (xs ys : List A) → take (length xs + n) (xs ++ ys) ≡ xs ++ take n ys
  take_past n [] ys = ap (λ k. take k ys) (omega arith)
  take_past n (x ∷ xs) ys =
      let e : suc (length xs) + n ≡ suc (length xs + n) = omega arith in
      rw e (ap (λ t. x ∷ t) (take_past n xs ys))

  pub take_all : (n : ℕ) (xs : List A) → length xs ≤ n → take n xs ≡ xs
  take_all zero [] h = refl
  take_all zero (x ∷ xs) h = absurd (omega arith)
  take_all (suc n) [] h = refl
  take_all (suc n) (x ∷ xs) h = ap (λ t. x ∷ t) (take_all n xs (omega arith))

  take_nil : (n : ℕ) → take {A = A} n [] ≡ []
  take_nil zero = refl
  take_nil (suc n) = refl

  drop_nil : (n : ℕ) → drop {A = A} n [] ≡ []
  drop_nil zero = refl
  drop_nil (suc n) = refl

  pub drop-take : (n k : ℕ) (xs : List A) → drop n (take (k + n) xs) ≡ take k (drop n xs)
  drop-take zero k xs = ap (λ j. take j xs) (omega arith)
  drop-take (suc n) k [] = rw (take_nil (k + suc n), take_nil k)
  drop-take (suc n) k (x ∷ xs) =
      let e : k + suc n ≡ suc (k + n) = omega arith in rw e (drop-take n k xs)

  pub drop-min : (n : ℕ) (xs : List A) → drop (min n (length xs)) xs ≡ drop n xs
  drop-min n [] = rw (drop_nil (min n 0), drop_nil n)
  drop-min zero (x ∷ xs) =
      let e : min 0 (suc (length xs)) ≡ 0 = omega arith in ap (λ j. drop j (x ∷ xs)) e
  drop-min (suc n) (x ∷ xs) =
      let e : min (suc n) (suc (length xs)) ≡ suc (min n (length xs)) = omega arith in
      rw e (drop-min n xs)

  pub drop-drop : (n k : ℕ) (xs : List A) → drop k (drop n xs) ≡ drop (n + k) xs
  drop-drop zero k xs = ap (λ j. drop j xs) (omega arith)
  drop-drop (suc n) k [] = rw (drop_nil k, drop_nil (suc n + k))
  drop-drop (suc n) k (x ∷ xs) =
      let e : suc n + k ≡ suc (n + k) = omega arith in rw e (drop-drop n k xs)
