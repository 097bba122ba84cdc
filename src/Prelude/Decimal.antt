-- ===== src/Prelude/Decimal.antt =====
-- strconv.Itoa and strconv.Atoi on the numbers that page tokens carry.
use Prim.Native.Nat.{ℕ, zero, suc, ◌+◌, ◌-◌, ◌*◌, ◌/◌, ◌%◌, ◌^◌, ◌<◌}
use mathlib.Core.Path.{◌≡◌, refl, ap, ◌∙◌}
use mathlib.Core.Logic.{inl, inr, ◌≢◌}
use mathlib.Core.Bool.{Bool, true, false, ◌&&◌}
use mathlib.Core.Option.{Option, none, some}
use mathlib.Core.List.{List, [], ◌∷◌, ◌++◌}
use native.Mathlib.Omega.{arith}
use simple_logging.Prelude.Text.{text_eq, text_eq_iff}
use simple_logging.Prelude.Tests.{ltb, leb, ◌==◌, if◌then◌else◌, Bool-cases}

-- Digits of `n`, with fuel; one digit is taken off in each round.
digits : ℕ → ℕ → List ℕ
digits zero n = []
digits (suc f) n =
    let front = digits f (n / 10) in
    if ltb n 10 then (b'0' + n) ∷ [] else front ++ ((b'0' + n % 10) ∷ [])

unfoldable pub itoa : ℕ → List ℕ
unfolding digits
itoa n = digits (suc n) n

abbrev pub is_digit : ℕ → Bool
is_digit c = leb b'0' c && leb c b'9'

-- The loop over the digits; `none` is a byte that is no digit.
unfoldable pub atoi_from : ℕ → List ℕ → Option ℕ
atoi_from acc [] = some acc
atoi_from acc (c ∷ s) = elim (is_digit c) [
  | true ↦ atoi_from (acc * 10 + (c - b'0')) s
  | false ↦ none
]

-- An int64: larger values are a range error.
abbrev in_range : Option ℕ → Option ℕ
in_range none = none
in_range (some n) = if ltb n (2 ^ 63) then some n else none

-- Atoi, where the caller takes an error and a negative number alike.
unfoldable pub atoi_nonneg : List ℕ → Option ℕ
unfolding atoi_from
atoi_nonneg [] = none
atoi_nonneg (c ∷ []) = in_range (atoi_from 0 (c ∷ []))
atoi_nonneg (c ∷ d ∷ s) =
    if c == b'-'
    then elim (in_range (atoi_from 0 (d ∷ s))) [ some zero ↦ some zero | _ ↦ none ]
    else if c == b'+'
    then in_range (atoi_from 0 (d ∷ s))
    else in_range (atoi_from 0 (c ∷ d ∷ s))

atoi_from-append :
    (acc : ℕ) (s : List ℕ) (c n : ℕ)
    → atoi_from acc s ≡ some n
    → is_digit c ≡ true
    → atoi_from acc (s ++ (c ∷ [])) ≡ some (n * 10 + (c - b'0'))
unfolding atoi_from
atoi_from-append acc [] c n e d = ground arith
atoi_from-append acc (x ∷ s) c n e d =
    ground (arith, atoi_from-append (acc * 10 + (x - b'0')) s c n)

atoi_from-digits : (f n : ℕ) → n < f → atoi_from 0 (digits f n) ≡ some n
unfolding digits
atoi_from-digits zero n h = absurd (omega arith)
atoi_from-digits (suc f) n h = elim (Bool-cases (ltb n 10)) [
  | inl small ↦ rw small (unfold atoi_from in ground arith)
  | inr big ↦ rw big (
      atoi_from-append 0 (digits f (n / 10)) (b'0' + n % 10) (n / 10)
        (atoi_from-digits f (n / 10) (ground arith)) (ground arith)
      ∙ ap some (ground arith))
]

append_cons-ne-nil : (s : List ℕ) (c : ℕ) → s ++ (c ∷ []) ≢ []
append_cons-ne-nil [] c e = cc
append_cons-ne-nil (x ∷ s) c e = cc

digits-ne-nil : (f n : ℕ) → digits (suc f) n ≢ []
unfolding digits
digits-ne-nil f n e = elim (Bool-cases (ltb n 10)) [
  | inl small ↦ cc (rw small at e)
  | inr big ↦ append_cons-ne-nil (digits f (n / 10)) (b'0' + n % 10) (rw big at e)
]

-- A text of digits has no sign.
atoi_nonneg-digits :
    (s : List ℕ) (n : ℕ) → s ≢ [] → n < 2 ^ 63 → atoi_from 0 s ≡ some n → atoi_nonneg s ≡ some n
unfolding atoi_nonneg
atoi_nonneg-digits [] n h lt e = absurd (h refl)
atoi_nonneg-digits (c ∷ []) n h lt e = ground arith
atoi_nonneg-digits (c ∷ d ∷ s) n h lt e = ground arith

-- A token that the program writes is read back.
pub atoi_nonneg-itoa : (n : ℕ) → n < 2 ^ 63 → atoi_nonneg (itoa n) ≡ some n
unfolding itoa
atoi_nonneg-itoa n h =
    atoi_nonneg-digits (digits (suc n) n) n (digits-ne-nil n n) h
      (atoi_from-digits (suc n) n (omega arith))

pub atoi_nonneg-nil : atoi_nonneg [] ≡ none
unfolding atoi_nonneg
atoi_nonneg-nil = refl

pub text_eq-itoa_nil : (n : ℕ) → text_eq (itoa n) [] ≡ false
unfolding itoa
text_eq-itoa_nil n = elim (Bool-cases (text_eq (itoa n) [])) [
  | inl e ↦ absurd (digits-ne-nil n n ((text_eq_iff (itoa n) []).0 e))
  | inr e ↦ e
]
