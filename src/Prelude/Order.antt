-- ===== src/Prelude/Order.antt =====
-- A comparison as the sort and heap packages want it: a strict weak order.
use mathlib.Core.Path.{◌≡◌}
use mathlib.Core.Logic.{◌⊎◌, inl, inr}
use simple_logging.Prelude.Tests.{Bool-cases}
use mathlib.Core.Bool.{Bool, true, false}

pub record IsLess {ℓ} {A : Type ℓ} (less : A → A → Bool) : Type ℓ where
  pub less_asymm : (a b : A) → less a b ≡ true → less b a ≡ false
  pub less_split : (a b c : A) → less a c ≡ true → (less a b ≡ true) ⊎ (less b c ≡ true)

module _ {ℓ} {A : Type ℓ} {less : A → A → Bool} (laws : IsLess less) where
  -- "Not before" is transitive.
  pub not_less_trans : (a b c : A) → less a b ≡ false → less b c ≡ false → less a c ≡ false
  not_less_trans a b c p q = elim (Bool-cases (less a c)) [
    | inr e ↦ e
    | inl e ↦ elim (laws.less_split a b c e) [
      | inl l ↦ absurd (cc (l, p))
      | inr l ↦ absurd (cc (l, q))
    ]
  ]

  -- What lies behind an element that is before `b` and not before `c`.
  pub not_less-less : (a b c : A) → less a b ≡ true → less a c ≡ false → less c b ≡ true
  not_less-less a b c p q = elim (laws.less_split a c b p) [
    | inl l ↦ absurd (cc (l, q))
    | inr l ↦ l
  ]
