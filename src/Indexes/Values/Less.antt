-- ===== src/Indexes/Values/Less.antt =====
-- server/internal/indexes/manager.go: `valueInfoLess` orders values that differ, one way or the other.
use simple_logging.Prelude.{ℕ, ◌≡◌, ◌⊎◌, refl, true, false, not, List, [], ◌∷◌, arith, inl, inr}
use simple_logging.Prelude.Order.{IsLess}
use simple_logging.Prelude.Text.{text_eq, text_lt}
use simple_logging.Paging.Distinct.{Differs}
use simple_logging.Indexes.Values.{ValueInfo, value_info_less}

text_lt-asymm : (s t : List ℕ) → text_lt s t ≡ true → text_lt t s ≡ false
text_lt-asymm [] [] e = refl
text_lt-asymm [] (b ∷ t) e = refl
text_lt-asymm (a ∷ s) [] e = absurd (cc e)
text_lt-asymm (a ∷ s) (b ∷ t) e = ground (arith, text_lt-asymm s t)

text_lt-split : (s t u : List ℕ) → text_lt s u ≡ true → (text_lt s t ≡ true) ⊎ (text_lt t u ≡ true)
text_lt-split [] t [] e = absurd (cc e)
text_lt-split (a ∷ s) t [] e = absurd (cc e)
text_lt-split [] [] (c ∷ u) e = inr refl
text_lt-split [] (b ∷ t) (c ∷ u) e = inl refl
text_lt-split (a ∷ s) [] (c ∷ u) e = inr refl
text_lt-split (a ∷ s) (b ∷ t) (c ∷ u) e = ground (arith, text_lt-split s t u)

text_lt_differs : (s t : List ℕ) → text_eq s t ≡ false → text_lt t s ≡ not (text_lt s t)
text_lt_differs [] [] e = absurd (cc e)
text_lt_differs [] (b ∷ t) e = refl
text_lt_differs (a ∷ s) [] e = refl
text_lt_differs (a ∷ s) (b ∷ t) e = ground (arith, text_lt_differs s t)

pub value_info_less-IsLess : IsLess value_info_less
unfolding value_info_less
value_info_less-IsLess = record {
  less_asymm = λ a b e. ground (arith, text_lt-asymm a.value b.value);
  less_split = λ a b c e. ground (arith, text_lt-split a.value b.value c.value);
}

pub value_info-Differs :
    (a b : ValueInfo) → text_eq a.value b.value ≡ false → Differs value_info_less a b
unfolding value_info_less
value_info-Differs a b e = ground (arith, text_lt_differs a.value b.value)
