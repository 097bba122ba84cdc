-- ===== src/Paging/Distinct.antt =====
-- A heap of elements of which always one is before the other: ties, on which `Less` and the negation
-- of `Less` disagree, do not occur (server/internal/indexes/manager.go: `valueInfoHeap`).
use simple_logging.Prelude.{
  ◌≡◌, refl, ap, Bool, not, List, [], ◌∷◌, ◌++◌, All, All-append, Bool-cases, inl, inr,
}
use simple_logging.Paging.Heap.{extract, heap_pop}
use mathlib.Core.Path.{subst}
use mathlib.Core.List.{Permᴰ}

module _ {ℓ} {A : Type ℓ} (less : A → A → Bool) where
  abbrev pub Differs : A → A → Type 0
  Differs a b = less b a ≡ not (less a b)

  abbrev pub Apart : List A → Type ℓ
  Apart [] = Unit
  Apart (x ∷ xs) = All (λ z. Differs z x) xs × Apart xs

  pub Differs-swap : (a b : A) → Differs a b → Differs b a
  Differs-swap a b e = elim (Bool-cases (less a b)) [
    | inl l ↦ cc (rw l at e, l)
    | inr l ↦ cc (rw l at e, l)
  ]

  module _ (before : A → A → Bool) where
    All-extract {κ} :
        (P : A → Type κ) (x : A) (xs : List A)
        → P x
        → All P xs
        → P (extract before x xs).0 × All P (extract before x xs).1
    unfolding extract
    All-extract P x [] p h = (p, h)
    All-extract P x (y ∷ ys) p (q, h) =
        let (first, rest) = All-extract P y ys q h in
        elim (Bool-cases (before (extract before y ys).0 x)) [
          | inl e ↦ rw e (first, (p, rest))
          | inr e ↦ rw e (p, (q, h))
        ]

    Apart-extract : (x : A) (xs : List A) → Apart (x ∷ xs) → Apart (extract before x xs).1
    unfolding extract
    Apart-extract x [] h = tt
    Apart-extract x (y ∷ ys) ((d, ds), h) = elim (Bool-cases (before (extract before y ys).0 x)) [
      | inl e ↦ rw e ((All-extract (λ z. Differs z x) y ys d ds).1, Apart-extract y ys h)
      | inr e ↦ rw e h
    ]

    pub All-heap_pop {κ} : (P : A → Type κ) (h : List A) → All P h → All P (heap_pop before h)
    unfolding heap_pop
    All-heap_pop P [] h = h
    All-heap_pop P (x ∷ xs) (p, h) = (All-extract P x xs p h).1

    pub Apart-heap_pop : (h : List A) → Apart h → Apart (heap_pop before h)
    unfolding heap_pop
    Apart-heap_pop [] h = h
    Apart-heap_pop (x ∷ xs) h = Apart-extract x xs h

  -- The orders by which the two kinds of heap take an element out.
  abbrev behind : A → A → Bool
  behind a b = less b a

  abbrev not_before : A → A → Bool
  not_before a b = not (less a b)

  extract-behind :
      (x : A) (xs : List A) → Apart (x ∷ xs) → extract behind x xs ≡ extract not_before x xs
  unfolding extract
  extract-behind x [] h = refl
  extract-behind x (y ∷ ys) ((d, ds), h) =
      let first = (All-extract not_before (λ z. Differs z x) y ys d ds).0 in
      rw (extract-behind y ys h, first) refl

  pub heap_pop-behind : (h : List A) → Apart h → heap_pop behind h ≡ heap_pop not_before h
  unfolding heap_pop
  heap_pop-behind [] h = refl
  heap_pop-behind (x ∷ xs) h = ap (λ (p : A × List A). p.1) (extract-behind x xs h)

  -- Both hold in any order of the elements.
  pub All-permuted {κ} : (P : A → Type κ) {xs ys : List A} → Permᴰ xs ys → All P xs → All P ys
  All-permuted P Permᴰ.nil h = h
  All-permuted P (Permᴰ.cons e d) (p, h) = (subst P e p, All-permuted P d h)
  All-permuted P (Permᴰ.swap e f) (p, (q, h)) = (subst P f q, (subst P e p, h))
  All-permuted P (Permᴰ.trans d e) h = All-permuted P e (All-permuted P d h)

  pub Apart-permuted : {xs ys : List A} → Permᴰ xs ys → Apart xs → Apart ys
  Apart-permuted Permᴰ.nil h = h
  Apart-permuted (Permᴰ.cons {l₂ = l₂} e d) (ds, h) = (
    subst (λ x. All (λ z. Differs z x) l₂) e (All-permuted (λ z. Differs z _) d ds),
    Apart-permuted d h,
  )
  Apart-permuted (Permᴰ.swap {a} {b} {b' = b'} {l = l} e f) ((d, ds), (bs, h)) = (
    (
      subst (λ x. Differs b' x) f (subst (λ x. Differs x b) e (Differs-swap b a d)),
      subst (λ x. All (λ z. Differs z x) l) f bs,
    ),
    (subst (λ x. All (λ z. Differs z x) l) e ds, h),
  )
  Apart-permuted (Permᴰ.trans d e) h = Apart-permuted e (Apart-permuted d h)

  pub Apart-append :
      (xs ys : List A)
      → Apart xs
      → Apart ys
      → All (λ x. All (λ z. Differs z x) ys) xs
      → Apart (xs ++ ys)
  Apart-append [] ys h k cross = k
  Apart-append (x ∷ xs) ys (ds, h) k (c, cross) =
      (All-append (λ z. Differs z x) xs ys ds c, Apart-append xs ys h k cross)
