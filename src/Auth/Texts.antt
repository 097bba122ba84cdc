-- ===== src/Auth/Texts.antt =====
-- server/internal/auth/basic.go: the texts that are digested for the credentials of requests.
use mathlib.Core.Path.{subst}
use simple_logging.Prelude.{
  ℕ, ◌≡◌, refl, true, List, [], ◌∷◌, ◌++◌, Option, none, some, All, Bool-cases, inl, inr,
}
use simple_logging.Prelude.Text.{text_eq, text_eq_iff, text_eq_self}
use simple_logging.Auth.{Request, contains_key}

-- The texts that are digested for the requests.
abbrev pub text_of : Option (List ℕ × List ℕ) → List (List ℕ) → List (List ℕ)
text_of none ts = ts
text_of (some (user, password)) ts = (user ++ (0 ∷ password)) ∷ ts

abbrev pub texts : List Request → List (List ℕ)
texts [] = []
texts (r ∷ rs) = text_of r.basic_auth (texts rs)

abbrev pub HasText : (List ℕ → Type 0) → Option (List ℕ × List ℕ) → Type 0
HasText P none = Unit
HasText P (some (user, password)) = P (user ++ (0 ∷ password))

-- Whether a text is one of them.
abbrev pub IsText : List (List ℕ) → List ℕ → Type 0
IsText ts s = contains_key s ts ≡ true

pub IsText-All :
    (Q : List ℕ → Type 0) (ts : List (List ℕ)) (s : List ℕ) → All Q ts → IsText ts s → Q s
IsText-All Q [] s h e = absurd (cc e)
IsText-All Q (t ∷ ts) s (h, hs) e = elim (Bool-cases (text_eq t s)) [
  | inl same ↦ subst Q ((text_eq_iff t s).0 same) h
  | inr other ↦ IsText-All Q ts s hs (rw other at e)
]

-- A request's own text is there, and those of the requests behind it.
text_of-HasText :
    (o : Option (List ℕ × List ℕ)) (ts : List (List ℕ)) → HasText (IsText (text_of o ts)) o
text_of-HasText none ts = tt
text_of-HasText (some (u, p)) ts = rw (text_eq_self (u ++ (0 ∷ p))) refl

IsText-text_of :
    (o : Option (List ℕ × List ℕ)) (s : List ℕ) (ts : List (List ℕ))
    → IsText ts s
    → IsText (text_of o ts) s
IsText-text_of none s ts e = e
IsText-text_of (some (u, p)) s ts e = elim (Bool-cases (text_eq (u ++ (0 ∷ p)) s)) [
  | inl same ↦ rw same refl
  | inr other ↦ rw other e
]

HasText-text_of :
    (o q : Option (List ℕ × List ℕ)) (ts : List (List ℕ))
    → HasText (IsText ts) q
    → HasText (IsText (text_of o ts)) q
HasText-text_of o none ts h = tt
HasText-text_of o (some (u, p)) ts h = IsText-text_of o (u ++ (0 ∷ p)) ts h

HasText-cons :
    (o : Option (List ℕ × List ℕ)) (ts : List (List ℕ)) (rs : List Request)
    → All (λ r. HasText (IsText ts) r.basic_auth) rs
    → All (λ r. HasText (IsText (text_of o ts)) r.basic_auth) rs
HasText-cons o ts [] h = tt
HasText-cons o ts (r ∷ rs) (h, hs) = (HasText-text_of o r.basic_auth ts h, HasText-cons o ts rs hs)

pub texts-HasText : (rs : List Request) → All (λ r. HasText (IsText (texts rs)) r.basic_auth) rs
texts-HasText [] = tt
texts-HasText (r ∷ rs) = (
  text_of-HasText r.basic_auth (texts rs),
  HasText-cons r.basic_auth (texts rs) rs (texts-HasText rs),
)
