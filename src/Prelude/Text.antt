-- ===== src/Prelude/Text.antt =====
-- Go strings and byte slices as lists of bytes, with the functions of the package strings that the
-- program calls.
use Prim.Native.Nat.{ℕ, suc, ◌-◌}
use Prim.Native.Char.{code}
use Prim.Native.String.{String}
use mathlib.Core.Path.{◌≡◌, refl}
use mathlib.Core.Logic.{◌↔◌, inl, inr}
use mathlib.Core.Bool.{Bool, true, false, ◌&&◌, ◌||◌}
use mathlib.Core.Option.{Option, none, some}
use mathlib.Core.List.{List, [], ◌∷◌, ◌++◌}
use native.Mathlib.Omega.{arith}
use simple_logging.Prelude.Tests.{ltb, leb, ◌==◌, if◌then◌else◌, Bool-cases, Option-cases}
use simple_logging.Prelude.Lists.{
  length, length-append, take, drop, take-append_left, drop-append_left, drop_past,
}

-- The code points of an ASCII text, which are its bytes.
abbrev pub codes : String → List ℕ
codes String.[] = []
codes (String.◌∷◌ c s) = code c ∷ codes s

-- `a == b` on strings.
abbrev pub text_eq : List ℕ → List ℕ → Bool
text_eq [] [] = true
text_eq [] (b ∷ bs) = false
text_eq (a ∷ as') [] = false
text_eq (a ∷ as') (b ∷ bs) = a == b && text_eq as' bs

-- `a < b` on strings: bytewise, a proper prefix first.
abbrev pub text_lt : List ℕ → List ℕ → Bool
text_lt [] [] = false
text_lt [] (b ∷ bs) = true
text_lt (a ∷ as') [] = false
text_lt (a ∷ as') (b ∷ bs) = ltb a b || (a == b && text_lt as' bs)

pub text_eq_iff : (s t : List ℕ) → (text_eq s t ≡ true) ↔ (s ≡ t)
text_eq_iff [] [] = ((λ e. refl), (λ e. refl))
text_eq_iff [] (b ∷ bs) = ((λ e. cc), (λ e. cc))
text_eq_iff (a ∷ as') [] = ((λ e. cc), (λ e. cc))
text_eq_iff (a ∷ as') (b ∷ bs) =
    ((λ e. ground (arith, (text_eq_iff as' bs).0)), (λ e. ground (arith, (text_eq_iff as' bs).1)))

-- strings.HasPrefix
abbrev pub has_prefix : List ℕ → List ℕ → Bool
has_prefix s [] = true
has_prefix [] (p ∷ ps) = false
has_prefix (c ∷ s) (p ∷ ps) = c == p && has_prefix s ps

-- strings.IndexByte; `none` is -1.
abbrev pub index_byte : List ℕ → ℕ → Option ℕ
index_byte [] b = none
index_byte (c ∷ s) b =
    if c == b then some 0 else elim (index_byte s b) [ none ↦ none | some i ↦ some (suc i) ]

-- strings.TrimRight(s, "\r\n")
abbrev pub is_line_end : ℕ → Bool
is_line_end c = c == 10 || c == 13

unfoldable pub trim_right : List ℕ → List ℕ
trim_right [] = []
trim_right (c ∷ s) = let t = trim_right s in if is_line_end c && text_eq t [] then [] else c ∷ t

-- strings.LastIndex of a single byte; `none` is -1.
unfoldable pub last_index_byte : List ℕ → ℕ → Option ℕ
last_index_byte [] b = none
last_index_byte (c ∷ s) b = elim (last_index_byte s b) [
  | some i ↦ some (suc i)
  | none ↦ if c == b then some 0 else none
]

pub last_index_byte-append :
    (s t : List ℕ) (b : ℕ)
    → last_index_byte t b ≡ none
    → last_index_byte (s ++ (b ∷ t)) b ≡ some (length s)
unfolding last_index_byte
last_index_byte-append [] t b e = let q : (b == b) ≡ true = ground arith in rw (e, q) refl
last_index_byte-append (c ∷ s) t b e = rw (last_index_byte-append s t b e) refl

-- strings.HasSuffix and strings.TrimSuffix
unfoldable pub has_suffix : List ℕ → List ℕ → Bool
has_suffix s t = leb (length t) (length s) && text_eq (drop (length s - length t) s) t

unfoldable pub trim_suffix : List ℕ → List ℕ → List ℕ
trim_suffix s t = if has_suffix s t then take (length s - length t) s else s

pub text_eq_self : (s : List ℕ) → text_eq s s ≡ true
text_eq_self s = (text_eq_iff s s).1 refl

length-suffix : (s t : List ℕ) → length (s ++ t) - length t ≡ length s
length-suffix s t = rw (length-append s t) (omega arith)

pub has_suffix-append : (s t : List ℕ) → has_suffix (s ++ t) t ≡ true
unfolding has_suffix
has_suffix-append s t =
    let fits : leb (length t) (length (s ++ t)) ≡ true = rw (length-append s t) (ground arith) in
    rw (fits, length-suffix s t, drop-append_left s t) (text_eq_self t)

pub trim_suffix-append : (s t : List ℕ) → trim_suffix (s ++ t) t ≡ s
unfolding trim_suffix
trim_suffix-append s t = rw (has_suffix-append s t, length-suffix s t) (take-append_left s t)

pub index_byte-append :
    (s t : List ℕ) (b : ℕ) → index_byte s b ≡ none → index_byte (s ++ (b ∷ t)) b ≡ some (length s)
index_byte-append [] t b e = let q : (b == b) ≡ true = ground arith in rw q refl
index_byte-append (c ∷ s) t b e = elim (Bool-cases (c == b)) [
  | inl here ↦ absurd (cc (rw here at e))
  | inr there ↦ elim (Option-cases (index_byte s b)) [
    | inl missing ↦ rw (there, index_byte-append s t b missing) refl
    | inr (i, here) ↦ absurd (cc (rw (there, here) at e))
  ]
]

-- strings.Cut at a byte, and at a text: what stands before it and after it.
unfoldable pub cut : List ℕ → ℕ → Option (List ℕ × List ℕ)
cut s b = elim (index_byte s b) [ none ↦ none | some i ↦ some (take i s, drop (suc i) s) ]

pub cut-append : (s t : List ℕ) (b : ℕ) → index_byte s b ≡ none → cut (s ++ (b ∷ t)) b ≡ some (s, t)
unfolding cut
cut-append s t b e =
    rw (cut, index_byte-append s t b e, take-append_left s (b ∷ t), drop_past s t b) refl

unfoldable pub cut_text : List ℕ → List ℕ → Option (List ℕ × List ℕ)
cut_text [] sep = if has_prefix [] sep then some ([], drop (length sep) []) else none
cut_text (c ∷ s) sep =
    let rest = cut_text s sep in
    if has_prefix (c ∷ s) sep
    then some ([], drop (length sep) (c ∷ s))
    else elim rest [ none ↦ none | some (before, after) ↦ some (c ∷ before, after) ]

has_prefix-append : (t s : List ℕ) → has_prefix (t ++ s) t ≡ true
has_prefix-append [] [] = refl
has_prefix-append [] (c ∷ s) = refl
has_prefix-append (b ∷ t) s = let q : (b == b) ≡ true = ground arith in rw q (has_prefix-append t s)

-- A separator is found behind a text without its first byte.
pub cut_text-append :
    (s t sep : List ℕ) (b : ℕ)
    → index_byte s b ≡ none
    → cut_text (s ++ (b ∷ (sep ++ t))) (b ∷ sep) ≡ some (s, t)
unfolding cut_text
cut_text-append [] t sep b e = rw (has_prefix-append (b ∷ sep) t, drop-append_left sep t) refl
cut_text-append (c ∷ s) t sep b e = elim (Bool-cases (c == b)) [
  | inl here ↦ absurd (cc (rw here at e))
  | inr there ↦ elim (Option-cases (index_byte s b)) [
    | inl missing ↦ rw (there, cut_text-append s t sep b missing) refl
    | inr (i, found) ↦ absurd (cc (rw (there, found) at e))
  ]
]

-- strings.TrimRight(s, "\n")
unfoldable pub trim_newlines : List ℕ → List ℕ
trim_newlines [] = []
trim_newlines (c ∷ s) = let t = trim_newlines s in if c == b'\n' && text_eq t [] then [] else c ∷ t

pub trim_newlines-line :
    (s : List ℕ) → index_byte s b'\n' ≡ none → trim_newlines (s ++ (b'\n' ∷ [])) ≡ s
unfolding trim_newlines
trim_newlines-line [] e = refl
trim_newlines-line (c ∷ s) e = elim (Bool-cases (c == b'\n')) [
  | inl here ↦ absurd (cc (rw here at e))
  | inr there ↦ elim (Option-cases (index_byte s b'\n')) [
    | inl missing ↦ rw (there, trim_newlines-line s missing) refl
    | inr (i, found) ↦ absurd (cc (rw (there, found) at e))
  ]
]

pub index_byte-append_none :
    (s t : List ℕ) (b : ℕ)
    → index_byte s b ≡ none
    → index_byte t b ≡ none
    → index_byte (s ++ t) b ≡ none
index_byte-append_none [] t b e f = f
index_byte-append_none (c ∷ s) t b e f = elim (Bool-cases (c == b)) [
  | inl here ↦ absurd (cc (rw here at e))
  | inr there ↦ elim (Option-cases (index_byte s b)) [
    | inl missing ↦ rw (there, index_byte-append_none s t b missing f) refl
    | inr (i, found) ↦ absurd (cc (rw (there, found) at e))
  ]
]
