-- ===== src/Prelude/Bufio.antt =====
-- What package bufio's readers promise of the bytes up to a newline.
use Prim.Native.Nat.{ℕ, ◌+◌, ◌<◌}
use mathlib.Core.Path.{◌≡◌, refl}
use mathlib.Core.List.{List, [], ◌∷◌, ◌++◌}
use mathlib.Core.Bool.{Bool, true, false, ◌||◌}
use mathlib.Core.Option.{none}
use mathlib.Core.Logic.{inl, inr}
use native.Mathlib.Omega.{arith}
use simple_logging.Prelude.Tests.{◌==◌, if◌then◌else◌, Bool-cases, Option-cases}
use simple_logging.Prelude.Text.{index_byte}
use simple_logging.Prelude.Lists.{length, drop}

abbrev pub newline : ℕ
newline = 10

-- `ReadString('\n')`: the bytes up to the newline, or all of them, and the rest.
unfoldable pub raw_line : List ℕ → List ℕ × List ℕ
raw_line [] = ([], [])
raw_line (c ∷ s) =
    let (line, rest) = raw_line s in if c == newline then (c ∷ [], s) else (c ∷ line, rest)

pub raw_line_parts :
    (s : List ℕ)
    → ((raw_line s).1 ≡ drop (length (raw_line s).0) s)
      × (length s ≡ length (raw_line s).0 + length (raw_line s).1)
unfolding raw_line
raw_line_parts [] = (refl, omega arith)
raw_line_parts (c ∷ s) = ground (arith, raw_line_parts s)

pub length-raw_line : (c : ℕ) (s : List ℕ) → 0 < length (raw_line (c ∷ s)).0
unfolding raw_line
length-raw_line c s = ground arith

-- The first line of a text of whole lines.
pub raw_line-append :
    (s t : List ℕ)
    → index_byte s newline ≡ none
    → raw_line (s ++ (newline ∷ t)) ≡ (s ++ (newline ∷ []), t)
unfolding raw_line
raw_line-append [] t e = refl
raw_line-append (c ∷ s) t e = elim (Bool-cases (c == newline)) [
  | inl here ↦ absurd (cc (rw here at e))
  | inr there ↦ elim (Option-cases (index_byte s newline)) [
    | inl missing ↦ rw (there, raw_line-append s t missing) refl
    | inr (i, found) ↦ absurd (cc (rw (there, found) at e))
  ]
]

-- Whether a read ended at a newline, and not at the end of the file.
unfoldable pub is_complete : List ℕ → Bool
is_complete [] = false
is_complete (c ∷ s) = c == newline || is_complete s

pub is_complete-line : (s : List ℕ) → is_complete (s ++ (newline ∷ [])) ≡ true
unfolding is_complete
is_complete-line [] = refl
is_complete-line (c ∷ s) = rw (is_complete-line s) (ground arith)

pub is_complete-length : (s : List ℕ) → is_complete s ≡ true → 0 < length s
unfolding is_complete
is_complete-length [] e = absurd (cc e)
is_complete-length (c ∷ s) e = omega arith
