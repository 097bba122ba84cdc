-- ===== src/Prelude/Bytes.antt =====
-- encoding/binary's big-endian numbers of a fixed width.
use Prim.Native.Nat.{ℕ, zero, suc, ◌+◌, ◌*◌, ◌/◌, ◌%◌, ◌^◌, ◌<◌}
use mathlib.Core.Path.{◌≡◌, refl, ◌∙◌}
use mathlib.Core.List.{List, [], ◌∷◌, ◌++◌}
use native.Mathlib.Omega.{arith}
use simple_logging.Prelude.Lists.{length, length-append}

-- `w` bytes, the most significant first: what `PutUint` writes of `n`.
unfoldable pub put_be : ℕ → ℕ → List ℕ
put_be zero n = []
put_be (suc w) n = put_be w (n / 256) ++ (n % 256 ∷ [])

-- The loop of `Uint`: shift in one byte after the other.
unfoldable pub get_be_from : ℕ → List ℕ → ℕ
get_be_from acc [] = acc
get_be_from acc (b ∷ bs) = get_be_from (acc * 256 + b) bs

unfoldable pub get_be : List ℕ → ℕ
unfolding get_be_from
get_be bs = get_be_from 0 bs

pub length-put_be : (w n : ℕ) → length (put_be w n) ≡ w
unfolding put_be
length-put_be zero n = refl
length-put_be (suc w) n =
    length-append (put_be w (n / 256)) _ ∙ omega (arith, length-put_be w (n / 256))

get_be_from-append :
    (acc : ℕ) (xs ys : List ℕ) → get_be_from acc (xs ++ ys) ≡ get_be_from (get_be_from acc xs) ys
unfolding get_be_from
get_be_from-append acc [] ys = refl
get_be_from-append acc (x ∷ xs) ys = get_be_from-append (acc * 256 + x) xs ys

-- Reading back what was written, for a number that fits the width.
get_be_from-put_be : (w n : ℕ) → n < 256 ^ w → get_be_from 0 (put_be w n) ≡ n
unfolding get_be_from put_be
get_be_from-put_be zero n h = omega arith
get_be_from-put_be (suc w) n h =
    get_be_from-append 0 (put_be w (n / 256)) (n % 256 ∷ [])
    ∙ omega (arith, get_be_from-put_be w (n / 256) (omega arith))

pub get_be-put_be : (w n : ℕ) → n < 256 ^ w → get_be (put_be w n) ≡ n
unfolding get_be
get_be-put_be w n h = get_be_from-put_be w n h
