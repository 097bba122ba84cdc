-- ===== src/Prelude/Spaces.antt =====
-- strings.TrimSpace: the white space of Unicode in UTF-8, on a text's bytes.
use Prim.Native.Nat.{ℕ, zero, suc}
use mathlib.Core.Bool.{Bool, ◌&&◌, ◌||◌}
use mathlib.Core.List.{List, [], ◌∷◌}
use simple_logging.Prelude.Tests.{leb, ◌==◌, if◌then◌else◌}
use simple_logging.Prelude.Text.{text_eq}
use simple_logging.Prelude.Lists.{get_or, drop, length}

-- U+0009 to U+000D, and the space.
abbrev is_ascii_space : ℕ → Bool
is_ascii_space c = (leb 9 c && leb c 13) || c == 32

-- U+0085 and U+00A0.
abbrev is_space2 : ℕ → ℕ → Bool
is_space2 a b = a == 0xC2 && (b == 0x85 || b == 0xA0)

-- U+1680, U+2000 to U+200A, U+2028, U+2029, U+202F, U+205F and U+3000.
abbrev is_space3 : ℕ → ℕ → ℕ → Bool
is_space3 a b c =
    (a == 0xE1 && b == 0x9A && c == 0x80)
    || (a == 0xE2
        && b == 0x80
        && ((leb 0x80 c && leb c 0x8A) || c == 0xA8 || c == 0xA9 || c == 0xAF))
    || (a == 0xE2 && b == 0x81 && c == 0x9F)
    || (a == 0xE3 && b == 0x80 && c == 0x80)

-- The bytes of the white space that a text starts with, 0 for none.
space_width : List ℕ → ℕ
space_width s =
    let a = get_or s 0 0 in
    let b = get_or s 1 0 in
    if is_ascii_space a
    then 1
    else if is_space2 a b
    then 2
    else if is_space3 a b (get_or s 2 0)
    then 3
    else 0

-- The text after its leading white space, with fuel; each round takes a byte at least.
trim_left : ℕ → List ℕ → List ℕ
unfolding space_width
trim_left zero s = s
trim_left (suc f) s =
    let rest = trim_left f (drop (space_width s) s) in if space_width s == 0 then s else rest

-- The text before its trailing white space.
trim_end : List ℕ → List ℕ
unfolding trim_left
trim_end [] = []
trim_end (c ∷ s) =
    let rest = trim_end s in
    if text_eq (trim_left (length (c ∷ s)) (c ∷ s)) [] then [] else c ∷ rest

unfoldable pub trim_space : List ℕ → List ℕ
unfolding trim_left trim_end
trim_space s = trim_end (trim_left (length s) s)
