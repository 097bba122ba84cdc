-- ===== src/Auth/Lines.antt =====
-- server/internal/auth/basic.go: how `LoadHTPasswd` reads one line, against what stands in the line.
use mathlib.Core.Path.{subst}
use mathlib.Core.Option.{some-injective}
use simple_logging.Prelude.{
  ℕ, suc, ◌≡◌, refl, sym, ap, Bool, true, false, List, [], ◌∷◌, ◌++◌, Option, none, some, take,
  drop, ◌==◌, Bool-cases, Option-cases, inl, inr, ◌⊎◌, ◌||◌, ==_iff,
}
use simple_logging.Prelude.Text.{codes, text_eq, has_prefix, index_byte, cut, cut-append}
use simple_logging.Prelude.Spaces.{trim_space}
use simple_logging.Auth.{
  is_bcrypt, read_pair, HtpasswdLine, skipped, user_hash, bad_line, bad_hash, read_user,
}

-- A line that is blank or starts with #.
abbrev pub is_comment : List ℕ → Bool
is_comment l = text_eq (trim_space l) [] || has_prefix (trim_space l) (codes "#")

-- The line is a user, a colon and a hash, neither of them empty.
abbrev pub IsPair : List ℕ → List ℕ → List ℕ → Type 0
IsPair l user hash =
    (trim_space l ≡ user ++ (b':' ∷ hash))
    × (index_byte user b':' ≡ none)
    × (text_eq user [] ≡ false)
    × (text_eq hash [] ≡ false)

-- What is true of a line that reads so.
abbrev pub Reads : List ℕ → HtpasswdLine → Type 0
Reads l skipped = is_comment l ≡ true
Reads l (user_hash user hash) =
    (is_comment l ≡ false) × IsPair l user hash × (is_bcrypt hash ≡ true)
Reads l bad_line = (is_comment l ≡ false) × ((user hash : List ℕ) → IsPair l user hash → ⊥)
Reads l bad_hash =
    (is_comment l ≡ false)
    × ((user : List ℕ) × (hash : List ℕ) × IsPair l user hash × (is_bcrypt hash ≡ false))

abbrev pub IsAccepted : List ℕ → Type 0
IsAccepted l =
    (is_comment l ≡ true) ⊎ ((user : List ℕ) × (hash : List ℕ) × Reads l (user_hash user hash))

index_byte-parts :
    (s : List ℕ) (b i : ℕ)
    → index_byte s b ≡ some i
    → (s ≡ take i s ++ (b ∷ drop (suc i) s)) × (index_byte (take i s) b ≡ none)
index_byte-parts [] b i e = absurd (cc e)
index_byte-parts (c ∷ s) b i e = elim (Bool-cases (c == b)) [
  | inl here ↦
      let first : i ≡ 0 = sym (some-injective _ _ (rw here at e)) in
      rw first (ap (λ x. x ∷ s) ((==_iff c b).0 here), refl)
  | inr there ↦ elim (Option-cases (index_byte s b)) [
    | inl missing ↦ absurd (cc (rw (there, missing) at e))
    | inr (j, found) ↦
        let next : i ≡ suc j = sym (some-injective _ _ (rw (there, found) at e)) in
        let (parts, none_before) = index_byte-parts s b j found in
        rw next (ap (λ t. c ∷ t) parts, rw (there, none_before) refl)
  ]
]

cut-parts :
    (s u h : List ℕ) (b : ℕ) → cut s b ≡ some (u, h) → (s ≡ u ++ (b ∷ h)) × (index_byte u b ≡ none)
unfolding cut
cut-parts s u h b e = elim (Option-cases (index_byte s b)) [
  | inl missing ↦ absurd (cc (rw (cut, missing) at e))
  | inr (i, found) ↦
      let q : ◌≡◌ {A = List ℕ × List ℕ} (take i s, drop (suc i) s) (u, h) =
        some-injective _ _ (rw (cut, found) at e) in
      let parts = index_byte-parts s b i found in
      subst (λ (p : List ℕ × List ℕ). (s ≡ p.0 ++ (b ∷ p.1)) × (index_byte p.0 b ≡ none)) q parts
]

pub cut-IsPair :
    (l user hash : List ℕ) → IsPair l user hash → cut (trim_space l) b':' ≡ some (user, hash)
cut-IsPair l user hash (e, n, _, _) = rw e (cut-append user hash b':' n)

-- The part of `read_user` behind the comments.
read_pair-Reads :
    (l : List ℕ) (pair : Option (List ℕ × List ℕ))
    → is_comment l ≡ false
    → cut (trim_space l) b':' ≡ pair
    → Reads l (read_pair pair)
read_pair-Reads l none c e = (c, λ u h p. absurd (cc (e, cut-IsPair l u h p)))
read_pair-Reads l (some (user, hash)) c e =
    let (whole, n) = cut-parts (trim_space l) user hash b':' e in
    elim (Bool-cases (text_eq user [])) [
      | inl empty ↦ rw empty (c, λ u h p. absurd (cc (e, cut-IsPair l u h p, p.2, empty)))
      | inr a ↦ elim (Bool-cases (text_eq hash [])) [
        | inl empty ↦ rw (a, empty) (c, λ u h p. absurd (cc (e, cut-IsPair l u h p, p.3, empty)))
        | inr b ↦ elim (Bool-cases (is_bcrypt hash)) [
          | inl bcrypt ↦ rw (a, b, bcrypt) (c, (whole, n, a, b), bcrypt)
          | inr other ↦ rw (a, b, other) (c, (user, hash, (whole, n, a, b), other))
        ]
      ]
    ]

pub read_user-Reads : (l : List ℕ) → Reads l (read_user l)
unfolding read_user
read_user-Reads l = elim (Bool-cases (is_comment l)) [
  | inl comment ↦ rw (read_user, comment) comment
  | inr line ↦ rw (read_user, line) (read_pair-Reads l (cut (trim_space l) b':') line refl)
]
