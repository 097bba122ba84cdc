-- ===== src/Auth/Loaded.antt =====
-- What `LoadHTPasswd` accepts and which line it refuses.
use simple_logging.Prelude.{
  ℕ, suc, ◌+◌, ◌<◌, ◌≡◌, refl, sym, ap, ◌∙◌, Bool, true, false, List, [], ◌∷◌, Option, none, some,
  length, take, get_elem?, ◌==◌, if◌then◌else◌, Result, ok, err, All, Bool-cases, Option-cases, inl,
  inr, arith,
}
use simple_logging.Prelude.Text.{text_eq, text_eq_iff, text_eq_self, cut}
use simple_logging.Prelude.Spaces.{trim_space}
use simple_logging.Prelude.Assoc.{find, put, remove, find-put}
use simple_logging.Auth.{
  Users, Basic, LoadError, open_failed, read_failed, expected_user_hash, not_bcrypt, no_users,
  is_bcrypt, HtpasswdLine, skipped, user_hash, bad_line, bad_hash, read_user, load_lines,
  load_users, load_htpasswd,
}
use simple_logging.Auth.Lines.{is_comment, Reads, IsAccepted, cut-IsPair, read_user-Reads}

abbrev pub HasBcrypt : List ℕ × List ℕ → Type 0
HasBcrypt u = is_bcrypt u.1 ≡ true

-- The hash that a line gives a user, and the last one of some lines.
unfoldable pub hash_in : List ℕ → List ℕ → Option (List ℕ)
hash_in user l = if is_comment l then none else (elim (cut (trim_space l) b':') [
  | none ↦ none
  | some (u, hash) ↦ if text_eq u user then some hash else none
])

abbrev or_else : Option (List ℕ) → Option (List ℕ) → Option (List ℕ)
or_else none o = o
or_else (some h) o = some h

unfoldable pub last_hash : List ℕ → List (List ℕ) → Option (List ℕ)
last_hash user [] = none
last_hash user (l ∷ ls) = or_else (last_hash user ls) (hash_in user l)

-- The `n`-th line, counted from `first`, is the first that is not accepted, and reads as `result`.
abbrev pub IsRefused : List (List ℕ) → ℕ → ℕ → HtpasswdLine → Type 0
IsRefused lines first n result =
    (i : ℕ) × (l : List ℕ) × (n ≡ first + i)
    × (get_elem? lines i ≡ some l)
    × All IsAccepted (take i lines)
    × Reads l result

remove-All :
    (k : List ℕ) (users : Users) → All HasBcrypt users → All HasBcrypt (remove text_eq k users)
remove-All k [] h = tt
remove-All k ((u, v) ∷ us) (h, hs) = elim (Bool-cases (text_eq u k)) [
  | inl same ↦ rw same (remove-All k us hs)
  | inr other ↦ rw other (h, remove-All k us hs)
]

or_else_assoc : (a b c : Option (List ℕ)) → or_else (or_else a b) c ≡ or_else a (or_else b c)
or_else_assoc none b c = refl
or_else_assoc (some a) b c = refl

-- What the loop over the lines gives, from some users on.
abbrev LinesRead : List (List ℕ) → ℕ → Users → Result LoadError Users → Type 0
LinesRead lines first users (ok us) =
    All HasBcrypt us
    × All IsAccepted lines
    × ((user : List ℕ)
        → find text_eq user us ≡ or_else (last_hash user lines) (find text_eq user users))
LinesRead lines first users (err (expected_user_hash n)) = IsRefused lines first n bad_line
LinesRead lines first users (err (not_bcrypt n)) = IsRefused lines first n bad_hash
LinesRead lines first users (err open_failed) = ⊥
LinesRead lines first users (err read_failed) = ⊥
LinesRead lines first users (err no_users) = ⊥

IsRefused-later :
    (l : List ℕ) (ls : List (List ℕ)) (first n : ℕ) (result : HtpasswdLine)
    → IsAccepted l
    → IsRefused ls (suc first) n result
    → IsRefused (l ∷ ls) first n result
IsRefused-later l ls first n result a (i, m, e, g, before, r) =
    (suc i, m, omega arith, g, (a, before), r)

-- An accepted line in front.
LinesRead-accepted :
    (l : List ℕ) (ls : List (List ℕ)) (first : ℕ) (users users' : Users)
    (r : Result LoadError Users)
    → IsAccepted l
    → ((user : List ℕ)
        → find text_eq user users' ≡ or_else (hash_in user l) (find text_eq user users))
    → LinesRead ls (suc first) users' r
    → LinesRead (l ∷ ls) first users r
unfolding last_hash
LinesRead-accepted l ls first users users' (ok us) a f (b, h, g) = (
  b,
  (a, h),
  λ user.
      g user
      ∙ ap (or_else (last_hash user ls)) (f user)
      ∙ sym (or_else_assoc (last_hash user ls) (hash_in user l) (find text_eq user users)),
)
LinesRead-accepted l ls first users users' (err (expected_user_hash n)) a f h =
    IsRefused-later l ls first n bad_line a h
LinesRead-accepted l ls first users users' (err (not_bcrypt n)) a f h =
    IsRefused-later l ls first n bad_hash a h
LinesRead-accepted l ls first users users' (err open_failed) a f h = h
LinesRead-accepted l ls first users users' (err read_failed) a f h = h
LinesRead-accepted l ls first users users' (err no_users) a f h = h

hash_in-comment : (user l : List ℕ) → is_comment l ≡ true → hash_in user l ≡ none
unfolding hash_in
hash_in-comment user l c = rw (hash_in, c) refl

hash_in-pair :
    (user l u hash : List ℕ)
    → Reads l (user_hash u hash)
    → hash_in user l ≡ (if text_eq u user then some hash else none)
unfolding hash_in
hash_in-pair user l u hash (c, p, b) = rw (hash_in, c, cut-IsPair l u hash p) refl

-- The loop over the lines, by what the first one is.
load_line-LinesRead :
    (l : List ℕ) (ls : List (List ℕ)) (first : ℕ) (users : Users) (r : HtpasswdLine)
    → read_user l ≡ r
    → Reads l r
    → All HasBcrypt users
    → ((us : Users) → All HasBcrypt us → LinesRead ls (suc first) us (load_lines (suc first) us ls))
    → LinesRead (l ∷ ls) first users (load_lines first users (l ∷ ls))
unfolding load_lines
load_line-LinesRead l ls first users skipped e c h ih =
    rw (load_lines, e)
      (LinesRead-accepted l ls first users users (load_lines (suc first) users ls) (inl c)
        (λ user. rw (hash_in-comment user l c) refl) (ih users h))
load_line-LinesRead l ls first users (user_hash u hash) e p h ih =
    let us = put text_eq u hash users in
    rw (load_lines, e)
      (LinesRead-accepted l ls first users us (load_lines (suc first) us ls) (inr (u, hash, p))
        (λ user.
          find-put text_eq text_eq_iff user u hash users ∙ (elim (Bool-cases (text_eq u user)) [
            | inl same ↦ rw (hash_in-pair user l u hash p, same) refl
            | inr other ↦ rw (hash_in-pair user l u hash p, other) refl
          ]))
        (ih us (p.2, remove-All u users h)))
load_line-LinesRead l ls first users bad_line e p h ih =
    rw (load_lines, e) (0, l, omega arith, refl, tt, p)
load_line-LinesRead l ls first users bad_hash e p h ih =
    rw (load_lines, e) (0, l, omega arith, refl, tt, p)

load_lines-LinesRead :
    (lines : List (List ℕ)) (first : ℕ) (users : Users)
    → All HasBcrypt users
    → LinesRead lines first users (load_lines first users lines)
unfolding load_lines last_hash
load_lines-LinesRead [] first users h = (h, tt, λ user. refl)
load_lines-LinesRead (l ∷ ls) first users h =
    load_line-LinesRead l ls first users (read_user l) refl (read_user-Reads l) h
      (λ us h'. load_lines-LinesRead ls (suc first) us h')

-- Accepted lines that give no user are all comments.
comments :
    (lines : List (List ℕ))
    → All IsAccepted lines
    → ((user : List ℕ) → last_hash user lines ≡ none)
    → All (λ l. is_comment l ≡ true) lines
unfolding last_hash
comments [] h e = tt
comments (l ∷ ls) (a, h) e =
    let rest : (user : List ℕ) → last_hash user ls ≡ none = λ user.
      elim (Option-cases (last_hash user ls)) [
        | inl no_hash ↦ no_hash
        | inr (x, found) ↦ absurd (cc (rw (last_hash, found) at (e user)))
      ] in
    (
      elim a [
        | inl c ↦ c
        | inr (u, hash, p) ↦
            absurd (cc (rw (last_hash, rest u, hash_in-pair u l u hash p, text_eq_self u) at (e u)))
      ],
      comments ls h rest,
    )

-- What a load of these lines gives: the last hash of each user, and an empty cache; or an error that
-- is true of the lines.
abbrev pub LoadedFrom : List (List ℕ) → Bool → Result LoadError Basic → Type 0
LoadedFrom lines read_error (ok b) =
    (read_error ≡ false)
    × (0 < length b.users)
    × All HasBcrypt b.users
    × (b.verified ≡ [])
    × All IsAccepted lines
    × ((user : List ℕ) → find text_eq user b.users ≡ last_hash user lines)
LoadedFrom lines read_error (err (expected_user_hash n)) = IsRefused lines 1 n bad_line
LoadedFrom lines read_error (err (not_bcrypt n)) = IsRefused lines 1 n bad_hash
LoadedFrom lines read_error (err open_failed) = ⊥
LoadedFrom lines read_error (err read_failed) = (read_error ≡ true) × All IsAccepted lines
LoadedFrom lines read_error (err no_users) =
    (read_error ≡ false) × All (λ l. is_comment l ≡ true) lines

or_else-none : (o : Option (List ℕ)) → or_else o none ≡ o
or_else-none none = refl
or_else-none (some h) = refl

load_users-LoadedFrom :
    (lines : List (List ℕ)) (read_error : Bool) (r : Result LoadError Users)
    → LinesRead lines 1 [] r
    → LoadedFrom lines read_error (load_users read_error r)
load_users-LoadedFrom lines true (ok users) (b, h, g) = (refl, h)
load_users-LoadedFrom lines false (ok []) (b, h, g) =
    (refl, comments lines h (λ user. sym (g user ∙ or_else-none (last_hash user lines))))
load_users-LoadedFrom lines false (ok (u ∷ us)) (b, h, g) =
    let some_users : (suc (length us) == 0) ≡ false = ground arith in
    rw some_users
      (refl, omega arith, b, refl, h, λ user. g user ∙ or_else-none (last_hash user lines))
load_users-LoadedFrom lines read_error (err (expected_user_hash n)) h = h
load_users-LoadedFrom lines read_error (err (not_bcrypt n)) h = h
load_users-LoadedFrom lines read_error (err open_failed) h = absurd h
load_users-LoadedFrom lines read_error (err read_failed) h = absurd h
load_users-LoadedFrom lines read_error (err no_users) h = absurd h

-- Loading an htpasswd file that can be opened gives at least one user, all with bcrypt hashes, and
-- an empty cache, if it is read without an error and each line is a comment or a user and a bcrypt
-- hash: each user then has the hash of the last line that names the user. Else it gives an error:
-- the first line that is neither, as one that is not of the form user:hash or as one whose hash is
-- not bcrypt, whichever it is; a failed read, if there is no such line; or no users, if all lines
-- are comments.
pub load_htpasswd-LoadedFrom :
    (lines : List (List ℕ)) (read_error : Bool)
    → LoadedFrom lines read_error (load_htpasswd (some (lines, read_error)))
unfolding load_htpasswd
load_htpasswd-LoadedFrom lines read_error =
    load_users-LoadedFrom lines read_error (load_lines 1 [] lines)
      (load_lines-LinesRead lines 1 [] tt)
