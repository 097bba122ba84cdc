-- ===== src/Auth.antt =====
-- server/internal/auth/basic.go: HTTP basic authentication with an htpasswd file and a cache of verified
-- credentials.
pub mod Texts
pub mod Checked
pub mod Lines
pub mod Loaded
mod Tests
use simple_logging.Prelude.{
  ℕ, suc, ◌+◌, ◌≡◌, refl, Bool, true, false, not, ◌&&◌, ◌||◌, List, [], ◌∷◌, ◌++◌, Option, none,
  some, length, ltb, leb, ◌==◌, if◌then◌else◌, Result, ok, err,
}
use simple_logging.Prelude.Text.{codes, text_eq, has_prefix, cut}
use simple_logging.Prelude.Spaces.{trim_space}
use simple_logging.Prelude.Assoc.{find, put}

abbrev pub max_cached_credentials : ℕ
max_cached_credentials = 256

abbrev pub Users : Type 0
Users = List (List ℕ × List ℕ)

-- `Basic`: the hashes of the users, and the digests of verified credentials.
pub record Basic : Type 0 where
  pub users : Users
  pub verified : List (List ℕ)

-- The errors of `LoadHTPasswd`, with the number of the line.
pub data LoadError : Type 0 where
  open_failed : LoadError
  read_failed : LoadError
  expected_user_hash : ℕ → LoadError
  not_bcrypt : ℕ → LoadError
  no_users : LoadError

unfoldable pub is_bcrypt : List ℕ → Bool
is_bcrypt hash =
    has_prefix hash (codes "$2a$")
    || (has_prefix hash (codes "$2b$") || has_prefix hash (codes "$2y$"))

abbrev pub is_skipped : List ℕ → Bool
is_skipped line = text_eq line [] || has_prefix line (codes "#")

-- A line is skipped, gives a user with a hash, or is an error.
pub data HtpasswdLine : Type 0 where
  skipped : HtpasswdLine
  user_hash : List ℕ → List ℕ → HtpasswdLine
  bad_line : HtpasswdLine
  bad_hash : HtpasswdLine

abbrev pub read_pair : Option (List ℕ × List ℕ) → HtpasswdLine
read_pair none = bad_line
read_pair (some (user, hash)) =
    if text_eq user [] || text_eq hash []
    then bad_line
    else if is_bcrypt hash
    then user_hash user hash
    else bad_hash

unfoldable pub read_user : List ℕ → HtpasswdLine
read_user raw =
    let line = trim_space raw in if is_skipped line then skipped else read_pair (cut line b':')

-- The loop over the lines from the `line_num`-th on.
unfoldable pub load_lines : ℕ → Users → List (List ℕ) → Result LoadError Users
load_lines line_num users [] = ok users
load_lines line_num users (l ∷ ls) = elim (read_user l) [
  | skipped ↦ load_lines (suc line_num) users ls
  | user_hash user hash ↦ load_lines (suc line_num) (put text_eq user hash users) ls
  | bad_line ↦ err (expected_user_hash line_num)
  | bad_hash ↦ err (not_bcrypt line_num)
]

abbrev finish_load : Bool → Users → Result LoadError Basic
finish_load read_error users =
    if read_error
    then err read_failed
    else if length users == 0
    then err no_users
    else ok (record { users = users; verified = [] })

abbrev load_users : Bool → Result LoadError Users → Result LoadError Basic
load_users read_error (err e) = err e
load_users read_error (ok users) = finish_load read_error users

-- `LoadHTPasswd` on what the scanner gives: the lines, and whether it ends with an error; `none` is
-- a file that cannot be opened.
unfoldable pub load_htpasswd : Option (List (List ℕ) × Bool) → Result LoadError Basic
load_htpasswd none = err open_failed
load_htpasswd (some (lines, read_error)) = load_users read_error (load_lines 1 [] lines)

abbrev pub contains_key : List ℕ → List (List ℕ) → Bool
contains_key key [] = false
contains_key key (k ∷ ks) = text_eq k key || contains_key key ks

-- The request of a client: its path, and the credentials of its header.
pub record Request : Type 0 where
  pub path : List ℕ
  pub basic_auth : Option (List ℕ × List ℕ)

-- What the middleware does: it hands the request on, or answers 401.
pub data Answer : Type 0 where
  served : Answer
  unauthorized : Answer

-- `digest` is sha256.Sum256.
abbrev pub credentials_key : (List ℕ → List ℕ) → List ℕ → List ℕ → List ℕ
credentials_key digest user password = digest (user ++ (0 ∷ password))

-- A verified key goes into the cache, which is cleared first when it is full.
abbrev pub remember : List ℕ → Basic → Basic
remember key b = record b {
  verified = if leb max_cached_credentials (length b.verified) then key ∷ [] else key ∷ b.verified;
}

-- `matches` is bcrypt's comparison of a hash with a password.
module _ (digest : List ℕ → List ℕ) (matches : List ℕ → List ℕ → Bool) where
  -- The part of `check` behind the cache.
  abbrev pub check_hash : Option (List ℕ) → List ℕ → List ℕ → Basic → Bool × Basic
  check_hash none key password b = (false, b)
  check_hash (some hash) key password b =
      if matches hash password then (true, remember key b) else (false, b)

  unfoldable pub check_credentials : List ℕ → List ℕ → Basic → Bool × Basic
  check_credentials user password b =
      let key = credentials_key digest user password in
      if contains_key key b.verified
      then (true, b)
      else check_hash (find text_eq user b.users) key password b

  -- The handler of `Middleware`; `open_paths` need no credentials.
  unfoldable pub middleware : List (List ℕ) → Request → Basic → Answer × Basic
  middleware open_paths r b =
      if contains_key r.path open_paths then (served, b) else elim (r.basic_auth) [
        | none ↦ (unauthorized, b)
        | some (user, password) ↦
            let checked = check_credentials user password b in
            (if checked.0 then served else unauthorized, checked.1)
      ]

  unfoldable pub run_requests : List (List ℕ) → List Request → Basic → List Answer × Basic
  run_requests open_paths [] b = ([], b)
  run_requests open_paths (r ∷ rs) b =
      let answered = middleware open_paths r b in
      let rest = run_requests open_paths rs answered.1 in (answered.0 ∷ rest.0, rest.1)
