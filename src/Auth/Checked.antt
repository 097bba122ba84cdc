-- ===== src/Auth/Checked.antt =====
-- The cache of verified credentials answers as the hashes do, and stays within its bound.
use simple_logging.Prelude.{
  ℕ, ◌≤◌, ◌≡◌, refl, sym, ap, ◌∙◌, Bool, true, false, ◌||◌, List, [], ◌∷◌, ◌++◌, Option, none, some,
  length, leb, if◌then◌else◌, All, Bool-cases, inl, inr, map, arith,
}
use simple_logging.Prelude.Text.{text_eq, text_eq_iff, index_byte, cut, cut-append}
use simple_logging.Prelude.Assoc.{find}
use simple_logging.Auth.{
  Basic, Users, Request, Answer, served, unauthorized, max_cached_credentials, contains_key,
  credentials_key, remember, check_hash, check_credentials, middleware, run_requests,
}
use simple_logging.Auth.Texts.{texts, HasText, IsText, IsText-All, texts-HasText}

module _ (digest : List ℕ → List ℕ) (matches : List ℕ → List ℕ → Bool) where
  -- Whether the password is that of the user, with no cache.
  abbrev matches_user : Option (List ℕ) → List ℕ → Bool
  matches_user none password = false
  matches_user (some hash) password = matches hash password

  abbrev pub is_valid : Users → List ℕ → List ℕ → Bool
  is_valid users user password = matches_user (find text_eq user users) password

  abbrev valid_pair : Users → Option (List ℕ × List ℕ) → Bool
  valid_pair users none = false
  valid_pair users (some (user, password)) = is_valid users user password

  -- A key of the cache comes from valid credentials, with one of the texts `P`.
  abbrev IsVerified : (List ℕ → Type 0) → Users → List ℕ → Type 0
  IsVerified P users key =
      (user : List ℕ) × (password : List ℕ) × P (user ++ (0 ∷ password))
      × (index_byte user 0 ≡ none)
      × (key ≡ credentials_key digest user password)
      × (is_valid users user password ≡ true)

  -- What the hashes alone allow.
  abbrev pub is_allowed : Users → Option (List ℕ × List ℕ) → Bool
  is_allowed users none = false
  is_allowed users (some (user, password)) = is_valid users user password

  abbrev pub answer_of : Users → List (List ℕ) → Request → Answer
  answer_of users open_paths r =
      if contains_key r.path open_paths || is_allowed users r.basic_auth
      then served
      else unauthorized

  -- The name of the user has no zero byte, which separates it from the password in a key.
  abbrev pub IsPlain : Option (List ℕ × List ℕ) → Type 0
  IsPlain none = Unit
  IsPlain (some (user, password)) = index_byte user 0 ≡ none

  -- No two different ones have the same digest.
  abbrev pub HasNoCollision : List (List ℕ) → Type 0
  HasNoCollision ts = All (λ s. All (λ t. digest s ≡ digest t → s ≡ t) ts) ts

  module _ (P : List ℕ → Type 0)
      (injective : (s t : List ℕ) → P s → P t → digest s ≡ digest t → s ≡ t) where
    verified_valid :
        (users : Users) (user password : List ℕ) (keys : List (List ℕ))
        → P (user ++ (0 ∷ password))
        → index_byte user 0 ≡ none
        → All (IsVerified P users) keys
        → contains_key (credentials_key digest user password) keys ≡ true
        → is_valid users user password ≡ true
    verified_valid users user password [] x n h e = absurd (cc e)
    verified_valid users user password (k ∷ ks) x n ((u, p, y, m, q, v), hs) e =
        elim (Bool-cases (text_eq k (credentials_key digest user password))) [
          | inl same ↦
              let t : u ++ (0 ∷ p) ≡ user ++ (0 ∷ password) =
                injective (u ++ (0 ∷ p)) (user ++ (0 ∷ password)) y x
                  (sym q ∙ (text_eq_iff k (credentials_key digest user password)).0 same) in
              let c : some (u, p) ≡ some (user, password) =
                sym (cut-append u p 0 m) ∙ (ap (λ s. cut s 0) t ∙ cut-append user password 0 n) in
              sym (ap (valid_pair users) c) ∙ v
          | inr other ↦ verified_valid users user password ks x n hs (rw other at e)
        ]

    -- The cache keeps the users, holds verified credentials, and is within its bound.
    record IsCached (users : Users) (b : Basic) : Type 0 where
      users_kept : b.users ≡ users
      verified : All (IsVerified P users) b.verified
      bounded : length b.verified ≤ max_cached_credentials

    remember-IsCached :
        (users : Users) (user password : List ℕ) (b : Basic)
        → P (user ++ (0 ∷ password))
        → index_byte user 0 ≡ none
        → is_valid users user password ≡ true
        → IsCached users b
        → IsCached users (remember (credentials_key digest user password) b)
    remember-IsCached users user password b x n v h =
        elim (Bool-cases (leb max_cached_credentials (length b.verified))) [
          | inl full ↦ rw full (record {
            users_kept = h.users_kept;
            verified = ((user, password, x, n, refl, v), tt);
            bounded = omega arith;
          })
          | inr room ↦ rw room (record {
            users_kept = h.users_kept;
            verified = ((user, password, x, n, refl, v), h.verified);
            bounded = ground arith;
          })
        ]

    -- An answer is that of the hashes.
    abbrev IsAnswered : Users → List ℕ → List ℕ → Bool × Basic → Type 0
    IsAnswered users user password r = (r.0 ≡ is_valid users user password) × IsCached users r.1

    check_hash-IsAnswered :
        (users : Users) (user password : List ℕ) (hash : Option (List ℕ)) (b : Basic)
        → P (user ++ (0 ∷ password))
        → index_byte user 0 ≡ none
        → find text_eq user users ≡ hash
        → IsCached users b
        → IsAnswered users user password
            (check_hash digest matches hash (credentials_key digest user password) password b)
    check_hash-IsAnswered users user password none b x n e h = (rw e refl, h)
    check_hash-IsAnswered users user password (some hash) b x n e h =
        elim (Bool-cases (matches hash password)) [
          | inl right ↦
              let v : is_valid users user password ≡ true = rw e right in
              rw right (sym v, remember-IsCached users user password b x n v h)
          | inr wrong ↦ rw wrong (sym (rw e wrong), h)
        ]

    check_credentials-IsAnswered :
        (users : Users) (user password : List ℕ) (b : Basic)
        → P (user ++ (0 ∷ password))
        → index_byte user 0 ≡ none
        → IsCached users b
        → IsAnswered users user password (check_credentials digest matches user password b)
    unfolding check_credentials
    check_credentials-IsAnswered users user password b x n h =
        elim (Bool-cases (contains_key (credentials_key digest user password) b.verified)) [
          | inl cached ↦
              rw (check_credentials, cached)
                (sym (verified_valid users user password b.verified x n h.verified cached), h)
          | inr fresh ↦
              rw (check_credentials, fresh)
                (check_hash-IsAnswered users user password (find text_eq user b.users) b x n
                  (ap (find text_eq user) (sym h.users_kept)) h)
        ]

    middleware-answer :
        (users : Users) (open_paths : List (List ℕ)) (path : List ℕ)
        (basic_auth : Option (List ℕ × List ℕ)) (b : Basic)
        → HasText P basic_auth
        → IsPlain basic_auth
        → IsCached users b
        → let r : Request = record { path = path; basic_auth = basic_auth } in
          ((middleware digest matches open_paths r b).0 ≡ answer_of users open_paths r)
          × IsCached users (middleware digest matches open_paths r b).1
    unfolding middleware
    middleware-answer users open_paths path none b x n h =
        elim (Bool-cases (contains_key path open_paths)) [
          | inl is_open ↦ rw (middleware, is_open) (refl, h)
          | inr guarded ↦ rw (middleware, guarded) (refl, h)
        ]
    middleware-answer users open_paths path (some (user, password)) b x n h =
        elim (Bool-cases (contains_key path open_paths)) [
          | inl is_open ↦ rw (middleware, is_open) (refl, h)
          | inr guarded ↦
              let (answered, kept) = check_credentials-IsAnswered users user password b x n h in
              rw (middleware, guarded, answered) (refl, kept)
        ]

    run_requests-answers_from :
        (users : Users) (open_paths : List (List ℕ)) (rs : List Request) (b : Basic)
        → All (λ r. HasText P r.basic_auth) rs
        → All (λ r. IsPlain r.basic_auth) rs
        → IsCached users b
        → ((run_requests digest matches open_paths rs b).0 ≡ map (answer_of users open_paths) rs)
          × IsCached users (run_requests digest matches open_paths rs b).1
    unfolding run_requests
    run_requests-answers_from users open_paths [] b x n h = (refl, h)
    run_requests-answers_from users open_paths (r ∷ rs) b (x, xs) (n, ns) h =
        let (answered, kept) = middleware-answer users open_paths r.path r.basic_auth b x n h in
        let (rest, kept') =
          run_requests-answers_from users open_paths rs (middleware digest matches open_paths r b).1
            xs ns kept in
        (rw (answered, rest) refl, kept')

  -- If no two different credentials of the requests have the same digest and no user name of a
  -- request has a zero byte: from an empty cache, any sequence of requests gets the answers that
  -- the users' hashes alone give, so a request is served exactly if its path is open or its
  -- credentials match the user's hash, and the cache stays within 256 entries.
  pub run_requests-answers :
      (users : Users) (open_paths : List (List ℕ)) (requests : List Request)
      → HasNoCollision (texts requests)
      → All (λ r. IsPlain r.basic_auth) requests
      → let run =
          run_requests digest matches open_paths requests
            (record { users = users; verified = [] }) in
        (run.0 ≡ map (answer_of users open_paths) requests)
        × (length run.1.verified ≤ max_cached_credentials)
  run_requests-answers users open_paths requests apart n =
      let ts = texts requests in
      let injective = λ (s t : List ℕ) (x : IsText ts s) (y : IsText ts t).
        IsText-All (λ u. digest s ≡ digest u → s ≡ u) ts t
          (IsText-All (λ v. All (λ u. digest v ≡ digest u → v ≡ u) ts) ts s apart x) y in
      let (answers, kept) =
        run_requests-answers_from (IsText ts) injective users open_paths requests
          (record { users = users; verified = [] }) (texts-HasText requests) n
          (record { users_kept = refl; verified = tt; bounded = omega arith }) in
      (answers, kept.bounded)
