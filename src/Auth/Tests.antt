-- ===== src/Auth/Tests.antt =====
-- server/internal/auth: runs of the model at concrete inputs.
use simple_logging.Prelude.{
  ℕ, ◌≡◌, ◌≤◌, refl, Bool, false, List, [], ◌∷◌, map, none, some, length, take, ◌++◌,
}
use simple_logging.Prelude.Text.{codes, text_eq, text_eq_iff}
use simple_logging.Auth.{Users, Request, load_htpasswd, run_requests, max_cached_credentials}
use simple_logging.Auth.Texts.{texts}
use simple_logging.Auth.Checked.{answer_of, HasNoCollision, run_requests-answers}
use simple_logging.Auth.Loaded.{LoadedFrom, load_htpasswd-LoadedFrom}

abbrev htpasswd_lines : List (List ℕ)
htpasswd_lines = codes "# users" ∷ codes "ann:$2y$x" ∷ codes "bob:secret" ∷ []

load_htpasswd-LoadedFrom_example :
    LoadedFrom htpasswd_lines false (load_htpasswd (some (htpasswd_lines, false)))
load_htpasswd-LoadedFrom_example = load_htpasswd-LoadedFrom htpasswd_lines false

abbrev one_user : Users
one_user = (codes "ann", codes "pw") ∷ []

-- A hash that is the password, in place of bcrypt, and a digest of 5 bytes.
abbrev plain_matches : List ℕ → List ℕ → Bool
plain_matches hash password = text_eq hash password

abbrev short_digest : List ℕ → List ℕ
short_digest s = take 5 s

abbrev ask : List ℕ → Request
ask password = record { path = codes "/"; basic_auth = some (codes "ann", password) }

abbrev some_requests : List Request
some_requests =
    ask (codes "pw")
    ∷ ask (codes "pw")
    ∷ ask (codes "no")
    ∷ record { path = codes "/healthz"; basic_auth = none }
    ∷ []

differ : (s t u v : List ℕ) → text_eq s t ≡ false → s ≡ t → u ≡ v
differ s t u v d e = absurd (cc (d, (text_eq_iff s t).1 e))

requests_apart : HasNoCollision short_digest plain_matches (texts some_requests)
requests_apart =
    let right = codes "ann" ++ (0 ∷ codes "pw") in
    let wrong = codes "ann" ++ (0 ∷ codes "no") in
    let apart = differ (short_digest right) (short_digest wrong) right wrong refl in
    let apart' = differ (short_digest wrong) (short_digest right) wrong right refl in
    (
      ((λ e. refl), ((λ e. refl), (apart, tt))),
      (((λ e. refl), ((λ e. refl), (apart, tt))), ((apart', (apart', ((λ e. refl), tt))), tt)),
    )

run_requests-answers_example :
    let run =
      run_requests short_digest plain_matches
        (codes "/healthz" ∷ [])
        some_requests
        (record { users = one_user; verified = [] }) in
    (run.0
      ≡ map (answer_of short_digest plain_matches one_user (codes "/healthz" ∷ [])) some_requests)
    × (length run.1.verified ≤ max_cached_credentials)
run_requests-answers_example =
    run_requests-answers short_digest plain_matches one_user (codes "/healthz" ∷ []) some_requests
      requests_apart (refl, (refl, (refl, (tt, tt))))
