-- ===== src/Indexes/Page/Walk.antt =====
-- A client of `Manager.GetLogs` (server/internal/indexes/manager.go) that follows the page tokens.
use simple_logging.Prelude.{
  ℕ, zero, suc, ◌+◌, ◌-◌, ◌≤◌, ◌<◌, ◌≡◌, refl, sym, ap, ◌∙◌, true, false, List, [], ◌∷◌, ◌++◌,
  Option, none, some, length, take, drop, ltb, length-map, length-take, length-drop, if◌then◌else◌,
  Bool-cases, Option-cases, inl, inr, arith, ok, err, ◌^◌,
}
use simple_logging.Prelude.Text.{text_eq, text_eq_iff}
use simple_logging.Prelude.Slices.{drop-drop, take_all}
use simple_logging.Prelude.Decimal.{itoa, atoi_nonneg-itoa, atoi_nonneg-nil, text_eq-itoa_nil}
use simple_logging.Indexes.Reference.{Reference}
use simple_logging.Indexes.Available.{Files, read_referenced_line}
use simple_logging.Indexes.Page.{
  SortableEntry, read_lines, finish_page, get_index_logs, index_page_size, parse_start,
}
use simple_logging.Indexes.Page.Spec.{Stores, all_found, references, read_reference_page-forward}

index_page_size_pos : (size : ℕ) → 0 < index_page_size size
index_page_size_pos size = ground arith

parse_start-itoa : (n : ℕ) → n < 2 ^ 63 → parse_start false (itoa n) ≡ some n
unfolding parse_start
parse_start-itoa n h =
    ground (arith, atoi_nonneg-itoa n h, atoi_nonneg-nil, (text_eq_iff (itoa n) []).0)

module _ (logs_root : List ℕ) (files : Files) where
  -- The lines of a list of references, read from the files.
  abbrev pub lines_of : List SortableEntry → List (List ℕ)
  lines_of es = read_lines logs_root files (references es)

  lines_of-take-drop :
      (n : ℕ) (es : List SortableEntry) → lines_of (take n es) ++ lines_of (drop n es) ≡ lines_of es
  unfolding read_lines
  lines_of-take-drop zero es = refl
  lines_of-take-drop (suc n) [] = refl
  lines_of-take-drop (suc n) (e ∷ es) =
      elim (Option-cases (read_referenced_line logs_root files e.entry)) [
        | inl bad ↦ rw (bad, read_lines) (lines_of-take-drop n es)
        | inr (line, good) ↦ rw (good, read_lines) (ap (λ t. line ∷ t) (lines_of-take-drop n es))
      ]

module _ (logs_root : List ℕ) (files : Files) (value : List ℕ) (shard : Option (List ℕ))
    (rs : List Reference) (stores : Stores shard rs) (size : ℕ) where
  -- For a shard whose scan visits given references and a token that stands for a start within the
  -- found references, a page has the readable lines of the page size's references from there on,
  -- in order; its next token is the start of the following page if there is one, and its previous
  -- token that of the page before if the start is above 0.
  pub get_index_logs-forward :
      (start : ℕ) (token : List ℕ)
      → parse_start false token ≡ some start
      → start ≤ length (all_found logs_root files value rs)
      → get_index_logs logs_root files shard value size token false
        ≡ ok (
          lines_of logs_root files
              (take (index_page_size size) (drop start (all_found logs_root files value rs))),
          if ltb (start + index_page_size size) (length (all_found logs_root files value rs))
              then itoa (start + index_page_size size)
              else [],
          if ltb 0 start then itoa (start - index_page_size size) else [],
        )
  unfolding get_index_logs finish_page
  get_index_logs-forward start token parsed within =
      rw
        (
          parsed,
          get_index_logs,
          read_reference_page-forward logs_root files value shard rs start (index_page_size size)
              stores,
        )
        (unfold finish_page in
          ground (
            arith,
            length-map
                (take (index_page_size size) (drop start (all_found logs_root files value rs)))
                (λ (e : SortableEntry). e.entry),
            length-take (index_page_size size) (drop start (all_found logs_root files value rs)),
            length-drop start (all_found logs_root files value rs),
          ))

  -- Follow the next-page tokens from `token`; `none` is an error or too little fuel.
  unfoldable pub walk_forward : ℕ → List ℕ → Option (List (List ℕ))
  walk_forward zero token = none
  walk_forward (suc fuel) token =
      elim (get_index_logs logs_root files shard value size token false) [
        | err e ↦ none
        | ok (lines, next, _) ↦ elim (text_eq next []) [
          | true ↦ some lines
          | false ↦ elim (walk_forward fuel next) [ none ↦ none | some more ↦ some (lines ++ more) ]
        ]
      ]

  walk_forward-from :
      (fuel start : ℕ) (token : List ℕ)
      → parse_start false token ≡ some start
      → start ≤ length (all_found logs_root files value rs)
      → length (all_found logs_root files value rs) < start + fuel
      → length (all_found logs_root files value rs) < 2 ^ 63
      → walk_forward fuel token
        ≡ some (lines_of logs_root files (drop start (all_found logs_root files value rs)))
  unfolding walk_forward
  walk_forward-from zero start token parsed within enough small = absurd (omega arith)
  walk_forward-from (suc fuel) start token parsed within enough small =
      let p = index_page_size size in
      let n = length (all_found logs_root files value rs) in
      elim (Bool-cases (ltb (start + p) n)) [
        | inr last ↦
            rw (get_index_logs-forward start token parsed within, walk_forward, last)
              (ap (λ es. some (lines_of logs_root files es))
                (take_all p (drop start (all_found logs_root files value rs))
                  (ground (arith, length-drop start (all_found logs_root files value rs)))))
        | inl more ↦
            rw
              (
                get_index_logs-forward start token parsed within,
                walk_forward,
                more,
                text_eq-itoa_nil (start + p),
                more,
                walk_forward-from fuel (start + p) (itoa (start + p))
                    (parse_start-itoa (start + p) (ground arith)) (ground arith)
                    (ground (arith, index_page_size_pos size)) small,
              )
              (ap some (
                ap
                  (λ t.
                    lines_of logs_root files
                      (take p (drop start (all_found logs_root files value rs)))
                    ++ lines_of logs_root files t)
                  (sym (drop-drop start p (all_found logs_root files value rs)))
                ∙ lines_of-take-drop logs_root files p
                    (drop start (all_found logs_root files value rs))))
      ]

  -- For a shard whose scan visits given references, fewer than 2^63 of them found for the value, a
  -- client of Manager.GetLogs that starts without a token and follows the next-page tokens gets
  -- the lines of all found references that can be read, each once, in timestamp order; one more
  -- request than there are references is enough, for any page size.
  pub walk_forward-all_found :
      length (all_found logs_root files value rs) < 2 ^ 63
      → walk_forward (suc (length (all_found logs_root files value rs))) []
        ≡ some (lines_of logs_root files (all_found logs_root files value rs))
  walk_forward-all_found small =
      walk_forward-from _ 0 [] (unfold parse_start in refl) (omega arith) (omega arith) small
