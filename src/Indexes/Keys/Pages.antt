-- ===== src/Indexes/Keys/Pages.antt =====
-- server/internal/indexes/manager.go: `Create` followed by a client of `GetLogs`.
use mathlib.Core.List.{Perm}
use mathlib.Core.Path.{subst}
use simple_logging.Prelude.{
  ℕ, zero, suc, ◌+◌, ◌^◌, ◌≤◌, ◌<◌, ◌≡◌, refl, ◌∙◌, true, false, ◌&&◌, List, [], ◌∷◌, ◌++◌, Option,
  none, some, length, All, ok, err, Bool-cases, inl, inr, arith,
}
use simple_logging.Prelude.Text.{text_eq, text_eq_self}
use simple_logging.Paging.Sort.{IsSorted}
use simple_logging.Storage.Layout.{contains_string}
use simple_logging.Indexes.Reference.{Reference, scan_shard}
use simple_logging.Indexes.Reference.RoundTrip.{Fits}
use simple_logging.Indexes.Reference.Scan.{append_all, append_all-stored, visit_all}
use simple_logging.Indexes.Available.{Files, is_available}
use simple_logging.Indexes.Page.{get_index_logs}
use simple_logging.Indexes.Page.Spec.{Stores, found, all_found, length-all_found}
use simple_logging.Indexes.Page.Walk.{lines_of, walk_forward, walk_forward-all_found}
use simple_logging.Indexes.Page.Hits.{all_found-IsSorted}
use simple_logging.Indexes.Field.{Codecs, Place, shard_number, valid_key}
use simple_logging.Indexes.Rebuild.Walk.{places}
use simple_logging.Indexes.Rebuild.Shards.{in_shard, key_refs, IsWhole}
use simple_logging.Indexes.Keys.{Manifest, Manager, CreateCalls, create, get_key_logs}
use simple_logging.Indexes.Keys.Created.{create-indexed, create-IsCreated}
use simple_logging.Indexes.Keys.Timed.{
  line_earlier, IsTimed, All-in_shard, All-all_found, key_refs-IsTimed, length-lines_of,
  lines_of-IsSorted,
}
use simple_logging.Indexes.Keys.Found.{IsServed, all_matching, shard-matching}

length-in_shard : (c : Codecs) (n : ℕ) (rs : List Reference) → length (in_shard c n rs) ≤ length rs
unfolding in_shard
length-in_shard c n [] = omega arith
length-in_shard c n (r ∷ rs) = ground (arith, length-in_shard c n rs)

length-found :
    (logs_root : List ℕ) (files : Files) (value : List ℕ) (n : ℕ) (rs : List Reference)
    → length (found logs_root files value n rs) ≤ length rs
unfolding found
length-found logs_root files value n [] = omega arith
length-found logs_root files value n (r ∷ rs) =
    elim (Bool-cases (text_eq r.value value && is_available logs_root files r)) [
      | inl hit ↦ rw hit (omega (arith, length-found logs_root files value (n + 1) rs))
      | inr miss ↦ rw miss (omega (arith, length-found logs_root files value n rs))
    ]

-- A shard that the appends of references gave stores them.
append_all-Stores :
    (rs : List Reference) (shard : Option (List ℕ))
    → All Fits rs
    → append_all none rs ≡ ok shard
    → Stores shard rs
unfolding append_all visit_all scan_shard
append_all-Stores [] none h e = λ S visit s. refl
append_all-Stores [] (some file) h e = absurd (cc e)
append_all-Stores (r ∷ rs) shard (h, hs) e =
    let (file, made, stores) = append_all-stored r rs h hs in
    let same : some file ≡ shard = cc (made, e) in subst (λ t. Stores t (r ∷ rs)) same stores

module _ {Doc : Type 0} (marshal : Manifest → Doc) (unmarshal : Doc → Option Manifest) (c : Codecs)
    (logs_root : List ℕ) where
  -- Follow the next-page tokens of `GetLogs`; `none` is an error or too little fuel.
  unfoldable pub walk_key :
      Files → Manager Doc → List ℕ → List ℕ → ℕ → ℕ → List ℕ → Option (List (List ℕ))
  walk_key files m key value size zero token = none
  walk_key files m key value size (suc fuel) token =
      elim (get_key_logs marshal unmarshal c logs_root files m key value size token false) [
        | err e ↦ none
        | ok (lines, next, _) ↦ elim (text_eq next []) [
          | true ↦ some lines
          | false ↦ elim (walk_key files m key value size fuel next) [
            | none ↦ none
            | some more ↦ some (lines ++ more)
          ]
        ]
      ]

  walk_key-walk_forward :
      (files : Files) (m : Manager Doc) (key value : List ℕ) (rs : List Reference)
      (stores : Stores (m.indexes key (shard_number c value)) rs) (size fuel : ℕ) (token : List ℕ)
      → valid_key key ≡ true
      → contains_string m.keys key ≡ true
      → walk_key files m key value size fuel token
        ≡ walk_forward logs_root files value
            (m.indexes key (shard_number c value))
            rs
            stores
            size
            fuel
            token
  unfolding walk_key walk_forward get_key_logs
  walk_key-walk_forward files m key value rs stores size zero token valid there = refl
  walk_key-walk_forward files m key value rs stores size (suc fuel) token valid there =
      let ih = λ (next : List ℕ).
        walk_key-walk_forward files m key value rs stores size fuel next valid there in
      rw (walk_key, valid, there)
        (λ i.
          elim (get_index_logs logs_root files (m.indexes key (shard_number c value)) value size
            token false) [
              | err e ↦ none
              | ok (lines, next, _) ↦ elim (text_eq next []) [
                | true ↦ some lines
                | false ↦ elim (ih next i) [ none ↦ none | some more ↦ some (lines ++ more) ]
              ]
            ])

  module _ (parse_date : List ℕ → Option ℕ) (lines : Place → List (List ℕ)) where
    -- If Create of a new key ends without an error, on segments of whole lines below 2^63 bytes
    -- with lines below 2^32 bytes, and the references to the lines fit the record format and are
    -- fewer than 2^63: a client of Manager.GetLogs that starts without a token and follows the
    -- next-page tokens gets, for any value and page size, exactly the stored lines, without line
    -- ends, whose JSON value for the key is that value, each as often as it is stored, sorted by
    -- the time in front of their first space, those without a valid time last; one more request
    -- than lines are found is enough.
    pub create-pages :
        (key value : List ℕ) (size : ℕ) (calls : CreateCalls Doc) (m m' : Manager Doc)
        → contains_string m.keys key ≡ false
        → All (IsWhole c lines calls.disk logs_root) (places calls.disk parse_date)
        → All (IsServed c logs_root calls.disk.files key value lines) (places calls.disk parse_date)
        → All Fits (key_refs c lines key (places calls.disk parse_date))
        → length (key_refs c lines key (places calls.disk parse_date)) < 2 ^ 63
        → create marshal unmarshal c logs_root parse_date key calls m ≡ (m', none)
        → (found_lines : List (List ℕ)) × (walk_key calls.disk.files m' key value size
              (suc (length found_lines))
              []
            ≡ some found_lines)
          × IsSorted (line_earlier c) found_lines
          × Perm found_lines (
              all_matching c logs_root calls.disk.files key value lines
                (places calls.disk parse_date))
    unfolding contains_string
    create-pages key value size calls m m' fresh whole served fits few done =
        let files = calls.disk.files in
        let ps = places calls.disk parse_date in
        let n = shard_number c value in
        let rs = in_shard c n (key_refs c lines key ps) in
        let es = all_found logs_root files value rs in
        let (keys, shards, _, _) =
          create-indexed marshal unmarshal c logs_root parse_date lines key calls m m' fresh whole
            done in
        let valid =
          (create-IsCreated marshal unmarshal c logs_root parse_date key calls m m' fresh
            done).is_valid in
        let there : contains_string m'.keys key ≡ true =
          rw (keys, contains_string, text_eq_self key) refl in
        let stores : Stores (m'.indexes key n) rs =
          append_all-Stores rs (m'.indexes key n)
            (All-in_shard Fits c n (key_refs c lines key ps) fits) (shards n) in
        let small : length es < 2 ^ 63 = omega (
          arith,
          length-all_found logs_root files value rs,
          length-found logs_root files value 0 rs,
          length-in_shard c n (key_refs c lines key ps),
        ) in
        let timed = All-all_found (IsTimed c logs_root files) logs_root files value rs (
          All-in_shard (IsTimed c logs_root files) c n (key_refs c lines key ps)
            (key_refs-IsTimed c logs_root files key value lines ps served)) in
        (
          lines_of logs_root files es,
          rw (length-lines_of c logs_root files es timed) (
              walk_key-walk_forward files m' key value rs stores size (suc (length es)) [] valid
                there
              ∙ walk_forward-all_found logs_root files value (m'.indexes key n) rs stores size
                  small),
          lines_of-IsSorted c logs_root files es timed
              (all_found-IsSorted logs_root files value rs),
          shard-matching c logs_root files key value lines ps served,
        )
