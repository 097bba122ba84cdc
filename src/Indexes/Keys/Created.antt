-- ===== src/Indexes/Keys/Created.antt =====
-- server/internal/indexes/manager.go: what `Create` leaves behind.
use mathlib.Core.Path.{subst}
use simple_logging.Prelude.{
  ℕ, ◌≡◌, refl, sym, ap, ◌∙◌, true, false, List, ◌∷◌, Option, none, some, All, ok, Bool-cases,
  Option-cases, inl, inr,
}
use simple_logging.Prelude.Text.{text_eq, text_lt, text_eq_self}
use simple_logging.Paging.Sort.{sort}
use simple_logging.Storage.Layout.{contains_string}
use simple_logging.Indexes.Reference.{Error}
use simple_logging.Indexes.Reference.Scan.{append_all}
use simple_logging.Indexes.Field.{Codecs, Place, valid_key}
use simple_logging.Indexes.Rebuild.{Index, Outcome, rebuild}
use simple_logging.Indexes.Rebuild.Walk.{places}
use simple_logging.Indexes.Rebuild.Shards.{in_shard, key_refs, IsWhole, rebuild-shards}
use simple_logging.Indexes.Keys.{
  Manifest, Manager, CreateCalls, SaveCall, not_opened, cut_off, written, create, create_saved,
  save_locked, sorted_keys_locked, index_format_version, rebuild_index, set_index, without,
}
use simple_logging.Indexes.Keys.KeySet.{taken_back}

pair_eq : {A B : Type 0} {p : A × B} {a : A} {b : B} → p.0 ≡ a → p.1 ≡ b → p ≡ (a, b)
pair_eq h k = λ i. (h i, k i)

module _ {Doc : Type 0} (marshal : Manifest → Doc) (unmarshal : Doc → Option Manifest) (c : Codecs)
    (logs_root : List ℕ) (parse_date : List ℕ → Option ℕ) where
  -- A key that was new and is created without an error passed the check, was saved, and its index
  -- is the rebuilt one.
  pub record IsCreated (key : List ℕ) (calls : CreateCalls Doc) (m m' : Manager Doc) : Type 0 where
    pub is_valid : valid_key key ≡ true
    pub new_keys : m'.keys ≡ key ∷ m.keys
    pub saved :
        m'.manifest
        ≡ some (
            marshal (record {
              keys = sorted_keys_locked marshal unmarshal m';
              format_version = index_format_version;
            }))
    pub rebuilt : rebuild c calls.disk key logs_root parse_date calls.left ≡ (m'.indexes key, none)
    pub others : (k : List ℕ) → text_eq key k ≡ false → m'.indexes k ≡ m.indexes k

  -- The keys and the indexes of all others are those before.
  abbrev pub IsUnchanged : List ℕ → Manager Doc → Manager Doc → Type 0
  IsUnchanged key m m' =
      (m'.keys ≡ m.keys) × ((k : List ℕ) → text_eq key k ≡ false → m'.indexes k ≡ m.indexes k)

  abbrev created_state : List ℕ → Manager Doc → Index → Manager Doc
  created_state key m built = record {
    keys = key ∷ m.keys;
    manifest = some (
        marshal
          (record { keys = sort text_lt (key ∷ m.keys); format_version = index_format_version }));
    indexes = set_index m.indexes key built;
  }

  -- From the saving of the key on.
  create_saved-IsCreated :
      (key : List ℕ) (calls : CreateCalls Doc) (m m' : Manager Doc)
      → valid_key key ≡ true
      → (save : SaveCall Doc)
      → create_saved marshal unmarshal c logs_root parse_date key calls
          (save_locked marshal unmarshal save (record m { keys = key ∷ m.keys }))
        ≡ (m', none)
      → IsCreated key calls m m'
  unfolding create_saved save_locked rebuild_index sorted_keys_locked
  create_saved-IsCreated key calls m m' valid not_opened e = absurd (cc e)
  create_saved-IsCreated key calls m m' valid (cut_off doc) e = absurd (cc e)
  create_saved-IsCreated key calls m m' valid written e =
      elim (Option-cases (rebuild c calls.disk key logs_root parse_date calls.left).1) [
        | inr (x, failed) ↦ absurd (cc (rw (failed, create_saved) at e))
        | inl fine ↦
            let built = (rebuild c calls.disk key logs_root parse_date calls.left).0 in
            let q : created_state key m built ≡ m' =
              ap (λ (r : Outcome (Manager Doc)). r.0) (rw (fine, create_saved) at e) in
            let here : set_index m.indexes key built key ≡ m'.indexes key =
              ap (λ (t : Manager Doc). t.indexes key) q in
            let same : built ≡ m'.indexes key = rw (text_eq_self key) at here in
            record {
              is_valid = valid;
              new_keys = sym (ap (λ (t : Manager Doc). t.keys) q);
              saved =
                  subst
                    (λ t.
                      t.manifest
                      ≡ some (
                          marshal (record {
                            keys = sorted_keys_locked marshal unmarshal t;
                            format_version = index_format_version;
                          })))
                    q refl;
              rebuilt = pair_eq same fine;
              others = λ k apart. rw apart at (sym (ap (λ (t : Manager Doc). t.indexes k) q));
            }
      ]

  pub create-IsCreated :
      (key : List ℕ) (calls : CreateCalls Doc) (m m' : Manager Doc)
      → contains_string m.keys key ≡ false
      → create marshal unmarshal c logs_root parse_date key calls m ≡ (m', none)
      → IsCreated key calls m m'
  unfolding create
  create-IsCreated key calls m m' fresh e = elim (Bool-cases (valid_key key)) [
    | inr wrong ↦ absurd (cc (rw (wrong, create) at e))
    | inl valid ↦ elim (Bool-cases calls.root_made) [
      | inr missing ↦ absurd (cc (rw (valid, missing, create) at e))
      | inl made ↦
          create_saved-IsCreated key calls m m' valid calls.save
            (rw (valid, made, fresh, create) at e)
    ]
  ]

  -- If Create of a new key ends without an error and the segments of the tree have whole lines:
  -- the key is added to the keys, the manifest has the sorted keys and the current version, the
  -- other indexes are unchanged, and each shard of the key is the file that appending the
  -- references of its number to a new shard gives, in the order of the walk through namespaces,
  -- pods, containers and segments.
  pub create-indexed :
      (lines : Place → List (List ℕ)) (key : List ℕ) (calls : CreateCalls Doc) (m m' : Manager Doc)
      → contains_string m.keys key ≡ false
      → All (IsWhole c lines calls.disk logs_root) (places calls.disk parse_date)
      → create marshal unmarshal c logs_root parse_date key calls m ≡ (m', none)
      → (m'.keys ≡ key ∷ m.keys)
        × ((n : ℕ)
            → append_all none (in_shard c n (key_refs c lines key (places calls.disk parse_date)))
              ≡ ok (m'.indexes key n))
        × ((k : List ℕ) → text_eq key k ≡ false → m'.indexes k ≡ m.indexes k)
        × (m'.manifest
            ≡ some (
                marshal (record {
                  keys = sorted_keys_locked marshal unmarshal m';
                  format_version = index_format_version;
                })))
  create-indexed lines key calls m m' fresh whole e =
      let done = create-IsCreated key calls m m' fresh e in
      (
        done.new_keys,
        λ n.
            rebuild-shards c lines calls.disk key logs_root parse_date calls.left (m'.indexes key) n
              whole done.rebuilt,
        done.others,
        done.saved,
      )

  save_locked-kept :
      (save : SaveCall Doc) (m : Manager Doc)
      → ((save_locked marshal unmarshal save m).0.keys ≡ m.keys)
        × ((save_locked marshal unmarshal save m).0.indexes ≡ m.indexes)
  unfolding save_locked
  save_locked-kept not_opened m = (refl, refl)
  save_locked-kept (cut_off doc) m = (refl, refl)
  save_locked-kept written m = (refl, refl)

  -- Behind a save that fails, and behind a rebuild that fails.
  create_saved-failed :
      (key : List ℕ) (calls : CreateCalls Doc) (m : Manager Doc) (e : Error) (save : SaveCall Doc)
      → contains_string m.keys key ≡ false
      → (create_saved marshal unmarshal c logs_root parse_date key calls
          (save_locked marshal unmarshal save (record m { keys = key ∷ m.keys }))).1
        ≡ some e
      → IsUnchanged key m
          (create_saved marshal unmarshal c logs_root parse_date key calls
            (save_locked marshal unmarshal save (record m { keys = key ∷ m.keys }))).0
  unfolding create_saved save_locked rebuild_index sorted_keys_locked
  create_saved-failed key calls m e not_opened fresh q =
      (taken_back key m.keys fresh, λ k apart. refl)
  create_saved-failed key calls m e (cut_off doc) fresh q =
      (taken_back key m.keys fresh, λ k apart. refl)
  create_saved-failed key calls m e written fresh q =
      elim (Option-cases (rebuild c calls.disk key logs_root parse_date calls.left).1) [
        | inl fine ↦ absurd (cc (rw (fine, create_saved) at q))
        | inr (x, failed) ↦
            let (keys, indexes) = save_locked-kept calls.undo (record m {
              keys = without key (key ∷ m.keys);
              manifest = (created_state key m (λ n. none)).manifest;
              indexes =
                  set_index m.indexes key
                    (rebuild c calls.disk key logs_root parse_date calls.left).0;
            }) in
            rw (failed, create_saved)
              (
                keys ∙ taken_back key m.keys fresh,
                λ k apart. ap (λ (f : List ℕ → Index). f k) indexes ∙ rw apart refl,
              )
      ]

  same_state :
      (key : List ℕ) (m m' : Manager Doc) {e e' : Option Error}
      → ◌≡◌ {A = Outcome (Manager Doc)} (m, e) (m', e')
      → IsUnchanged key m m'
  same_state key m m' q =
      subst (IsUnchanged key m) (ap (λ (t : Outcome (Manager Doc)). t.0) q) (refl, λ k apart. refl)

  -- If Create reports an error, the keys are those before, and so are the indexes of all other
  -- keys, whichever step failed and whether or not taking the key back is saved.
  pub create-failed :
      (key : List ℕ) (calls : CreateCalls Doc) (m m' : Manager Doc) (e : Error)
      → create marshal unmarshal c logs_root parse_date key calls m ≡ (m', some e)
      → IsUnchanged key m m'
  unfolding create
  create-failed key calls m m' e q = elim (Bool-cases (valid_key key)) [
    | inr wrong ↦ same_state key m m' (rw (wrong, create) at q)
    | inl valid ↦ elim (Bool-cases calls.root_made) [
      | inr missing ↦ same_state key m m' (rw (valid, missing, create) at q)
      | inl made ↦ elim (Bool-cases (contains_string m.keys key)) [
        | inl there ↦ absurd (cc (rw (valid, made, there, create) at q))
        | inr fresh ↦
            let r = rw (valid, made, fresh, create) at q in
            subst (IsUnchanged key m) (ap (λ (t : Outcome (Manager Doc)). t.0) r) (
              create_saved-failed key calls m e calls.save fresh
                (ap (λ (t : Outcome (Manager Doc)). t.1) r))
      ]
    ]
  ]
