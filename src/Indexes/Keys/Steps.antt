-- ===== src/Indexes/Keys/Steps.antt =====
-- server/internal/indexes/manager.go: every operation on the keys keeps the manifest in step.
use simple_logging.Prelude.{
  ℕ, ◌≡◌, refl, sym, ap, ◌∙◌, true, false, List, [], ◌∷◌, Option, some, All, Bool-cases,
  Option-cases, inl, inr,
}
use simple_logging.Prelude.Text.{text_eq_self}
use simple_logging.Storage.Layout.{contains_string}
use simple_logging.Indexes.Field.{Codecs, Place, valid_key}
use simple_logging.Indexes.Rebuild.{Index, Disk, rebuild}
use simple_logging.Indexes.Keys.KeySet.{contains_string-without, without-Distinct, taken_back}
use simple_logging.Indexes.Keys.{
  Manifest, Manager, CreateCalls, DeleteCalls, SaveCall, not_opened, cut_off, written, without,
  save_locked, rebuild_index, create_saved, create, delete_saved, delete, observe_line_at,
  set_index, new_manager,
}
use simple_logging.Indexes.Keys.Saved.{
  IsSaved, same_set-IsSaved, only_indexes-IsSaved, written-IsSaved, new_key_valid, without_valid,
  put_back,
}

-- The answers to a save that leave the manifest whole.
abbrev pub IsUncut : {Doc : Type 0} → SaveCall Doc → Type 0
IsUncut not_opened = Unit
IsUncut (cut_off doc) = ⊥
IsUncut written = Unit

abbrev pub IsWritten : {Doc : Type 0} → SaveCall Doc → Type 0
IsWritten not_opened = ⊥
IsWritten (cut_off doc) = ⊥
IsWritten written = Unit

-- What happens to the keys: the calls, stored lines, and a restart.
pub data Event (Doc : Type 0) : Type 0 where
  create_key : List ℕ → CreateCalls Doc → Event Doc
  delete_key : List ℕ → DeleteCalls Doc → Event Doc
  observe : (List ℕ → Disk) → Place → ℕ → ℕ → List ℕ → Event Doc
  restart : (List ℕ → Disk × Option Index) → SaveCall Doc → Event Doc

-- No save ends in the middle of the manifest, and taking a key back is saved.
abbrev pub KeepsManifest : {Doc : Type 0} → Event Doc → Type 0
KeepsManifest (create_key key calls) = IsUncut calls.save × IsWritten calls.undo
KeepsManifest (delete_key key calls) = IsUncut calls.save
KeepsManifest (observe disks at offset n line) = Unit
KeepsManifest (restart answers save) = Unit

module _ {Doc : Type 0} (marshal : Manifest → Doc) (unmarshal : Doc → Option Manifest) (c : Codecs)
    (logs_root : List ℕ) (parse_date : List ℕ → Option ℕ) where
  unfoldable pub apply : Event Doc → Manager Doc → Manager Doc
  apply (create_key key calls) m = (create marshal unmarshal c logs_root parse_date key calls m).0
  apply (delete_key key calls) m = (delete marshal unmarshal c logs_root parse_date key calls m).0
  apply (observe disks at offset n line) m =
      observe_line_at marshal unmarshal c logs_root parse_date disks at offset n line m
  apply (restart answers save) m =
      new_manager marshal unmarshal c logs_root parse_date true answers save m

  unfoldable pub run_events : List (Event Doc) → Manager Doc → Manager Doc
  run_events [] m = m
  run_events (e ∷ es) m = run_events es (apply e m)

module _ {Doc : Type 0} (marshal : Manifest → Doc) (unmarshal : Doc → Option Manifest)
    (decodes : (mf : Manifest) → unmarshal (marshal mf) ≡ some mf) (c : Codecs) (logs_root : List ℕ)
    (parse_date : List ℕ → Option ℕ) where
  create_saved-IsSaved :
      (key : List ℕ) (calls : CreateCalls Doc) (m : Manager Doc) (save undo : SaveCall Doc)
      → IsSaved marshal unmarshal m
      → valid_key key ≡ true
      → contains_string m.keys key ≡ false
      → IsUncut save
      → IsWritten undo
      → calls.undo ≡ undo
      → IsSaved marshal unmarshal
          (create_saved marshal unmarshal c logs_root parse_date key calls
            (save_locked marshal unmarshal save (record m { keys = key ∷ m.keys }))).0
  unfolding create_saved save_locked rebuild_index
  create_saved-IsSaved key calls m (cut_off doc) undo h valid fresh u w e = elim u [ ]
  create_saved-IsSaved key calls m not_opened undo h valid fresh u w e =
      same_set-IsSaved marshal unmarshal m (record m { keys = without key (key ∷ m.keys) }) h
        (λ k. ap (λ ks. contains_string ks k) (taken_back key m.keys fresh))
        (rw (taken_back key m.keys fresh) h.distinct) refl
  create_saved-IsSaved key calls m written not_opened h valid fresh u w e = elim w [ ]
  create_saved-IsSaved key calls m written (cut_off doc) h valid fresh u w e = elim w [ ]
  create_saved-IsSaved key calls m written written h valid fresh u w e =
      let added : Manager Doc = record m { keys = key ∷ m.keys } in
      let saved =
        written-IsSaved marshal unmarshal decodes added
          (new_key_valid marshal unmarshal decodes key m h valid) (fresh, h.distinct) in
      elim (Option-cases (rebuild c calls.disk key logs_root parse_date calls.left).1) [
        | inl fine ↦ rw (fine, create_saved) (only_indexes-IsSaved marshal unmarshal _ _ saved)
        | inr (x, failed) ↦
            let back = taken_back key m.keys fresh in
            rw (failed, create_saved, e)
              (written-IsSaved marshal unmarshal decodes
                (record m {
                  keys = without key (key ∷ m.keys);
                  indexes =
                      set_index m.indexes key
                        (rebuild c calls.disk key logs_root parse_date calls.left).0;
                })
                (λ k t. h.all_valid k (ap (λ ks. contains_string ks k) (sym back) ∙ t))
                (rw back h.distinct))
      ]

  create-IsSaved :
      (key : List ℕ) (calls : CreateCalls Doc) (m : Manager Doc)
      → IsSaved marshal unmarshal m
      → IsUncut calls.save
      → IsWritten calls.undo
      → IsSaved marshal unmarshal (create marshal unmarshal c logs_root parse_date key calls m).0
  unfolding create
  create-IsSaved key calls m h u w = elim (Bool-cases (valid_key key)) [
    | inr wrong ↦ rw (wrong, create) h
    | inl valid ↦ elim (Bool-cases calls.root_made) [
      | inr missing ↦ rw (valid, missing, create) h
      | inl made ↦ elim (Bool-cases (contains_string m.keys key)) [
        | inl there ↦ rw (valid, made, there, create) h
        | inr fresh ↦
            rw (valid, made, fresh, create)
              (create_saved-IsSaved key calls m calls.save calls.undo h valid fresh u w refl)
      ]
    ]
  ]

  delete_saved-IsSaved :
      (key : List ℕ) (calls : DeleteCalls Doc) (m : Manager Doc) (save : SaveCall Doc)
      → IsSaved marshal unmarshal m
      → contains_string m.keys key ≡ true
      → IsUncut save
      → IsSaved marshal unmarshal
          (delete_saved marshal unmarshal c logs_root parse_date key calls
            (save_locked marshal unmarshal save (record m { keys = without key m.keys }))).0
  unfolding delete_saved save_locked
  delete_saved-IsSaved key calls m (cut_off doc) h there u = elim u [ ]
  delete_saved-IsSaved key calls m not_opened h there u =
      same_set-IsSaved marshal unmarshal m (record m { keys = key ∷ without key m.keys }) h
        (λ k. put_back marshal unmarshal decodes key k m.keys there)
        (
          rw (contains_string-without key key m.keys, text_eq_self key) refl,
          without-Distinct key m.keys h.distinct,
        )
        refl
  delete_saved-IsSaved key calls m written h there u =
      let removed : Manager Doc = record m { keys = without key m.keys } in
      let saved =
        written-IsSaved marshal unmarshal decodes removed
          (without_valid marshal unmarshal decodes key m h)
          (without-Distinct key m.keys h.distinct) in
      elim (Option-cases calls.left) [
        | inl gone ↦ rw (gone, delete_saved) (only_indexes-IsSaved marshal unmarshal _ _ saved)
        | inr (left, failed) ↦
            rw (failed, delete_saved) (only_indexes-IsSaved marshal unmarshal _ _ saved)
      ]

  delete-IsSaved :
      (key : List ℕ) (calls : DeleteCalls Doc) (m : Manager Doc)
      → IsSaved marshal unmarshal m
      → IsUncut calls.save
      → IsSaved marshal unmarshal (delete marshal unmarshal c logs_root parse_date key calls m).0
  unfolding delete
  delete-IsSaved key calls m h u = elim (Bool-cases (valid_key key)) [
    | inr wrong ↦ rw (wrong, delete) h
    | inl valid ↦ elim (Bool-cases (contains_string m.keys key)) [
      | inr missing ↦ rw (valid, missing, delete) h
      | inl there ↦
          rw (valid, there, delete) (delete_saved-IsSaved key calls m calls.save h there u)
    ]
  ]

  -- A restart on a manifest that can be read.
  restart-IsSaved :
      (answers : List ℕ → Disk × Option Index) (save : SaveCall Doc) (m : Manager Doc)
      → IsSaved marshal unmarshal m
      → IsSaved marshal unmarshal
          (new_manager marshal unmarshal c logs_root parse_date true answers save m)
  unfolding new_manager
  restart-IsSaved answers save m h =
      let (ks, loaded, d, same) = h.loads in
      rw (loaded, new_manager)
        (same_set-IsSaved marshal unmarshal m (record m { keys = ks }) h same d refl)

  apply-IsSaved :
      (e : Event Doc) (m : Manager Doc)
      → KeepsManifest e
      → IsSaved marshal unmarshal m
      → IsSaved marshal unmarshal (apply marshal unmarshal c logs_root parse_date e m)
  unfolding apply observe_line_at
  apply-IsSaved (create_key key calls) m (u, w) h = create-IsSaved key calls m h u w
  apply-IsSaved (delete_key key calls) m u h = delete-IsSaved key calls m h u
  apply-IsSaved (observe disks at offset n line) m u h =
      only_indexes-IsSaved marshal unmarshal m _ h
  apply-IsSaved (restart answers save) m u h = restart-IsSaved answers save m h

  -- If decoding inverts encoding: from a state in which the keys are valid and distinct and a
  -- restart would load the same set, any sequence of Create, Delete, ObserveLineAt and restarts
  -- that can read the manifest leads to such a state, whatever fails, as long as no save ends in
  -- the middle of the manifest and a key whose index cannot be built is taken out of the manifest
  -- again.
  pub run_events-IsSaved :
      (es : List (Event Doc)) (m : Manager Doc)
      → All KeepsManifest es
      → IsSaved marshal unmarshal m
      → IsSaved marshal unmarshal (run_events marshal unmarshal c logs_root parse_date es m)
  unfolding run_events
  run_events-IsSaved [] m u h = h
  run_events-IsSaved (e ∷ es) m (u, us) h =
      run_events-IsSaved es (apply marshal unmarshal c logs_root parse_date e m) us
        (apply-IsSaved e m u h)
