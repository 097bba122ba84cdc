-- ===== src/Indexes/Keys/Saved.antt =====
-- server/internal/indexes/manager.go: the set of keys over creations, deletions and restarts.
use simple_logging.Prelude.{
  ℕ, ◌≡◌, refl, sym, ◌∙◌, true, false, ◌&&◌, List, [], ◌∷◌, Option, some, ok, Bool-cases, and_both,
  inl, inr, arith,
}
use simple_logging.Prelude.Text.{text_eq, text_eq_iff, text_lt}
use simple_logging.Paging.Sort.{sort}
use simple_logging.Storage.Layout.{contains_string}
use simple_logging.Storage.Layout.Changes.{contains_string-sort}
use simple_logging.Indexes.Field.{valid_key}
use simple_logging.Indexes.Rebuild.{Index}
use simple_logging.Indexes.Keys.KeySet.{
  Distinct, contains_string-without, load_keys-Distinct, contains_string-load_keys,
}
use simple_logging.Indexes.Keys.{
  Manifest, Manager, written, without, load_keys, load_manifest, sorted_keys_locked, save_locked,
  index_format_version,
}

-- The keys are valid and distinct, and a restart would load the same set, with no migration.
pub record IsSaved {Doc : Type 0} (marshal : Manifest → Doc) (unmarshal : Doc → Option Manifest)
    (m : Manager Doc) : Type 0 where
  pub all_valid : (k : List ℕ) → contains_string m.keys k ≡ true → valid_key k ≡ true
  pub distinct : Distinct m.keys
  pub loads :
      (ks : List (List ℕ)) × (load_manifest marshal unmarshal true m.manifest ≡ ok (ks, false))
      × Distinct ks
      × ((k : List ℕ) → contains_string ks k ≡ contains_string m.keys k)

module _ {Doc : Type 0} (marshal : Manifest → Doc) (unmarshal : Doc → Option Manifest) where
  -- The same set of keys, with the manifest unchanged.
  pub same_set-IsSaved :
      (m m' : Manager Doc)
      → IsSaved marshal unmarshal m
      → ((k : List ℕ) → contains_string m'.keys k ≡ contains_string m.keys k)
      → Distinct m'.keys
      → m'.manifest ≡ m.manifest
      → IsSaved marshal unmarshal m'
  same_set-IsSaved m m' h same d e =
      let (ks, loaded, dks, there) = h.loads in
      record {
        all_valid = λ k c. h.all_valid k (sym (same k) ∙ c);
        distinct = d;
        loads = (ks, rw e loaded, dks, λ k. there k ∙ sym (same k));
      }

  pub only_indexes-IsSaved :
      (m : Manager Doc) (indexes : List ℕ → Index)
      → IsSaved marshal unmarshal m
      → IsSaved marshal unmarshal (record m { indexes = indexes })
  only_indexes-IsSaved m indexes h =
      same_set-IsSaved m (record m { indexes = indexes }) h (λ k. refl) h.distinct refl

  module _ (decodes : (mf : Manifest) → unmarshal (marshal mf) ≡ some mf) where
    valid_set :
        (ks : List (List ℕ)) (k : List ℕ)
        → ((j : List ℕ) → contains_string ks j ≡ true → valid_key j ≡ true)
        → (valid_key k && contains_string ks k) ≡ contains_string ks k
    valid_set ks k h = elim (Bool-cases (contains_string ks k)) [
      | inl there ↦ rw (there, h k there) refl
      | inr missing ↦ rw missing (ground arith)
    ]

    -- A save that succeeds.
    pub written-IsSaved :
        (m : Manager Doc)
        → ((k : List ℕ) → contains_string m.keys k ≡ true → valid_key k ≡ true)
        → Distinct m.keys
        → IsSaved marshal unmarshal (save_locked marshal unmarshal written m).0
    unfolding save_locked sorted_keys_locked load_manifest contains_string
    written-IsSaved m valid d = record {
      all_valid = valid;
      distinct = d;
      loads = (
        load_keys (sort text_lt m.keys) [],
        rw (decodes (record { keys = sort text_lt m.keys; format_version = index_format_version }))
            refl,
        load_keys-Distinct (sort text_lt m.keys) [] tt,
        λ k.
            contains_string-load_keys (sort text_lt m.keys) [] k
            ∙ rw (contains_string-sort m.keys k) (valid_set m.keys k valid),
      );
    }

    pub new_key_valid :
        (key : List ℕ) (m : Manager Doc)
        → IsSaved marshal unmarshal m
        → valid_key key ≡ true
        → (k : List ℕ) → contains_string (key ∷ m.keys) k ≡ true
        → valid_key k ≡ true
    unfolding contains_string
    new_key_valid key m h valid k c = elim (Bool-cases (text_eq key k)) [
      | inl same ↦ rw ((text_eq_iff key k).0 same) at valid
      | inr other ↦ h.all_valid k (rw other at c)
    ]

    pub without_valid :
        (key : List ℕ) (m : Manager Doc)
        → IsSaved marshal unmarshal m
        → (k : List ℕ) → contains_string (without key m.keys) k ≡ true
        → valid_key k ≡ true
    without_valid key m h k c =
        h.all_valid k (and_both (rw (contains_string-without key k m.keys) at c)).1

    pub put_back :
        (key k : List ℕ) (ks : List (List ℕ))
        → contains_string ks key ≡ true
        → contains_string (key ∷ without key ks) k ≡ contains_string ks k
    unfolding contains_string
    put_back key k ks there = elim (Bool-cases (text_eq key k)) [
      | inl same ↦ rw same (sym (rw ((text_eq_iff key k).0 same) at there))
      | inr other ↦ rw (other, contains_string-without key k ks, other) refl
    ]
