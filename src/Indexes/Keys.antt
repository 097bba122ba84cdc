-- ===== src/Indexes/Keys.antt =====
-- server/internal/indexes/manager.go: the keys of the `Manager` with the manifest that keeps them over a
-- restart, and the operations on whole indexes. The lock makes each operation one step. The files of
-- an index are a function from the key, which `keyRoot` encodes.
pub mod KeySet
pub mod Saved
pub mod Steps
pub mod Created
pub mod Found
pub mod Timed
pub mod Pages
mod Tests
use simple_logging.Prelude.{
  ℕ, ◌≡◌, refl, Bool, true, false, not, ◌&&◌, List, [], ◌∷◌, ◌++◌, Option, none, some, ◌==◌,
  if◌then◌else◌, Result, ok, err,
}
use simple_logging.Prelude.Text.{text_eq, text_lt}
use simple_logging.Paging.Sort.{sort}
use simple_logging.Storage.Layout.{contains_string}
use simple_logging.Indexes.Reference.{Error, invalid_key, not_exist, io, unsupported_format}
use simple_logging.Indexes.Available.{Files}
use simple_logging.Indexes.Field.{Codecs, Place, valid_key, shard_number}
use simple_logging.Indexes.Rebuild.{Index, Outcome, Disk, rebuild, observe_line}
use simple_logging.Indexes.Page.{get_index_logs}

abbrev pub index_format_version : ℕ
index_format_version = 3

-- `manifest`
pub record Manifest : Type 0 where
  pub keys : List (List ℕ)
  pub format_version : ℕ

-- `Manager`, with the files below its root. The keys are a set.
pub record Manager (Doc : Type 0) : Type 0 where
  pub keys : List (List ℕ)
  pub manifest : Option Doc
  pub indexes : List ℕ → Index

-- How a save ends: before the manifest is touched, in the middle of it, or well.
pub data SaveCall (Doc : Type 0) : Type 0 where
  not_opened : SaveCall Doc
  cut_off : Doc → SaveCall Doc
  written : SaveCall Doc

-- The answers of the operating system to one `Create`.
pub record CreateCalls (Doc : Type 0) : Type 0 where
  pub root_made : Bool
  pub save : SaveCall Doc
  pub left : Option Index  -- what a failed removal leaves
  pub disk : Disk
  pub undo : SaveCall Doc

pub record DeleteCalls (Doc : Type 0) : Type 0 where
  pub save : SaveCall Doc
  pub left : Option Index

-- `delete(m.keys, key)`
unfoldable pub without : List ℕ → List (List ℕ) → List (List ℕ)
without key [] = []
without key (k ∷ ks) = let rest = without key ks in if text_eq k key then rest else k ∷ rest

unfoldable pub add_key : List ℕ → List (List ℕ) → List (List ℕ)
add_key key ks = if contains_string ks key then ks else key ∷ ks

abbrev pub set_index : (List ℕ → Index) → List ℕ → Index → List ℕ → Index
set_index indexes key index k = if text_eq key k then index else indexes k

-- The loop of `load` over the manifest's keys.
unfoldable pub load_keys : List (List ℕ) → List (List ℕ) → List (List ℕ)
load_keys [] ks = ks
load_keys (k ∷ more) ks = load_keys more (if valid_key k then add_key k ks else ks)

-- `marshal` and `unmarshal` are encoding/json on `manifest`, with texts of the type `Doc`.
module _ {Doc : Type 0} (marshal : Manifest → Doc) (unmarshal : Doc → Option Manifest) where
  -- `List` and `sortedKeysLocked`
  unfoldable pub sorted_keys_locked : Manager Doc → List (List ℕ)
  sorted_keys_locked m = sort text_lt m.keys

  unfoldable pub save_locked : SaveCall Doc → Manager Doc → Outcome (Manager Doc)
  unfolding sorted_keys_locked
  save_locked not_opened m = (m, some io)
  save_locked (cut_off doc) m = (record m { manifest = some doc }, some io)
  save_locked written m = (
    record m {
      manifest =
          some (
            marshal
              (record { keys = sorted_keys_locked m; format_version = index_format_version }));
    },
    none,
  )

  -- `load`: the keys, and whether the indexes need migration. `readable` is false where the
  -- manifest exists and cannot be opened.
  unfoldable pub load_manifest : Bool → Option Doc → Result Error (List (List ℕ) × Bool)
  load_manifest false doc = err io
  load_manifest true none = ok ([], false)
  load_manifest true (some doc) = elim (unmarshal doc) [
    | none ↦ err unsupported_format
    | some mf ↦ ok (load_keys mf.keys [], not (mf.format_version == index_format_version))
  ]

  module _ (c : Codecs) (logs_root : List ℕ) (parse_date : List ℕ → Option ℕ) where
    -- `rebuildLocked` in the manager's state.
    unfoldable pub rebuild_index :
        List ℕ → Disk → Option Index → Manager Doc → Outcome (Manager Doc)
    rebuild_index key disk left m =
        let (index, e) = rebuild c disk key logs_root parse_date left in
        (record m { indexes = set_index m.indexes key index }, e)

    -- `Create` from the saving of the key on: behind an error the key is taken back.
    unfoldable pub create_saved :
        List ℕ → CreateCalls Doc → Outcome (Manager Doc) → Outcome (Manager Doc)
    unfolding rebuild_index
    create_saved key calls (m, some e) = (record m { keys = without key m.keys }, some e)
    create_saved key calls (m, none) =
        let (built, e) = rebuild_index key calls.disk calls.left m in
        elim e [
          | none ↦ (built, none)
          | some x ↦
              ((save_locked calls.undo (record built { keys = without key built.keys })).0, some x)
        ]

    unfoldable pub create : List ℕ → CreateCalls Doc → Manager Doc → Outcome (Manager Doc)
    unfolding create_saved
    create key calls m =
        if not (valid_key key)
        then (m, some invalid_key)
        else if not calls.root_made
        then (m, some io)
        else if contains_string m.keys key
        then (m, none)
        else create_saved key calls (save_locked calls.save (record m { keys = key ∷ m.keys }))

    -- `Delete` from the saving on: if that fails, the key is put back.
    unfoldable pub delete_saved :
        List ℕ → DeleteCalls Doc → Outcome (Manager Doc) → Outcome (Manager Doc)
    delete_saved key calls (m, some e) = (record m { keys = key ∷ m.keys }, some e)
    delete_saved key calls (m, none) = elim calls.left [
      | none ↦ (record m { indexes = set_index m.indexes key (λ n. none) }, none)
      | some left ↦ (record m { indexes = set_index m.indexes key left }, some io)
    ]

    unfoldable pub delete : List ℕ → DeleteCalls Doc → Manager Doc → Outcome (Manager Doc)
    unfolding delete_saved
    delete key calls m =
        if not (valid_key key)
        then (m, some invalid_key)
        else if not (contains_string m.keys key)
        then (m, some not_exist)
        else delete_saved key calls
            (save_locked calls.save (record m { keys = without key m.keys }))

    -- The loop of `ObserveLineAt` over the keys; a shard of any of them may fail.
    unfoldable pub observe_keys :
        List (List ℕ) → (List ℕ → Disk) → Place → ℕ → ℕ → List ℕ → (List ℕ → Index) → List ℕ → Index
    observe_keys [] disks at offset line_length line indexes = indexes
    observe_keys (k ∷ ks) disks at offset line_length line indexes =
        observe_keys ks disks at offset line_length line
          (set_index indexes k (observe_line c (disks k) k at offset line_length line (indexes k)))

    unfoldable pub observe_line_at :
        (List ℕ → Disk) → Place → ℕ → ℕ → List ℕ → Manager Doc → Manager Doc
    observe_line_at disks at offset line_length line m = record m {
      indexes = observe_keys m.keys disks at offset line_length line m.indexes;
    }

    -- `migrate`: every index in the order of the keys until one fails, then the save.
    unfoldable pub migrate :
        (List ℕ → Disk × Option Index) → SaveCall Doc → List (List ℕ) → Manager Doc → Manager Doc
    migrate answers save [] m = (save_locked save m).0
    migrate answers save (k ∷ ks) m =
        let (disk, left) = answers k in
        let (m', e) = rebuild_index k disk left m in
        let rest = migrate answers save ks m' in elim e [ none ↦ rest | some x ↦ m' ]

    -- `NewManager` over the files of `m`.
    unfoldable pub new_manager :
        Bool → (List ℕ → Disk × Option Index) → SaveCall Doc → Manager Doc → Manager Doc
    new_manager readable answers save m = elim (load_manifest readable m.manifest) [
      | err e ↦ record m { keys = [] }
      | ok (keys, needs_migration) ↦
          let loaded : Manager Doc = record m { keys = keys } in
          let migrated = migrate answers save (sort text_lt keys) loaded in
          if needs_migration then migrated else loaded
    ]

  -- `GetLogs` with the checks of the key, over the value's shard.
  unfoldable pub get_key_logs :
      Codecs
      → List ℕ
      → Files
      → Manager Doc
      → List ℕ
      → List ℕ
      → ℕ
      → List ℕ
      → Bool
      → Result Error (List (List ℕ) × List ℕ × List ℕ)
  get_key_logs c logs_root files m key value page_size page_token load_last_page =
      if not (valid_key key)
      then err invalid_key
      else if not (contains_string m.keys key)
      then err not_exist
      else get_index_logs logs_root files (m.indexes key (shard_number c value)) value page_size
          page_token load_last_page
