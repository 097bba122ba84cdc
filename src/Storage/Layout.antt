-- ===== src/Storage/Layout.antt =====
-- server/internal/storage/layout.go: the names in the logs' directories, and a pod's meta.json with the
-- updates that read it, change it and write it back.
pub mod Changes
pub mod Facts
use simple_logging.Prelude.{
  ℕ, ◌+◌, ◌≡◌, Bool, true, false, not, ◌&&◌, ◌||◌, List, [], ◌∷◌, ◌++◌, Option, none, some, ltb,
  ◌==◌, if◌then◌else◌, Result, ok, err,
}
use simple_logging.Prelude.Text.{codes, text_eq, text_lt, has_suffix, trim_suffix}
use simple_logging.Paging.Sort.{sort}

-- `PodMeta`; a time is 0 while it is not set.
pub record PodMeta : Type 0 where
  pub namespace : List ℕ
  pub pod : List ℕ
  pub containers : List (List ℕ)
  pub first_seen : ℕ
  pub last_seen : ℕ
  pub owner_kind : List ℕ
  pub owner_name : List ℕ
  pub cron_job_name : List ℕ

abbrev pub zero_meta : List ℕ → List ℕ → PodMeta
zero_meta namespace pod = record {
  namespace = namespace;
  pod = pod;
  containers = [];
  first_seen = 0;
  last_seen = 0;
  owner_kind = [];
  owner_name = [];
  cron_job_name = [];
}

unfoldable pub contains_string : List (List ℕ) → List ℕ → Bool
contains_string [] s = false
contains_string (v ∷ vs) s = text_eq v s || contains_string vs s

-- What `recordContainerSeen` does to the metadata.
unfoldable pub see_container : List ℕ → List ℕ → List ℕ → ℕ → PodMeta → PodMeta
see_container namespace pod container at meta = record meta {
  namespace = namespace;
  pod = pod;
  first_seen = if meta.first_seen == 0 then at else meta.first_seen;
  last_seen = if ltb meta.last_seen at then at else meta.last_seen;
  containers =
      if not (contains_string meta.containers container)
      then sort text_lt (meta.containers ++ (container ∷ []))
      else meta.containers;
}

-- What `RecordOwner` does to the metadata.
unfoldable pub set_owner : List ℕ → List ℕ → List ℕ → List ℕ → List ℕ → PodMeta → PodMeta
set_owner namespace pod kind name cron_job meta = record meta {
  namespace = namespace;
  pod = pod;
  owner_kind = kind;
  owner_name = name;
  cron_job_name = cron_job;
}

pub data MetaError : Type 0 where
  read_failed : MetaError
  invalid_json : MetaError
  write_failed : MetaError

-- How the system calls of an update end: whether the file can be read, and whether the directory,
-- the temporary file and its renaming succeed.
pub record MetaCalls : Type 0 where
  pub readable : Bool
  pub written : Bool

-- An entry of a directory.
pub record DirEntry : Type 0 where
  pub name : List ℕ
  pub is_dir : Bool

abbrev log_suffix : List ℕ
log_suffix = codes ".log"

-- `SegmentDate`; `parse_date` is time.Parse with the form of segment names.
unfoldable pub segment_date : (List ℕ → Option ℕ) → List ℕ → Option ℕ
segment_date parse_date name =
    if not (has_suffix name log_suffix) then none else parse_date (trim_suffix name log_suffix)

segments_in : (List ℕ → Option ℕ) → List DirEntry → List (List ℕ)
segments_in parse_date [] = []
segments_in parse_date (e ∷ es) =
    let rest = segments_in parse_date es in
    if e.is_dir then rest else elim (segment_date parse_date e.name) [
      | none ↦ rest
      | some date ↦ trim_suffix e.name log_suffix ∷ rest
    ]

-- `ListSegments` on the entries of the container's directory.
unfoldable pub list_segments : (List ℕ → Option ℕ) → List DirEntry → List (List ℕ)
unfolding segments_in
list_segments parse_date entries = sort text_lt (segments_in parse_date entries)

dirs_in : List DirEntry → List (List ℕ)
dirs_in [] = []
dirs_in (e ∷ es) = let rest = dirs_in es in if e.is_dir then e.name ∷ rest else rest

-- `ListContainers` and `ListPodDirs` on the entries of the directory.
unfoldable pub list_dirs : List DirEntry → List (List ℕ)
unfolding dirs_in
list_dirs entries = sort text_lt (dirs_in entries)

-- `marshal` and `unmarshal` are encoding/json on `PodMeta`, with texts of the type `Doc`. A file is `none` where it does not exist.
module _ {Doc : Type 0} (marshal : PodMeta → Doc) (unmarshal : Doc → Option PodMeta) where
  unfoldable pub read_pod_meta : List ℕ → List ℕ → Bool → Option Doc → Result MetaError PodMeta
  read_pod_meta namespace pod false file = err read_failed
  read_pod_meta namespace pod true none = ok (zero_meta namespace pod)
  read_pod_meta namespace pod true (some bytes) = elim (unmarshal bytes) [
    | none ↦ err invalid_json
    | some meta ↦ ok meta
  ]

  -- `WritePodMeta`: the file changes only by the renaming at its end.
  unfoldable pub write_pod_meta :
      Bool → PodMeta → Option Doc → Result MetaError (Unit {0}) × Option Doc
  write_pod_meta true meta file = (ok tt, some (marshal meta))
  write_pod_meta false meta file = (err write_failed, file)

  -- Both updates: the metadata is read, changed and written under the lock.
  unfoldable pub update_meta :
      List ℕ
      → List ℕ
      → (PodMeta → PodMeta)
      → MetaCalls
      → Option Doc
      → Result MetaError (Unit {0}) × Option Doc
  update_meta namespace pod change calls file =
      elim (read_pod_meta namespace pod calls.readable file) [
        | err e ↦ (err e, file)
        | ok meta ↦ write_pod_meta calls.written (change meta) file
      ]

  unfoldable pub record_container_seen :
      List ℕ
      → List ℕ
      → List ℕ
      → ℕ
      → MetaCalls
      → Option Doc
      → Result MetaError (Unit {0}) × Option Doc
  unfolding update_meta
  record_container_seen namespace pod container at calls file =
      update_meta namespace pod (see_container namespace pod container at) calls file

  unfoldable pub record_owner :
      List ℕ
      → List ℕ
      → List ℕ
      → List ℕ
      → List ℕ
      → MetaCalls
      → Option Doc
      → Result MetaError (Unit {0}) × Option Doc
  unfolding update_meta
  record_owner namespace pod kind name cron_job calls file =
      update_meta namespace pod (set_owner namespace pod kind name cron_job) calls file
