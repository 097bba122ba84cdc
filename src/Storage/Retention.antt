-- ===== src/Storage/Retention.antt =====
-- server/internal/storage/retention.go: the sweep of one pod's directory, `sweepPodDirLocked`.
-- A directory is the list of its entries. Whether os.Remove or os.ReadDir works on an entry is a
-- field of it; os.Remove of a directory works only on an empty one.
pub mod Kept
pub mod Tree
pub mod KeptTree
use simple_logging.Prelude.{
  ℕ, zero, suc, ◌+◌, ◌-◌, ◌≤◌, ◌<◌, ◌≡◌, refl, sym, ap, ◌∙◌, Bool, true, false, not, ◌&&◌, ◌||◌,
  List, [], ◌∷◌, ◌++◌, Option, none, some, length, take, ltb, leb, ◌==◌, if◌then◌else◌, ◌⊎◌, inl,
  inr, Bool-cases, Option-cases, arith, All,
}
use simple_logging.Prelude.Text.{text_eq}

pub record FileEntry : Type 0 where
  pub name : List ℕ
  pub is_dir : Bool
  pub removable : Bool

pub record ContainerDir : Type 0 where
  pub name : List ℕ
  pub entries : List FileEntry
  pub readable : Bool
  pub removable : Bool

-- The pod's containers, whether it has a meta.json, whether that can be removed, and how many other
-- files it has.
pub record PodDir : Type 0 where
  pub containers : List ContainerDir
  pub has_meta : Bool
  pub meta_removable : Bool
  pub other_files : ℕ
  pub readable : Bool
  pub removable : Bool

-- What the loop over a container's entries leaves: the files, `remaining` and `deleted`.
pub record Swept : Type 0 where
  pub left : List FileEntry
  pub remaining : ℕ
  pub deleted : ℕ

-- What the loop over the containers leaves.
pub record SweptPod : Type 0 where
  pub containers : List ContainerDir
  pub any_left : Bool
  pub deleted : ℕ

-- `segment_date` is `SegmentDate`, which is time.Parse on the name without ".log".
module _ (segment_date : List ℕ → Option ℕ) (cutoff : ℕ) where
  -- A file that is a segment from before the cutoff date.
  unfoldable pub is_expired : FileEntry → Bool
  is_expired e =
      if e.is_dir
      then false
      else (elim (segment_date e.name) [ none ↦ false | some date ↦ ltb date cutoff ])

  unfoldable pub is_segment : FileEntry → Bool
  is_segment e =
      if e.is_dir then false else (elim (segment_date e.name) [ none ↦ false | some date ↦ true ])

  unfoldable pub sweep_entries : List FileEntry → Swept
  unfolding is_expired is_segment
  sweep_entries [] = record { left = []; remaining = 0; deleted = 0 }
  sweep_entries (e ∷ es) =
      let rest = sweep_entries es in
      if not (is_segment e)
      then record rest { left = e ∷ rest.left }
      else if not (is_expired e)
      then record rest { left = e ∷ rest.left; remaining = rest.remaining + 1 }
      else if not e.removable
      then record rest { left = e ∷ rest.left; remaining = rest.remaining + 1 }
      else record rest { deleted = rest.deleted + 1 }

  -- One container: what is left of it, whether it counts as left, and the deletions.
  unfoldable pub sweep_container : ContainerDir → Option ContainerDir × Bool × ℕ
  unfolding sweep_entries
  sweep_container c =
      let s = sweep_entries c.entries in
      if not c.readable
      then (some c, true, 0)
      else if not (s.remaining == 0)
      then (some (record c { entries = s.left }), true, s.deleted)
      else if c.removable && length s.left == 0
      then (none, false, s.deleted)
      else (some (record c { entries = s.left }), true, s.deleted)

  unfoldable pub sweep_containers : List ContainerDir → SweptPod
  unfolding sweep_container
  sweep_containers [] = record { containers = []; any_left = false; deleted = 0 }
  sweep_containers (c ∷ cs) =
      let (left, is_left, deleted) = sweep_container c in
      let rest = sweep_containers cs in
      record {
        containers = elim left [ none ↦ rest.containers | some c' ↦ c' ∷ rest.containers ];
        any_left = is_left || rest.any_left;
        deleted = deleted + rest.deleted;
      }

  -- `sweepPodDirLocked`: what is left of the pod, and the number of deleted segments.
  unfoldable pub sweep_pod_dir : PodDir → Bool → Option PodDir × ℕ
  unfolding sweep_containers
  sweep_pod_dir p active =
      let s = sweep_containers p.containers in
      let has_meta = p.has_meta && not p.meta_removable in
      if not p.readable
      then (some p, 0)
      else if not s.any_left && not active
      then (
        if p.removable && (not has_meta && (p.other_files == 0 && length s.containers == 0))
            then none
            else some (record p { containers = s.containers; has_meta = has_meta }),
        s.deleted,
      )
      else (some (record p { containers = s.containers }), s.deleted)
