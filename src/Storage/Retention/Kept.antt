-- ===== src/Storage/Retention/Kept.antt =====
-- server/internal/storage/retention.go: what a sweep keeps.
use simple_logging.Prelude.{
  ℕ, ◌+◌, ◌≡◌, refl, sym, ap, ◌∙◌, Bool, true, false, not, ◌&&◌, ◌||◌, List, [], ◌∷◌, ◌++◌, Option,
  none, some, length, ◌==◌, if◌then◌else◌, ◌⊎◌, inl, inr, Bool-cases, Option-cases, arith,
}
use simple_logging.Storage.Retention.{
  FileEntry, ContainerDir, PodDir, SweptPod, is_expired, is_segment, sweep_entries, sweep_container,
  sweep_containers, sweep_pod_dir,
}

module _ (segment_date : List ℕ → Option ℕ) (cutoff : ℕ) where
  -- The files that are no expired segments.
  unfoldable pub current : List FileEntry → List FileEntry
  current [] = []
  current (e ∷ es) = if is_expired segment_date cutoff e then current es else e ∷ current es

  -- The expired segments that can be removed.
  unfoldable pub expired_count : List FileEntry → ℕ
  expired_count [] = 0
  expired_count (e ∷ es) =
      (if is_expired segment_date cutoff e && e.removable then 1 else 0) + expired_count es

  is_segment-expired :
      (e : FileEntry)
      → is_segment segment_date cutoff e ≡ false
      → is_expired segment_date cutoff e ≡ false
  unfolding is_segment is_expired
  is_segment-expired e h = elim (Bool-cases e.is_dir) [
    | inl d ↦ rw d refl
    | inr d ↦ elim (Option-cases (segment_date e.name)) [
      | inl n ↦ rw (d, n) refl
      | inr (t, n) ↦ absurd (let q : true ≡ false = rw (d, n) at h in cc)
    ]
  ]

  -- One entry is kept or deleted.
  sweep_entries-current :
      (es : List FileEntry)
      → (current (sweep_entries segment_date cutoff es).left ≡ current es)
        × ((sweep_entries segment_date cutoff es).deleted ≡ expired_count es)
        × (length (sweep_entries segment_date cutoff es).left + expired_count es ≡ length es)
        × (expired_count (sweep_entries segment_date cutoff es).left ≡ 0)
  unfolding sweep_entries current expired_count
  sweep_entries-current [] = (refl, refl, omega arith, refl)
  sweep_entries-current (e ∷ es) =
      let (a, b, c, d) = sweep_entries-current es in
      elim (Bool-cases (is_segment segment_date cutoff e)) [
        | inr other ↦
            simp (sweep_entries, other, current, expired_count, is_segment-expired e other)
              (ap (λ t. e ∷ t) a, omega (arith, b), omega (arith, c), omega (arith, d))
        | inl seg ↦ elim (Bool-cases (is_expired segment_date cutoff e)) [
          | inr young ↦
              simp (sweep_entries, seg, current, expired_count, young)
                (ap (λ t. e ∷ t) a, omega (arith, b), omega (arith, c), omega (arith, d))
          | inl old ↦ elim (Bool-cases e.removable) [
            | inr stuck ↦
                simp (sweep_entries, seg, current, expired_count, old, stuck)
                  (a, omega (arith, b), omega (arith, c), omega (arith, d))
            | inl gone ↦
                simp (sweep_entries, seg, current, expired_count, old, gone)
                  (a, omega (arith, b), omega (arith, c), d)
          ]
        ]
      ]

  -- All files of a pod that are no expired segments.
  unfoldable pub pod_current : List ContainerDir → List FileEntry
  pod_current [] = []
  pod_current (c ∷ cs) = current c.entries ++ pod_current cs

  -- The segments that a sweep of the pod can delete.
  unfoldable pub pod_expired_count : List ContainerDir → ℕ
  pod_expired_count [] = 0
  pod_expired_count (c ∷ cs) =
      (if c.readable then expired_count c.entries else 0) + pod_expired_count cs

  -- A sweep of one container; `left` is what is left of it.
  abbrev KeepsContainer : ContainerDir → Option ContainerDir × Bool × ℕ → Type 0
  KeepsContainer c (none, is_left, n) =
      (current c.entries ≡ []) × (n ≡ (if c.readable then expired_count c.entries else 0))
  KeepsContainer c (some c', is_left, n) =
      (current c'.entries ≡ current c.entries)
      × (is_left ≡ true)
      × (n ≡ (if c.readable then expired_count c.entries else 0))

  length-zero : (es : List FileEntry) → (length es == 0) ≡ true → es ≡ []
  length-zero [] h = refl
  length-zero (e ∷ es) h = absurd (ground arith)

  sweep_container-Keeps :
      (c : ContainerDir) → KeepsContainer c (sweep_container segment_date cutoff c)
  unfolding sweep_container
  sweep_container-Keeps c =
      let (a, b, _, _) = sweep_entries-current c.entries in
      let s = sweep_entries segment_date cutoff c.entries in
      elim (Bool-cases c.readable) [
        | inr bad ↦ rw bad (refl, refl, refl)
        | inl good ↦ elim (Bool-cases (s.remaining == 0)) [
          | inr more ↦ rw (good, more) (a, refl, b)
          | inl done ↦ elim (Bool-cases (c.removable && length s.left == 0)) [
            | inr stays ↦ rw (good, done, stays) (a, refl, b)
            | inl gone ↦
                let empty : s.left ≡ [] = length-zero s.left (ground arith) in
                rw (good, done, gone) (sym a ∙ rw empty (unfold current in refl), b)
          ]
        ]
      ]

  -- The step of the loop over the containers, by what one container's sweep gives.
  abbrev add_container : Option ContainerDir × Bool × ℕ → SweptPod → SweptPod
  add_container (left, is_left, n) rest = record {
    containers = elim left [ none ↦ rest.containers | some c' ↦ c' ∷ rest.containers ];
    any_left = is_left || rest.any_left;
    deleted = n + rest.deleted;
  }

  abbrev KeepsPod : List ContainerDir → SweptPod → Type 0
  KeepsPod cs s =
      (pod_current s.containers ≡ pod_current cs)
      × (s.deleted ≡ pod_expired_count cs)
      × ((s.any_left ≡ true) ⊎ (pod_current cs ≡ []))

  add_container-Keeps :
      (c : ContainerDir) (cs : List ContainerDir) (q : Option ContainerDir × Bool × ℕ)
      (rest : SweptPod)
      → KeepsContainer c q
      → KeepsPod cs rest
      → KeepsPod (c ∷ cs) (add_container q rest)
  unfolding pod_current pod_expired_count
  add_container-Keeps c cs (none, true, n) rest (e, k) (a, b, d) =
      (rw e a, omega (arith, k, b), inl refl)
  add_container-Keeps c cs (none, false, n) rest (e, k) (a, b, d) = (
    rw e a,
    omega (arith, k, b),
    elim d [ inl t ↦ inl t | inr none_left ↦ inr (rw (e, none_left) refl) ],
  )
  add_container-Keeps c cs (some c', is_left, n) rest (e, l, k) (a, b, d) =
      (rw (e, a) refl, omega (arith, k, b), inl (rw l refl))

  sweep_containers-Keeps :
      (cs : List ContainerDir) → KeepsPod cs (sweep_containers segment_date cutoff cs)
  unfolding sweep_containers
  sweep_containers-Keeps [] =
      (refl, unfold pod_expired_count in refl, inr (unfold pod_current in refl))
  sweep_containers-Keeps (c ∷ cs) =
      add_container-Keeps c cs (sweep_container segment_date cutoff c)
        (sweep_containers segment_date cutoff cs) (sweep_container-Keeps c)
        (sweep_containers-Keeps cs)

  -- What is left of a pod, `none` if its directory is gone.
  abbrev pub KeepsDir : PodDir → Bool → Option PodDir → Type 0
  KeepsDir p active none = (p.readable ≡ true) × (active ≡ false) × (pod_current p.containers ≡ [])
  KeepsDir p active (some p') =
      (pod_current p'.containers ≡ pod_current p.containers)
      × ((p'.has_meta ≡ p.has_meta)
          ⊎ ((p.readable ≡ true) × (active ≡ false) × (pod_current p.containers ≡ [])))

  -- Whatever removals and reads fail, a sweep of a pod keeps, in order, all files of its
  -- containers that are no expired segments, and counts as deleted the expired segments that can
  -- be removed in containers that can be read, if the pod can be read; the pod's meta.json is
  -- removed, or its directory, only if the pod can be read and is inactive and its containers had
  -- nothing but expired segments.
  pub sweep_pod_dir-kept :
      (p : PodDir) (active : Bool)
      → KeepsDir p active (sweep_pod_dir segment_date cutoff p active).0
        × ((sweep_pod_dir segment_date cutoff p active).1
            ≡ (if p.readable then pod_expired_count p.containers else 0))
  unfolding sweep_pod_dir
  sweep_pod_dir-kept p active =
      let s = sweep_containers segment_date cutoff p.containers in
      let (a, b, d) = sweep_containers-Keeps p.containers in
      let has_meta = p.has_meta && not p.meta_removable in
      elim (Bool-cases p.readable) [
        | inr unread ↦ rw unread ((refl, inl refl), refl)
        | inl read ↦ elim (Bool-cases (not s.any_left && not active)) [
          | inr stays ↦ rw (read, stays) ((a, inl refl), b)
          | inl goes ↦
              let idle : active ≡ false = ground arith in
              let nothing : pod_current p.containers ≡ [] = elim d [
                | inl left ↦ absurd (ground arith)
                | inr e ↦ e
              ] in
              elim (Bool-cases (
                p.removable
                && (not has_meta && (p.other_files == 0 && length s.containers == 0)))) [
                  | inl gone ↦ rw (read, goes, gone) ((refl, idle, nothing), b)
                  | inr kept ↦ rw (read, goes, kept) ((a, inr (refl, idle, nothing)), b)
                ]
        ]
      ]
