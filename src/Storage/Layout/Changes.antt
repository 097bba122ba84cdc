-- ===== src/Storage/Layout/Changes.antt =====
-- The facts that updates of a pod's metadata record.
use simple_logging.Prelude.{
  ℕ, max, ◌≡◌, refl, sym, ap, ◌∙◌, true, not, ◌&&◌, ◌||◌, List, [], ◌∷◌, ◌++◌, ◌==◌, if◌then◌else◌,
  Bool-cases, inl, inr, arith,
}
use simple_logging.Prelude.Text.{text_eq, text_eq_iff, text_lt}
use simple_logging.Paging.Sort.{sort, insert}
use simple_logging.Storage.Layout.{PodMeta, contains_string, see_container, set_owner, MetaCalls}

-- A call of `recordContainerSeen` or of `RecordOwner`.
pub data MetaUpdate : Type 0 where
  container_seen : List ℕ → ℕ → MetaCalls → MetaUpdate
  owner_recorded : List ℕ → List ℕ → List ℕ → MetaCalls → MetaUpdate

abbrev pub calls_of : MetaUpdate → MetaCalls
calls_of (container_seen container at calls) = calls
calls_of (owner_recorded kind name cron_job calls) = calls

-- The updates whose system calls all succeed.
unfoldable pub effective : List MetaUpdate → List MetaUpdate
effective [] = []
effective (u ∷ us) =
    let rest = effective us in
    if (calls_of u).readable && (calls_of u).written then u ∷ rest else rest

-- The facts that updates record, each on its own: the time of the first container, the latest time, the
-- names of the containers, and the last owner.
abbrev pub first_time : List MetaUpdate → ℕ
first_time [] = 0
first_time (container_seen container at calls ∷ us) = if at == 0 then first_time us else at
first_time (owner_recorded kind name cron_job calls ∷ us) = first_time us

abbrev pub latest_time : List MetaUpdate → ℕ
latest_time [] = 0
latest_time (container_seen container at calls ∷ us) = max at (latest_time us)
latest_time (owner_recorded kind name cron_job calls ∷ us) = latest_time us

abbrev pub seen_names : List MetaUpdate → List (List ℕ)
seen_names [] = []
seen_names (container_seen container at calls ∷ us) = container ∷ seen_names us
seen_names (owner_recorded kind name cron_job calls ∷ us) = seen_names us

abbrev pub last_owner : List ℕ × List ℕ × List ℕ → List MetaUpdate → List ℕ × List ℕ × List ℕ
last_owner o [] = o
last_owner o (container_seen container at calls ∷ us) = last_owner o us
last_owner o (owner_recorded kind name cron_job calls ∷ us) = last_owner (kind, name, cron_job) us

abbrev pub owner_in : PodMeta → List ℕ × List ℕ × List ℕ
owner_in m = (m.owner_kind, m.owner_name, m.cron_job_name)

contains_string-append :
    (xs ys : List (List ℕ)) (c : List ℕ)
    → contains_string (xs ++ ys) c ≡ (contains_string xs c || contains_string ys c)
unfolding contains_string
contains_string-append [] ys c = refl
contains_string-append (x ∷ xs) ys c = rw (contains_string-append xs ys c) (ground arith)

contains_string-insert :
    (x : List ℕ) (xs : List (List ℕ)) (c : List ℕ)
    → contains_string (insert text_lt x xs) c ≡ (text_eq x c || contains_string xs c)
unfolding contains_string insert
contains_string-insert x [] c = refl
contains_string-insert x (y ∷ ys) c = elim (Bool-cases (text_lt y x)) [
  | inl later ↦ rw (later, contains_string-insert x ys c) (ground arith)
  | inr first ↦ rw first refl
]

pub contains_string-sort :
    (xs : List (List ℕ)) (c : List ℕ) → contains_string (sort text_lt xs) c ≡ contains_string xs c
unfolding contains_string sort
contains_string-sort [] c = refl
contains_string-sort (x ∷ xs) c =
    contains_string-insert x (sort text_lt xs) c ∙ rw (contains_string-sort xs c) refl

found_name :
    (xs : List (List ℕ)) (name c : List ℕ)
    → contains_string xs name ≡ true
    → contains_string xs c ≡ (contains_string xs c || text_eq name c)
found_name xs name c found = elim (Bool-cases (text_eq name c)) [
  | inl same ↦
      let q : contains_string xs c ≡ true =
        ap (contains_string xs) (sym ((text_eq_iff name c).0 same)) ∙ found in
      rw (same, q) refl
  | inr other ↦ rw other (ground arith)
]

names_after_see :
    (xs : List (List ℕ)) (name c : List ℕ)
    → contains_string
        (if not (contains_string xs name) then sort text_lt (xs ++ (name ∷ [])) else xs)
        c
      ≡ (contains_string xs c || text_eq name c)
names_after_see xs name c = elim (Bool-cases (contains_string xs name)) [
  | inl found ↦ rw found (found_name xs name c found)
  | inr new ↦ rw new (
      contains_string-sort (xs ++ (name ∷ [])) c
      ∙ contains_string-append xs (name ∷ []) c
      ∙ (unfold contains_string in ground arith))
]

module _ (namespace pod : List ℕ) where
  abbrev pub change_of : MetaUpdate → PodMeta → PodMeta
  change_of (container_seen container at calls) = see_container namespace pod container at
  change_of (owner_recorded kind name cron_job calls) = set_owner namespace pod kind name cron_job

  abbrev pub changed : PodMeta → List MetaUpdate → PodMeta
  changed m [] = m
  changed m (u ∷ us) = changed (change_of u m) us

  pub changed-first_seen :
      (us : List MetaUpdate) (m : PodMeta)
      → (changed m us).first_seen ≡ (if m.first_seen == 0 then first_time us else m.first_seen)
  unfolding see_container set_owner
  changed-first_seen [] m = ground arith
  changed-first_seen (container_seen container at calls ∷ us) m =
      changed-first_seen us (see_container namespace pod container at m) ∙ ground arith
  changed-first_seen (owner_recorded kind name cron_job calls ∷ us) m =
      changed-first_seen us (set_owner namespace pod kind name cron_job m)

  pub changed-last_seen :
      (us : List MetaUpdate) (m : PodMeta)
      → (changed m us).last_seen ≡ max m.last_seen (latest_time us)
  unfolding see_container set_owner
  changed-last_seen [] m = omega arith
  changed-last_seen (container_seen container at calls ∷ us) m =
      changed-last_seen us (see_container namespace pod container at m) ∙ ground arith
  changed-last_seen (owner_recorded kind name cron_job calls ∷ us) m =
      changed-last_seen us (set_owner namespace pod kind name cron_job m)

  pub changed-owner :
      (us : List MetaUpdate) (m : PodMeta) → owner_in (changed m us) ≡ last_owner (owner_in m) us
  unfolding see_container set_owner
  changed-owner [] m = refl
  changed-owner (container_seen container at calls ∷ us) m =
      changed-owner us (see_container namespace pod container at m)
  changed-owner (owner_recorded kind name cron_job calls ∷ us) m =
      changed-owner us (set_owner namespace pod kind name cron_job m)

  see_container-names :
      (container : List ℕ) (at : ℕ) (m : PodMeta) (c : List ℕ)
      → contains_string (see_container namespace pod container at m).containers c
        ≡ (contains_string m.containers c || text_eq container c)
  unfolding see_container
  see_container-names container at m c = names_after_see m.containers container c

  pub changed-names :
      (us : List MetaUpdate) (m : PodMeta) (c : List ℕ)
      → contains_string (changed m us).containers c
        ≡ (contains_string m.containers c || contains_string (seen_names us) c)
  unfolding contains_string set_owner
  changed-names [] m c = ground arith
  changed-names (container_seen container at calls ∷ us) m c =
      changed-names us (see_container namespace pod container at m) c
      ∙ rw (see_container-names container at m c) (ground arith)
  changed-names (owner_recorded kind name cron_job calls ∷ us) m c =
      changed-names us (set_owner namespace pod kind name cron_job m) c
