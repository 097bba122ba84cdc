-- ===== src/Collector/Pods.antt =====
-- server/internal/collector/collector.go and owner.go: what the collector reads off a pod, which
-- containers it follows, from where, and which workload owns the pod.
use simple_logging.Prelude.{
  ℕ, suc, ◌≡◌, refl, ap, Bool, true, false, not, ◌&&◌, List, [], ◌∷◌, ◌++◌, Option, none, some,
  length, take, drop, ◌==◌, if◌then◌else◌, arith, drop_past,
}
use simple_logging.Prelude.Text.{
  codes, text_eq, last_index_byte, last_index_byte-append, has_suffix, trim_suffix,
  has_suffix-append, trim_suffix-append,
}
use simple_logging.Prelude.Decimal.{is_digit}
use simple_logging.Prelude.Slices.{take_left}

-- An init container, with its restart policy where it has one.
pub record InitContainer : Type 0 where
  pub name : List ℕ
  pub restart_policy : Option (List ℕ)

pub record OwnerReference : Type 0 where
  pub kind : List ℕ
  pub name : List ℕ

pub record ContainerStatus : Type 0 where
  pub name : List ℕ
  pub restart_count : ℕ

-- The fields of corev1.Pod that the collector reads. A missing label or annotation is the empty
-- text.
pub record Pod : Type 0 where
  pub namespace : List ℕ
  pub name : List ℕ
  pub uid : List ℕ
  pub node_name : List ℕ
  pub mirror_uid : List ℕ
  pub pod_template_hash : List ℕ
  pub owner_references : List OwnerReference
  pub init_containers : List InitContainer
  pub containers : List (List ℕ)
  pub container_statuses : List ContainerStatus
  pub init_container_statuses : List ContainerStatus

abbrev is_sidecar : InitContainer → Bool
is_sidecar c = elim (c.restart_policy) [ none ↦ false | some p ↦ text_eq p (codes "Always") ]

abbrev sidecars : List InitContainer → List (List ℕ)
sidecars [] = []
sidecars (c ∷ cs) = if is_sidecar c then c.name ∷ sidecars cs else sidecars cs

unfoldable pub collectable_containers : Pod → List (List ℕ)
collectable_containers pod = sidecars pod.init_containers ++ pod.containers

unfoldable pub default_container : Pod → List ℕ
default_container pod = elim (pod.containers) [ [] ↦ [] | c ∷ cs ↦ c ]

-- `node_logs_root` and `node_name` are the collector's.
unfoldable pub uses_file_tail : List ℕ → List ℕ → Pod → Bool
uses_file_tail node_logs_root node_name pod =
    if text_eq node_logs_root []
    then false
    else if text_eq node_name []
    then true
    else text_eq pod.node_name node_name

unfoldable pub pod_log_dir_name : Pod → List ℕ
pod_log_dir_name pod =
    let uid = if text_eq pod.mirror_uid [] then pod.uid else pod.mirror_uid in
    pod.namespace ++ (b'_' ∷ (pod.name ++ (b'_' ∷ uid)))

abbrev status_of : List ContainerStatus → List ℕ → Option ℕ
status_of [] container = none
status_of (s ∷ ss) container =
    if text_eq s.name container then some s.restart_count else status_of ss container

unfoldable pub container_restart_count : Pod → List ℕ → ℕ
container_restart_count pod container = elim (status_of pod.container_statuses container) [
  | some n ↦ n
  | none ↦ elim (status_of pod.init_container_statuses container) [ some n ↦ n | none ↦ 0 ]
]

-- What a lookup of a pod's name gives: its UID and phase, or an error.
pub data PodLookup : Type 0 where
  not_found : PodLookup
  lookup_failed : PodLookup
  found : List ℕ → List ℕ → PodLookup

unfoldable pub pod_finished : Pod → PodLookup → Bool
pod_finished pod not_found = true
pod_finished pod lookup_failed = false
pod_finished pod (found uid phase) =
    if not (text_eq uid pod.uid)
    then true
    else if text_eq phase (codes "Succeeded")
    then true
    else text_eq phase (codes "Failed")

-- The switch of `resolveOwner` on one reference; `none` is a kind that it does not know.
abbrev owner_of : List ℕ → OwnerReference → Option (List ℕ × List ℕ)
owner_of hash ref =
    if text_eq ref.kind (codes "ReplicaSet")
    then (if not (text_eq hash []) && has_suffix ref.name (b'-' ∷ hash)
        then some (codes "Deployment", trim_suffix ref.name (b'-' ∷ hash))
        else some (codes "ReplicaSet", ref.name))
    else if text_eq ref.kind (codes "StatefulSet")
    then some (ref.kind, ref.name)
    else if text_eq ref.kind (codes "DaemonSet")
    then some (ref.kind, ref.name)
    else if text_eq ref.kind (codes "Job")
    then some (ref.kind, ref.name)
    else none

abbrev first_owner : List ℕ → List OwnerReference → Option (List ℕ × List ℕ)
first_owner hash [] = none
first_owner hash (r ∷ rs) = elim (owner_of hash r) [ some o ↦ some o | none ↦ first_owner hash rs ]

unfoldable pub resolve_owner : Pod → List ℕ × List ℕ
resolve_owner pod = elim (first_owner pod.pod_template_hash pod.owner_references) [
  | some o ↦ o
  | none ↦ (codes "Pod", pod.name)
]

abbrev pub all_digits : List ℕ → Bool
all_digits [] = true
all_digits (c ∷ s) = is_digit c && all_digits s

unfoldable pub infer_cron_job_name : List ℕ → Option (List ℕ)
infer_cron_job_name job_name = elim (last_index_byte job_name b'-') [
  | none ↦ none
  | some i ↦
      let suffix = drop (suc i) job_name in
      if not (length suffix == 10)
      then none
      else if all_digits suffix
      then some (take i job_name)
      else none
]

-- What `recordOwner` hands to the store: the owner's kind and name, and the cron job or the empty
-- text.
unfoldable pub owner_facts : Pod → List ℕ × List ℕ × List ℕ
owner_facts pod =
    let (kind, name) = resolve_owner pod in
    (
      kind,
      name,
      if text_eq kind (codes "Job")
          then elim (infer_cron_job_name name) [ none ↦ [] | some cron_job ↦ cron_job ]
          else [],
    )

no_dash : (s : List ℕ) → all_digits s ≡ true → last_index_byte s b'-' ≡ none
unfolding last_index_byte
no_dash [] e = refl
no_dash (c ∷ s) e = ground (arith, no_dash s)

pub infer_cron_job_name-run :
    (cron_job stamp : List ℕ)
    → length stamp ≡ 10
    → all_digits stamp ≡ true
    → infer_cron_job_name (cron_job ++ (b'-' ∷ stamp)) ≡ some cron_job
unfolding infer_cron_job_name
infer_cron_job_name-run cron_job stamp h d =
    let cut : drop (suc (length cron_job)) (cron_job ++ (b'-' ∷ stamp)) ≡ stamp =
      drop_past cron_job stamp b'-' in
    let ten : (length stamp == 10) ≡ true = ground arith in
    rw
      (
        infer_cron_job_name,
        last_index_byte-append cron_job stamp b'-' (no_dash stamp d),
        cut,
        ten,
        d,
      )
      (ap some (take_left (length cron_job) cron_job (b'-' ∷ stamp) refl))

-- A pod with a pod-template-hash label, whose first owner is a ReplicaSet named after a
-- Deployment, a dash and that label, is recorded under the Deployment.
pub owner_facts-deployment :
    (pod : Pod) (name : List ℕ) (refs : List OwnerReference)
    → text_eq pod.pod_template_hash [] ≡ false
    → pod.owner_references
      ≡ record { kind = codes "ReplicaSet"; name = name ++ (b'-' ∷ pod.pod_template_hash) } ∷ refs
    → owner_facts pod ≡ (codes "Deployment", name, [])
unfolding owner_facts resolve_owner
owner_facts-deployment pod name refs labelled e =
    let suffix = b'-' ∷ pod.pod_template_hash in
    let owner : resolve_owner pod ≡ (codes "Deployment", name) =
      rw (resolve_owner, e, labelled, has_suffix-append name suffix, trim_suffix-append name suffix)
        refl in
    rw (owner_facts, owner) refl

-- A pod whose first owner is a Job named after a CronJob, a dash and ten digits is recorded under
-- that Job and that CronJob.
pub owner_facts-cron_job :
    (pod : Pod) (name stamp : List ℕ) (refs : List OwnerReference)
    → length stamp ≡ 10
    → all_digits stamp ≡ true
    → pod.owner_references ≡ record { kind = codes "Job"; name = name ++ (b'-' ∷ stamp) } ∷ refs
    → owner_facts pod ≡ (codes "Job", name ++ (b'-' ∷ stamp), name)
unfolding owner_facts resolve_owner
owner_facts-cron_job pod name stamp refs h d e =
    let owner : resolve_owner pod ≡ (codes "Job", name ++ (b'-' ∷ stamp)) =
      rw (resolve_owner, e) refl in
    rw (owner_facts, owner, infer_cron_job_name-run name stamp h d) refl
