-- ===== src/Collector/Streams.antt =====
-- server/internal/collector/collector.go: the collector's maps of running streams, pods and flags,
-- and the callbacks that change them.
pub mod Counted
use simple_logging.Prelude.{
  ℕ, zero, suc, ◌+◌, ◌-◌, ◌≡◌, refl, ap, ◌∙◌, Bool, true, false, ◌&&◌, List, [], ◌∷◌, ◌++◌, Option,
  none, some, map, ltb, and_both, both_and, if◌then◌else◌, ◌↔◌, arith,
}
use simple_logging.Prelude.Text.{text_eq, text_eq_iff, text_eq_self}
use simple_logging.Prelude.Assoc.{find, remove, put}
use simple_logging.Collector.Pods.{Pod, collectable_containers}

pub record PodKey : Type 0 where
  pub namespace : List ℕ
  pub name : List ℕ

pub record ContainerKey : Type 0 where
  pub namespace : List ℕ
  pub pod : List ℕ
  pub container : List ℕ

abbrev pub pod_key_eq : PodKey → PodKey → Bool
pod_key_eq a b = text_eq a.namespace b.namespace && text_eq a.name b.name

abbrev pub container_key_eq : ContainerKey → ContainerKey → Bool
container_key_eq a b =
    text_eq a.namespace b.namespace && (text_eq a.pod b.pod && text_eq a.container b.container)

pub pod_key_eq_iff : (a b : PodKey) → (pod_key_eq a b ≡ true) ↔ (a ≡ b)
pod_key_eq_iff a b = (
  (λ e.
      let (x, y) = and_both e in
      ap (λ n. record { namespace = n; name = a.name }) ((text_eq_iff a.namespace b.namespace).0 x)
      ∙ ap (λ n. record { namespace = b.namespace; name = n }) ((text_eq_iff a.name b.name).0 y)),
  (λ e. rw e (both_and (text_eq_self b.namespace) (text_eq_self b.name))),
)

pub container_key_eq_iff : (a b : ContainerKey) → (container_key_eq a b ≡ true) ↔ (a ≡ b)
container_key_eq_iff a b = (
  (λ e.
      let (x, yz) = and_both e in
      let (y, z) = and_both yz in
      ap (λ n. record { namespace = n; pod = a.pod; container = a.container })
        ((text_eq_iff a.namespace b.namespace).0 x)
      ∙ (ap (λ n. record { namespace = b.namespace; pod = n; container = a.container })
            ((text_eq_iff a.pod b.pod).0 y)
          ∙ ap (λ n. record { namespace = b.namespace; pod = b.pod; container = n })
              ((text_eq_iff a.container b.container).0 z))),
  (λ e. rw e (
      both_and (text_eq_self b.namespace)
        (both_and (text_eq_self b.pod) (text_eq_self b.container)))),
)

-- The state under the collector's lock. A stream is known by the number of its context, in the
-- order of their making; `cancelled` are the contexts that were cancelled.
pub record Collector : Type 0 where
  pub streams : List (ContainerKey × ℕ)
  pub active_container_count : List (PodKey × ℕ)
  pub json_logging : List (PodKey × Bool)
  pub next_context : ℕ
  pub cancelled : List ℕ

-- A stream that `OnAdd` starts.
pub record StartItem : Type 0 where
  pub container : List ℕ
  pub context : ℕ
  pub is_restart : Bool

abbrev pub new_collector : Collector
new_collector = record {
  streams = [];
  active_container_count = [];
  json_logging = [];
  next_context = 0;
  cancelled = [];
}

-- A missing key reads as 0.
abbrev pub or_zero : Option ℕ → ℕ
or_zero none = 0
or_zero (some n) = n

abbrev pub count_of : PodKey → List (PodKey × ℕ) → ℕ
count_of pk counts = or_zero (find pod_key_eq pk counts)

-- The turn of the loop of `OnAdd` for one container, when its stream was found or not.
abbrev add_stream : PodKey → ContainerKey → Option ℕ → Collector → Collector
add_stream pk ck (some existing) c = record c {
  streams = put container_key_eq ck c.next_context c.streams;
  next_context = c.next_context + 1;
  cancelled = existing ∷ c.cancelled;
}
add_stream pk ck none c = record c {
  streams = put container_key_eq ck c.next_context c.streams;
  active_container_count =
      put pod_key_eq pk (count_of pk c.active_container_count + 1) c.active_container_count;
  next_context = c.next_context + 1;
}

abbrev is_found : Option ℕ → Bool
is_found none = false
is_found (some context) = true

abbrev key_of : PodKey → List ℕ → ContainerKey
key_of pk container = record { namespace = pk.namespace; pod = pk.name; container = container }

unfoldable pub add_containers : PodKey → List (List ℕ) → Collector → Collector × List StartItem
add_containers pk [] c = (c, [])
add_containers pk (container ∷ containers) c =
    let existing = find container_key_eq (key_of pk container) c.streams in
    let rest = add_containers pk containers (add_stream pk (key_of pk container) existing c) in
    (
      rest.0,
      record { container = container; context = c.next_context; is_restart = is_found existing }
          ∷ rest.1,
    )

abbrev pub pod_key : Pod → PodKey
pod_key pod = record { namespace = pod.namespace; name = pod.name }

-- The part of `OnAdd` under the lock, with the streams to start.
unfoldable pub on_add : Pod → Collector → Collector × List StartItem
on_add pod c = add_containers (pod_key pod) (collectable_containers pod) c

abbrev drop_stream : ContainerKey → Option ℕ → Collector → Collector
drop_stream ck none c = c
drop_stream ck (some existing) c = record c {
  streams = remove container_key_eq ck c.streams;
  cancelled = existing ∷ c.cancelled;
}

-- The loop of `OnDelete`, with the number of streams that it stopped.
unfoldable pub drop_containers : PodKey → List (List ℕ) → Collector → Collector × ℕ
drop_containers pk [] c = (c, 0)
drop_containers pk (container ∷ containers) c =
    let existing = find container_key_eq (key_of pk container) c.streams in
    let rest = drop_containers pk containers (drop_stream (key_of pk container) existing c) in
    (rest.0, if is_found existing then rest.1 + 1 else rest.1)

-- The count of a pod after some of its streams stopped; a count of 0 or less is taken out.
unfoldable pub stop_counting : PodKey → ℕ → List (PodKey × ℕ) → List (PodKey × ℕ)
stop_counting pk stopped counts =
    let left = count_of pk counts - stopped in
    if ltb 0 stopped
    then (if ltb 0 left then put pod_key_eq pk left counts else remove pod_key_eq pk counts)
    else counts

unfoldable pub on_delete : Pod → Collector → Collector
on_delete pod c =
    let pk = pod_key pod in
    let (rest, stopped) = drop_containers pk (collectable_containers pod) c in
    record rest {
      active_container_count = stop_counting pk stopped rest.active_container_count;
      json_logging = remove pod_key_eq pk rest.json_logging;
    }

unfoldable pub is_active : PodKey → Collector → Bool
is_active pk c = ltb 0 (count_of pk c.active_container_count)

unfoldable pub is_json_logging : PodKey → Collector → Bool
is_json_logging pk c = elim (find pod_key_eq pk c.json_logging) [ none ↦ false | some b ↦ b ]

unfoldable pub set_json_logging : PodKey → Bool → Collector → Collector
set_json_logging pk is_json c = record c { json_logging = put pod_key_eq pk is_json c.json_logging }

-- `Close` cancels all streams' contexts.
unfoldable pub close_collector : Collector → Collector
close_collector c = record c { cancelled = map (λ s. s.1) c.streams ++ c.cancelled }
