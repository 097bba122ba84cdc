-- ===== src/Collector/Streams/Counted.antt =====
-- The invariant of the collector's maps: the count of a pod is the number of its running streams, and
-- every context that was made belongs to a running stream or was cancelled.
use simple_logging.Prelude.{
  ℕ, zero, suc, ◌+◌, ◌-◌, ◌≡◌, refl, ap, ◌∙◌, Bool, true, false, List, [], ◌∷◌, Option, none, some,
  length, ltb, if◌then◌else◌, inl, inr, Bool-cases, Option-cases, arith,
}
use simple_logging.Prelude.Assoc.{
  find, remove, put, IsMap, count, remove-missing, remove-IsMap, put-IsMap, count-remove, find-put,
  find-remove,
}
use simple_logging.Collector.Pods.{Pod, collectable_containers}
use simple_logging.Collector.Streams.{
  Collector, ContainerKey, PodKey, new_collector, pod_key_eq, pod_key_eq_iff, container_key_eq,
  container_key_eq_iff, count_of, or_zero, add_stream, add_containers, drop_stream, drop_containers,
  stop_counting, on_add, on_delete, set_json_logging, pod_key, key_of,
}

-- The streams of a pod.
abbrev pub in_pod : PodKey → ContainerKey → Bool
in_pod pk ck = pod_key_eq (record { namespace = ck.namespace; name = ck.pod }) pk

abbrev pub streams_of : PodKey → List (ContainerKey × ℕ) → ℕ
streams_of pk streams = count container_key_eq (in_pod pk) streams

abbrev all_streams : List (ContainerKey × ℕ) → ℕ
all_streams streams = count container_key_eq (λ k. true) streams

pub record IsCounted (c : Collector) : Type 0 where
  pub unique : IsMap container_key_eq c.streams
  pub counted : (pk : PodKey) → count_of pk c.active_container_count ≡ streams_of pk c.streams
  pub contexts : all_streams c.streams + length c.cancelled ≡ c.next_context

count_if : (b : Bool) (n : ℕ) → (if b then 1 else 0) + n ≡ (if b then suc n else n)
count_if true n = omega arith
count_if false n = omega arith

count_of-put :
    (pk qk : PodKey) (n : ℕ) (counts : List (PodKey × ℕ))
    → count_of qk (put pod_key_eq pk n counts)
      ≡ (if pod_key_eq pk qk then n else count_of qk counts)
count_of-put pk qk n counts = elim (Bool-cases (pod_key_eq pk qk)) [
  | inl same ↦ ap or_zero (find-put pod_key_eq pod_key_eq_iff qk pk n counts) ∙ rw same refl
  | inr other ↦ ap or_zero (find-put pod_key_eq pod_key_eq_iff qk pk n counts) ∙ rw other refl
]

count_of-remove :
    (pk qk : PodKey) (counts : List (PodKey × ℕ))
    → count_of qk (remove pod_key_eq pk counts)
      ≡ (if pod_key_eq pk qk then 0 else count_of qk counts)
count_of-remove pk qk counts = elim (Bool-cases (pod_key_eq pk qk)) [
  | inl same ↦ ap or_zero (find-remove pod_key_eq pod_key_eq_iff qk pk counts) ∙ rw same refl
  | inr other ↦ ap or_zero (find-remove pod_key_eq pod_key_eq_iff qk pk counts) ∙ rw other refl
]

add_stream-IsCounted :
    (pk : PodKey) (container : List ℕ) (existing : Option ℕ) (c : Collector)
    → find container_key_eq (key_of pk container) c.streams ≡ existing
    → IsCounted c
    → IsCounted (add_stream pk (key_of pk container) existing c)
add_stream-IsCounted pk container (some context) c e h =
    let ck = key_of pk container in
    let left = remove container_key_eq ck c.streams in
    let removed = λ (P : ContainerKey → Bool).
      count-remove container_key_eq container_key_eq_iff P ck c.streams h.unique e in
    record {
      unique = put-IsMap container_key_eq container_key_eq_iff ck c.next_context c.streams h.unique;
      counted =
          λ qk. h.counted qk ∙ removed (in_pod qk) ∙ count_if (in_pod qk ck) (streams_of qk left);
      contexts = let all = removed (λ k. true) in omega (arith, all, h.contexts);
    }
add_stream-IsCounted pk container none c e h =
    let ck = key_of pk container in
    let same : remove container_key_eq ck c.streams ≡ c.streams =
      remove-missing container_key_eq ck c.streams e in
    record {
      unique = put-IsMap container_key_eq container_key_eq_iff ck c.next_context c.streams h.unique;
      counted = λ qk.
          count_of-put pk qk (count_of pk c.active_container_count + 1) c.active_container_count
          ∙ rw same (elim (Bool-cases (pod_key_eq pk qk)) [
            | inl here ↦
                let q : pk ≡ qk = (pod_key_eq_iff pk qk).0 here in
                rw (here, q, h.counted qk) (omega arith)
            | inr there ↦ rw there (h.counted qk)
          ]);
      contexts = rw same (omega (arith, h.contexts));
    }

add_containers-IsCounted :
    (pk : PodKey) (containers : List (List ℕ)) (c : Collector)
    → IsCounted c
    → IsCounted (add_containers pk containers c).0
unfolding add_containers
add_containers-IsCounted pk [] c h = h
add_containers-IsCounted pk (container ∷ containers) c h =
    let existing = find container_key_eq (key_of pk container) c.streams in
    add_containers-IsCounted pk containers (add_stream pk (key_of pk container) existing c)
      (add_stream-IsCounted pk container existing c refl h)

none_stopped : (b : Bool) (n : ℕ) → n ≡ (if b then 0 else 0) + n
none_stopped true n = omega arith
none_stopped false n = omega arith

one_more :
    (b : Bool) (s n : ℕ)
    → (if b then 1 else 0) + ((if b then s else 0) + n) ≡ (if b then s + 1 else 0) + n
one_more true s n = omega arith
one_more false s n = omega arith

-- What the loop of `OnDelete` leaves: the streams that it stopped are gone from the pod's.
record IsDropped (pk : PodKey) (c : Collector) (rest : Collector) (stopped : ℕ) : Type 0 where
  unique : IsMap container_key_eq rest.streams
  dropped :
      (qk : PodKey)
      → streams_of qk c.streams
        ≡ (if pod_key_eq pk qk then stopped else 0) + streams_of qk rest.streams
  contexts : all_streams rest.streams + length rest.cancelled ≡ rest.next_context
  counts : rest.active_container_count ≡ c.active_container_count

drop_containers-IsDropped :
    (pk : PodKey) (containers : List (List ℕ)) (c : Collector)
    → IsMap container_key_eq c.streams
    → all_streams c.streams + length c.cancelled ≡ c.next_context
    → IsDropped pk c (drop_containers pk containers c).0 (drop_containers pk containers c).1
unfolding drop_containers
drop_containers-IsDropped pk [] c u n = record {
  unique = u;
  dropped = λ qk. none_stopped (pod_key_eq pk qk) (streams_of qk c.streams);
  contexts = n;
  counts = refl;
}
drop_containers-IsDropped pk (container ∷ containers) c u n =
    elim (Option-cases (find container_key_eq (key_of pk container) c.streams)) [
      | inl missing ↦ rw (drop_containers, missing) (drop_containers-IsDropped pk containers c u n)
      | inr (context, found) ↦
          let ck = key_of pk container in
          let left = remove container_key_eq ck c.streams in
          let removed = λ (P : ContainerKey → Bool).
            count-remove container_key_eq container_key_eq_iff P ck c.streams u found in
          let c' = drop_stream ck (some context) c in
          let rest = drop_containers pk containers c' in
          let ih =
            drop_containers-IsDropped pk containers c'
              (remove-IsMap container_key_eq container_key_eq_iff ck c.streams u)
              (let all = removed (λ k. true) in omega (arith, all, n)) in
          rw (drop_containers, found)
            (record {
              unique = ih.unique;
              dropped = λ qk.
                  removed (in_pod qk)
                  ∙ ap (λ n. (if pod_key_eq pk qk then 1 else 0) + n) (ih.dropped qk)
                  ∙ one_more (pod_key_eq pk qk) rest.1 (streams_of qk rest.0.streams);
              contexts = ih.contexts;
              counts = ih.counts;
            })
    ]

kept_counts :
    (pk qk : PodKey) (n stopped : ℕ) (counts : List (PodKey × ℕ))
    → n ≡ count_of pk counts - stopped
    → (if pod_key_eq pk qk then n else count_of qk counts)
      ≡ count_of qk counts - (if pod_key_eq pk qk then stopped else 0)
kept_counts pk qk n stopped counts e = elim (Bool-cases (pod_key_eq pk qk)) [
  | inl same ↦ let q : pk ≡ qk = (pod_key_eq_iff pk qk).0 same in rw same (rw q at e)
  | inr other ↦ rw other (omega arith)
]

count_of-stop_counting :
    (pk qk : PodKey) (stopped : ℕ) (counts : List (PodKey × ℕ))
    → count_of qk (stop_counting pk stopped counts)
      ≡ count_of qk counts - (if pod_key_eq pk qk then stopped else 0)
unfolding stop_counting
count_of-stop_counting pk qk zero counts = elim (Bool-cases (pod_key_eq pk qk)) [
  | inl same ↦ rw same (omega arith)
  | inr other ↦ rw other (omega arith)
]
count_of-stop_counting pk qk (suc stopped) counts =
    let left = count_of pk counts - suc stopped in
    let some_stopped : ltb 0 (suc stopped) ≡ true = ground arith in
    elim (Bool-cases (ltb 0 left)) [
      | inl running ↦
          rw (stop_counting, some_stopped, running)
            (count_of-put pk qk left counts ∙ kept_counts pk qk left (suc stopped) counts refl)
      | inr ended ↦
          rw (stop_counting, some_stopped, ended)
            (count_of-remove pk qk counts ∙ kept_counts pk qk 0 (suc stopped) counts (ground arith))
    ]

on_delete-IsCounted : (pod : Pod) (c : Collector) → IsCounted c → IsCounted (on_delete pod c)
unfolding on_delete
on_delete-IsCounted pod c h =
    let pk = pod_key pod in
    let containers = collectable_containers pod in
    let (rest, stopped) = drop_containers pk containers c in
    let d = drop_containers-IsDropped pk containers c h.unique h.contexts in
    record {
      unique = d.unique;
      counted = λ qk.
          count_of-stop_counting pk qk stopped rest.active_container_count
          ∙ (let a = ap (count_of qk) d.counts in
              let b = h.counted qk in let e = d.dropped qk in omega (arith, a, b, e));
      contexts = d.contexts;
    }

-- The callbacks of the pod watcher, and the decisions of the probes.
pub data Event : Type 0 where
  pod_added : Pod → Event
  pod_deleted : Pod → Event
  probe_decided : PodKey → Bool → Event

unfoldable pub step : Event → Collector → Collector
step (pod_added pod) c = (on_add pod c).0
step (pod_deleted pod) c = on_delete pod c
step (probe_decided pk is_json) c = set_json_logging pk is_json c

unfoldable pub run : List Event → Collector → Collector
run [] c = c
run (e ∷ es) c = run es (step e c)

step-IsCounted : (e : Event) (c : Collector) → IsCounted c → IsCounted (step e c)
unfolding step on_add set_json_logging
step-IsCounted (pod_added pod) c h =
    add_containers-IsCounted (pod_key pod) (collectable_containers pod) c h
step-IsCounted (pod_deleted pod) c h = on_delete-IsCounted pod c h
step-IsCounted (probe_decided pk is_json) c h = record {
  unique = h.unique;
  counted = h.counted;
  contexts = h.contexts;
}

run-from_IsCounted : (es : List Event) (c : Collector) → IsCounted c → IsCounted (run es c)
unfolding run
run-from_IsCounted [] c h = h
run-from_IsCounted (e ∷ es) c h = run-from_IsCounted es (step e c) (step-IsCounted e c h)

-- After any sequence of added pods, deleted pods and probe decisions, no container has two running
-- streams, the count of each pod is the number of its running streams, and the contexts that were
-- made are as many as the running streams and the cancelled contexts together.
pub run-IsCounted : (events : List Event) → IsCounted (run events new_collector)
run-IsCounted events =
    run-from_IsCounted events new_collector
      (record { unique = tt; counted = λ pk. refl; contexts = omega arith })
