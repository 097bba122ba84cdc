-- ===== src/Collector/Tests.antt =====
-- server/internal/collector: runs of the collector's model at concrete inputs.
use simple_logging.Prelude.{
  ℕ, ◌≡◌, refl, Bool, true, false, List, [], ◌∷◌, Option, none, some, length, take, leb,
  if◌then◌else◌, arith,
}
use simple_logging.Prelude.Text.{codes, has_prefix, text_eq}
use simple_logging.Collector.Pods.{Pod, lookup_failed}
use simple_logging.Collector.Probe.{
  new_probe, json_probe_lines, json_required_matches, observe_all, observe_all-verdict, samples_of,
  count_json,
}
use simple_logging.Collector.Line.{stored_line, stored_prefix}
use simple_logging.Collector.Detect.{detect_json, detect_json-observe, stored_lines}
use simple_logging.Collector.ApiStream.{
  ApiRound, doubled_delays, run_api_stream, run_api_stream-doubled,
}
use simple_logging.Collector.Tail.{TailState, log_line, tail_wakes}
use simple_logging.Collector.Tail.Messages.{Part, Message}
use simple_logging.Collector.Tail.Runtime.{IsRuntimeMessage, tail_wakes-messages, wakes_of}
use simple_logging.Collector.Streams.{new_collector}
use simple_logging.Collector.Streams.Counted.{
  IsCounted, run, run-IsCounted, pod_added, pod_deleted, probe_decided,
}

-- A pod of two containers that a run of the CronJob "backup" owns.
abbrev backup_pod : Pod
backup_pod = record {
  namespace = codes "ops";
  name = codes "backup-x";
  uid = codes "7";
  node_name = codes "n1";
  mirror_uid = [];
  pod_template_hash = codes "abc";
  owner_references = record { kind = codes "Job"; name = codes "backup-1700000000" } ∷ [];
  init_containers = [];
  containers = codes "main" ∷ codes "proxy" ∷ [];
  container_statuses = [];
  init_container_statuses = [];
}

abbrev web_pod : Pod
web_pod = record backup_pod {
  owner_references = record { kind = codes "ReplicaSet"; name = codes "web-app-abc" } ∷ [];
}

-- The pod is added, restarted, deleted and added again.
run-IsCounted_example : IsCounted (
    run
      (pod_added backup_pod
        ∷ probe_decided (record { namespace = codes "ops"; name = codes "backup-x" }) true
        ∷ pod_added web_pod
        ∷ pod_deleted backup_pod
        ∷ pod_added backup_pod
        ∷ [])
      new_collector)
run-IsCounted_example = run-IsCounted (
    pod_added backup_pod
    ∷ probe_decided (record { namespace = codes "ops"; name = codes "backup-x" }) true
    ∷ pod_added web_pod
    ∷ pod_deleted backup_pod
    ∷ pod_added backup_pod
    ∷ [])

abbrev braced : List ℕ → Bool
braced s = has_prefix s (codes "{")

abbrev startup_lines : List (List ℕ)
startup_lines = codes "starting" ∷ codes " " ∷ codes "{}" ∷ codes " {a}" ∷ codes "ready" ∷ []

observe_all-verdict_example : observe_all braced startup_lines (new_probe, none) ≡ (
    if leb json_required_matches
      (count_json braced (take json_probe_lines (samples_of startup_lines)))
    then some true
    else if leb json_probe_lines (length (samples_of startup_lines))
    then some false
    else none)
observe_all-verdict_example = observe_all-verdict braced startup_lines

abbrev clock_text : ℕ → List ℕ
clock_text t = codes "2026-01-01T00:00:00Z"

abbrev seen_lines : List (ℕ × List ℕ)
seen_lines = (1, codes "{}") ∷ (2, codes "a] {}") ∷ []

detect_json-observe_example :
    detect_json braced
      (stored_lines clock_text (codes "ops") (codes "web") (codes "main") seen_lines)
      (new_probe, none)
    ≡ observe_all braced (codes "{}" ∷ codes "a] {}" ∷ []) (new_probe, none)
unfolding stored_prefix stored_line
detect_json-observe_example =
    detect_json-observe braced clock_text (codes "ops") (codes "web") (codes "main") seen_lines
      ((refl, omega arith), ((refl, omega arith), tt))

-- A stream that fails twice, makes progress and fails again.
abbrev failing : Option ℕ → ApiRound
failing last_line = record {
  last_line = last_line;
  failed = true;
  lookup = lookup_failed;
  cancelled = false;
  cancelled_lookup = false;
  cancelled_wait = false;
}

abbrev failing_rounds : List ApiRound
failing_rounds = failing none ∷ failing none ∷ failing (some 5) ∷ failing none ∷ []

run_api_stream-doubled_example :
    run_api_stream 1 30 backup_pod (record { since = none; backoff = 1 }) failing_rounds
    ≡ doubled_delays 1 30 backup_pod 0 failing_rounds
run_api_stream-doubled_example =
    run_api_stream-doubled 1 30 backup_pod none failing_rounds (omega arith)

abbrev read_time : List ℕ → Option ℕ
read_time s = if text_eq s (codes "T1") then some 1 else some 2

abbrev part_at : List ℕ → ℕ → List ℕ → Part
part_at stamp time content = record { first = b'T'; stamp = stamp; time = time; content = content }

-- A message in two parts.
abbrev split_message : Message
split_message = record {
  parts = part_at (codes "1") 1 (codes "hello ") ∷ [];
  final = part_at (codes "2") 2 (codes "world");
}

abbrev whole_message : Message
whole_message = record { parts = []; final = part_at (codes "2") 2 [] }

split_message-IsRuntimeMessage : IsRuntimeMessage read_time split_message
split_message-IsRuntimeMessage = (
  ((omega arith, tt), omega arith),
  ((refl, refl, refl, refl, refl), tt),
  (refl, refl, refl, refl, refl),
)

whole_message-IsRuntimeMessage : IsRuntimeMessage read_time whole_message
whole_message-IsRuntimeMessage = ((tt, omega arith), tt, (refl, refl, refl, refl, refl))

abbrev fresh_tail : TailState
fresh_tail = record {
  partial = [];
  partial_ts = 0;
  probe = (new_probe, none);
  json_logging = none;
  written = [];
}

abbrev keep_text : ℕ → List ℕ → List ℕ
keep_text ts content = content

tail_wakes-messages_example :
    let st' =
      tail_wakes braced keep_text true read_time
        (λ s. none)
        clock_text
        fresh_tail
        (wakes_of (codes "stdout") ((9, split_message ∷ []) ∷ (10, whole_message ∷ []) ∷ [])) in
    (st'.partial ≡ []) × (st'.written ≡ log_line 1 (codes "hello world") ∷ log_line 2 [] ∷ [])
tail_wakes-messages_example =
    tail_wakes-messages braced keep_text true read_time (λ s. none) (codes "stdout") refl refl
      clock_text ((9, split_message ∷ []) ∷ (10, whole_message ∷ []) ∷ []) fresh_tail refl
      (((split_message-IsRuntimeMessage, tt), ((whole_message-IsRuntimeMessage, tt), tt)))

-- The last line has no newline.
abbrev api_parts : List Part
api_parts = part_at (codes "1") 1 (codes "a b") ∷ []
