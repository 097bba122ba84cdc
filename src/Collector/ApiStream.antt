-- ===== src/Collector/ApiStream.antt =====
-- server/internal/collector/collector.go: `runAPIStream` and `streamAPIOnce`, which copy a
-- container's log from the Kubernetes API and open the stream again when it ends.
pub mod Copied
use simple_logging.Prelude.{
  ℕ, zero, suc, ◌*◌, ◌^◌, ◌≤◌, min, ◌≡◌, refl, sym, ap, Bool, true, false, not, ◌&&◌, ◌||◌, List,
  [], ◌∷◌, Option, none, some, take, drop, if◌then◌else◌, Bool-cases, inl, inr, arith,
}
use native.Mathlib.Nat.{pow-succ', mul_comm, mul_assoc}
use simple_logging.Prelude.Text.{text_eq, index_byte}
use simple_logging.Collector.Pods.{Pod, PodLookup, pod_finished}
use simple_logging.Collector.Tail.{TailState, finish_line}

-- What `ReadCappedLine` returns: a line and, where the stream ends with it, whether that is an error
-- other than the end of the input.
pub record ApiRead : Type 0 where
  pub line : List ℕ
  pub ended : Option Bool

abbrev is_end : Option Bool → Bool
is_end none = false
is_end (some failed) = true

-- `parse_time` is time.Parse with RFC 3339.
module _ (parse_time : List ℕ → Option ℕ) where
  -- The time and the content of a line, `now` where the line does not start with a time.
  unfoldable pub split_time : ℕ → List ℕ → ℕ × List ℕ
  split_time now raw = elim (index_byte raw b' ') [
    | none ↦ (now, raw)
    | some zero ↦ (now, raw)
    | some (suc i) ↦ elim (parse_time (take (suc i) raw)) [
      | none ↦ (now, raw)
      | some ts ↦ (ts, drop (suc (suc i)) raw)
    ]
  ]

  module _ (valid : List ℕ → Bool) (stored : ℕ → List ℕ → List ℕ) (is_default : Bool)
      (now : ℕ) where
    unfoldable pub api_line : TailState → List ℕ → TailState
    api_line st raw =
        finish_line valid stored is_default st (split_time now raw).0 (split_time now raw).1

    -- The loop of `streamAPIOnce`: the state, the time of the last line, and whether the stream
    -- failed.
    unfoldable pub stream_api_once :
        TailState → Option ℕ → List ApiRead → TailState × Option ℕ × Bool
    stream_api_once st last_line [] = (st, last_line, false)
    stream_api_once st last_line (r ∷ rs) =
        let st' = api_line st r.line in
        let last_line' = some (split_time now r.line).0 in
        let rest = stream_api_once st' last_line' rs in
        if is_end r.ended && text_eq r.line []
        then (st, last_line, elim (r.ended) [ none ↦ false | some failed ↦ failed ])
        else elim (r.ended) [ none ↦ rest | some failed ↦ (st', last_line', failed) ]

-- The variables of `runAPIStream`.
pub record ApiState : Type 0 where
  pub since : Option ℕ
  pub backoff : ℕ

-- A turn of its loop: what `streamAPIOnce` returned, what the lookup of the pod gave, and whether the
-- context was cancelled after the stream, during the lookup or during the wait.
pub record ApiRound : Type 0 where
  pub last_line : Option ℕ
  pub failed : Bool
  pub lookup : PodLookup
  pub cancelled : Bool
  pub cancelled_lookup : Bool
  pub cancelled_wait : Bool

abbrev pub progressed : ℕ → Option ℕ → ApiState → ApiState
progressed min_backoff none s = s
progressed min_backoff (some ts) s = record { since = some ts; backoff = min_backoff }

guards :
    {A : Type 0} (a f b c w : Bool) (x : A)
    → (if a
        then none
        else if not f && b
        then none
        else if not f && c
        then none
        else if w
        then none
        else some x)
      ≡ (if a || ((not f && (b || c)) || w) then none else some x)
guards true f b c w x = refl
guards false true b c true x = refl
guards false true b c false x = refl
guards false false true c w x = refl
guards false false false true w x = refl
guards false false false false true x = refl
guards false false false false false x = refl

doubled : (lo p hi b : ℕ) → b ≡ min (lo * p) hi → min (b * 2) hi ≡ min (lo * (2 * p)) hi
doubled lo p hi b e =
    let q : lo * (2 * p) ≡ lo * p * 2 = rw (mul_comm 2 p) (sym (mul_assoc lo p 2)) in
    rw q (omega (arith, e))

module _ (min_backoff max_backoff : ℕ) (pod : Pod) where
  -- The delay of a turn and the state of the next one; `none` is a return.
  unfoldable pub api_round : ApiState → ApiRound → Option (ℕ × ApiState)
  api_round s r =
      let s' = progressed min_backoff r.last_line s in
      if r.cancelled
      then none
      else if not r.failed && pod_finished pod r.lookup
      then none
      else if not r.failed && r.cancelled_lookup
      then none
      else if r.cancelled_wait
      then none
      else some (s'.backoff, record s' { backoff = min (s'.backoff * 2) max_backoff })

  -- The delays before the streams that are opened again.
  unfoldable pub run_api_stream : ApiState → List ApiRound → List ℕ
  run_api_stream s [] = []
  run_api_stream s (r ∷ rs) = elim (api_round s r) [
    | none ↦ []
    | some (delay, s') ↦ delay ∷ run_api_stream s' rs
  ]

  -- The reference: the number of turns since the last progress doubles the delay, up to the maximum,
  -- until a turn that ends the loop.
  abbrev pub turns_after : ℕ → Option ℕ → ℕ
  turns_after k none = k
  turns_after k (some ts) = 0

  abbrev pub stops : ApiRound → Bool
  stops r =
      r.cancelled
      || ((not r.failed && (pod_finished pod r.lookup || r.cancelled_lookup)) || r.cancelled_wait)

  unfoldable pub doubled_delays : ℕ → List ApiRound → List ℕ
  doubled_delays k [] = []
  doubled_delays k (r ∷ rs) =
      let k' = turns_after k r.last_line in
      let rest = doubled_delays (suc k') rs in
      if stops r then [] else min (min_backoff * 2 ^ k') max_backoff ∷ rest

  api_round-stops :
      (s : ApiState) (r : ApiRound)
      → api_round s r ≡ (
          let s' = progressed min_backoff r.last_line s in
          if stops r
          then none
          else some (s'.backoff, record s' { backoff = min (s'.backoff * 2) max_backoff }))
  unfolding api_round
  api_round-stops s r =
      guards r.cancelled r.failed (pod_finished pod r.lookup) r.cancelled_lookup r.cancelled_wait _

  progressed-backoff :
      (k : ℕ) (s : ApiState) (last_line : Option ℕ)
      → min_backoff ≤ max_backoff
      → s.backoff ≡ min (min_backoff * 2 ^ k) max_backoff
      → (progressed min_backoff last_line s).backoff
        ≡ min (min_backoff * 2 ^ turns_after k last_line) max_backoff
  progressed-backoff k s none h e = e
  progressed-backoff k s (some ts) h e = omega arith

  run_api_stream-doubled_from :
      (k : ℕ) (s : ApiState) (rs : List ApiRound)
      → min_backoff ≤ max_backoff
      → s.backoff ≡ min (min_backoff * 2 ^ k) max_backoff
      → run_api_stream s rs ≡ doubled_delays k rs
  unfolding run_api_stream doubled_delays
  run_api_stream-doubled_from k s [] h e = refl
  run_api_stream-doubled_from k s (r ∷ rs) h e = elim (Bool-cases (stops r)) [
    | inl ends ↦ rw (run_api_stream, api_round-stops s r, ends) refl
    | inr goes_on ↦
        let k' = turns_after k r.last_line in
        let s' = progressed min_backoff r.last_line s in
        let delay = progressed-backoff k s r.last_line h e in
        let ih =
          run_api_stream-doubled_from (suc k')
            (record s' { backoff = min (s'.backoff * 2) max_backoff }) rs h
            (rw (pow-succ' 2 k') (doubled min_backoff (2 ^ k') max_backoff s'.backoff delay)) in
        rw (run_api_stream, api_round-stops s r, goes_on)
          (rw (ih) (ap (λ d. d ∷ doubled_delays (suc k') rs) delay))
  ]

  -- If the least delay is at most the greatest one, the delays before the streams that are opened
  -- again are: the least delay, doubled for each turn since the last one with progress, and at
  -- most the greatest delay, up to the first turn that ends the loop.
  pub run_api_stream-doubled :
      (since : Option ℕ) (rounds : List ApiRound)
      → min_backoff ≤ max_backoff
      → run_api_stream (record { since = since; backoff = min_backoff }) rounds
        ≡ doubled_delays 0 rounds
  run_api_stream-doubled since rounds h =
      run_api_stream-doubled_from 0 (record { since = since; backoff = min_backoff }) rounds h
        (omega arith)
