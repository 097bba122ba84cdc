-- ===== src/Collector/Probe.antt =====
-- server/internal/collector/collector.go: `jsonProbe`, which decides from a stream's first lines
-- whether a pod logs JSON.
use simple_logging.Prelude.{
  ℕ, suc, ◌+◌, ◌<◌, ◌≡◌, refl, Bool, true, false, not, List, [], ◌∷◌, Option, none, some, length,
  take, get_or, leb, ◌==◌, if◌then◌else◌, inl, inr, Bool-cases, Nat-cases, leb-suc, arith,
}
use simple_logging.Prelude.Text.{text_eq}
use simple_logging.Prelude.Spaces.{trim_space}

abbrev pub json_probe_lines : ℕ
json_probe_lines = 10

abbrev pub json_required_matches : ℕ
json_required_matches = 5

-- `jsonProbe`
pub record JsonProbe : Type 0 where
  pub samples : ℕ
  pub matches : ℕ

abbrev pub new_probe : JsonProbe
new_probe = record { samples = 0; matches = 0 }

unfoldable pub is_blank : List ℕ → Bool
is_blank line = text_eq (trim_space line) []

-- The lines that the probe counts.
unfoldable pub samples_of : List (List ℕ) → List (List ℕ)
samples_of [] = []
samples_of (l ∷ ls) = if is_blank l then samples_of ls else l ∷ samples_of ls

-- `valid` is json.Valid.
module _ (valid : List ℕ → Bool) where
  unfoldable pub is_json_line : List ℕ → Bool
  is_json_line line =
      let trimmed = trim_space line in
      if text_eq trimmed []
      then false
      else if not (get_or trimmed 0 0 == b'{')
      then false
      else valid trimmed

  -- What a line that is not blank decides, `none` for nothing yet.
  abbrev pub decide : ℕ → ℕ → Option Bool
  decide samples matches =
      if leb json_required_matches matches
      then some true
      else if leb json_probe_lines samples
      then some false
      else none

  abbrev pub count_sample : JsonProbe → Bool → JsonProbe × Option Bool
  count_sample p is_json =
      let samples = p.samples + 1 in
      let matches = if is_json then p.matches + 1 else p.matches in
      (record { samples = samples; matches = matches }, decide samples matches)

  unfoldable pub observe : JsonProbe → List ℕ → JsonProbe × Option Bool
  observe p line = if is_blank line then (p, none) else count_sample p (is_json_line line)

  observe_blank : (p : JsonProbe) (l : List ℕ) → is_blank l ≡ true → observe p l ≡ (p, none)
  unfolding observe
  observe_blank p l e = rw (observe, e) refl

  observe_text :
      (p : JsonProbe) (l : List ℕ)
      → is_blank l ≡ false
      → observe p l ≡ count_sample p (is_json_line l)
  unfolding observe
  observe_text p l e = rw (observe, e) refl

  decide_undecided : (s m : ℕ) → decide s m ≡ none → s < json_probe_lines
  decide_undecided s m e = elim (Bool-cases (leb json_required_matches m)) [
    | inl enough ↦ absurd (cc (rw enough at e))
    | inr few ↦ elim (Bool-cases (leb json_probe_lines s)) [
      | inl all ↦ absurd (cc (rw (few, all) at e))
      | inr more ↦ ground arith
    ]
  ]

  pub observe_undecided :
      (p : JsonProbe) (l : List ℕ)
      → (observe p l).1 ≡ none
      → p.samples < json_probe_lines
      → (observe p l).0.samples < json_probe_lines
  observe_undecided p l e h = elim (Bool-cases (is_blank l)) [
    | inl blank ↦ rw (observe_blank p l blank) h
    | inr text ↦
        let next = count_sample p (is_json_line l) in
        rw (observe_text p l text)
          (decide_undecided next.0.samples next.0.matches (rw (observe_text p l text) at e))
  ]

  -- The callers' loop: the lines are observed up to a decision.
  unfoldable pub observe_all : List (List ℕ) → JsonProbe × Option Bool → Option Bool
  observe_all [] r = r.1
  observe_all (l ∷ ls) r = elim (r.1) [
    | some is_json ↦ some is_json
    | none ↦ observe_all ls (observe r.0 l)
  ]

  unfoldable pub count_json : List (List ℕ) → ℕ
  count_json [] = 0
  count_json (l ∷ ls) = if is_json_line l then suc (count_json ls) else count_json ls

  -- The decision by counting, with `m` matches before and `r` samples to come.
  abbrev verdict_from : ℕ → ℕ → List (List ℕ) → Option Bool
  verdict_from m r ls =
      if leb json_required_matches (m + count_json (take r ls))
      then some true
      else if leb r (length ls)
      then some false
      else none

  pub observe_all-decided :
      (ls : List (List ℕ)) (p : JsonProbe) (b : Bool) → observe_all ls (p, some b) ≡ some b
  unfolding observe_all
  observe_all-decided [] p b = refl
  observe_all-decided (l ∷ ls) p b = refl

  after_sample :
      (s m r : ℕ) (ls : List (List ℕ))
      → s + r ≡ 10
      → ((r' : ℕ)
          → s + suc r' ≡ 10
          → m < 5
          → observe_all ls (record { samples = s; matches = m }, none)
            ≡ verdict_from m (suc r') (samples_of ls))
      → observe_all ls (record { samples = s; matches = m }, decide s m)
        ≡ verdict_from m r (samples_of ls)
  unfolding count_json
  after_sample s m r ls hs ih = elim (Bool-cases (leb json_required_matches m)) [
    | inl enough ↦
        let q : leb json_required_matches (m + count_json (take r (samples_of ls))) ≡ true =
          ground arith in
        rw (enough, q) (observe_all-decided ls (record { samples = s; matches = m }) true)
    | inr few ↦ elim (Nat-cases r) [
      | inl z ↦
          let q : leb json_probe_lines s ≡ true = ground arith in
          let q' : m + 0 ≡ m = omega arith in
          let q0 : leb 0 (length (samples_of ls)) ≡ true = ground arith in
          rw (few, q, z, q', few, q0)
            (observe_all-decided ls (record { samples = s; matches = m }) false)
      | inr (r', e) ↦
          let q : leb json_probe_lines s ≡ false = ground arith in
          rw (few, q, e) (ih r' (ground arith) (ground arith))
    ]
  ]

  observe_all-verdict_from :
      (s m r : ℕ) (lines : List (List ℕ))
      → s + suc r ≡ 10
      → m < 5
      → observe_all lines (record { samples = s; matches = m }, none)
        ≡ verdict_from m (suc r) (samples_of lines)
  unfolding observe_all samples_of count_json
  observe_all-verdict_from s m r [] hs hm = ground arith
  observe_all-verdict_from s m r (l ∷ ls) hs hm = elim (Bool-cases (is_blank l)) [
    | inl blank ↦
        rw (samples_of, blank, observe_blank (record { samples = s; matches = m }) l blank)
          (observe_all-verdict_from s m r ls hs hm)
    | inr text ↦
        rw (samples_of, text, observe_text (record { samples = s; matches = m }) l text)
          (elim (Bool-cases (is_json_line l)) [
            | inl json ↦
                let q : m + suc (count_json (take r (samples_of ls)))
                    ≡ m + 1 + count_json (take r (samples_of ls)) =
                  omega arith in
                rw (count_json, json, q, leb-suc r (length (samples_of ls)))
                  (after_sample (s + 1) (m + 1) r ls (omega arith)
                    (λ r' h h'. observe_all-verdict_from (s + 1) (m + 1) r' ls h h'))
            | inr other ↦
                rw (count_json, other, leb-suc r (length (samples_of ls)))
                  (after_sample (s + 1) m r ls (omega arith)
                    (λ r' h h'. observe_all-verdict_from (s + 1) m r' ls h h'))
          ])
  ]

  -- Observing lines up to a decision gives: JSON, if at least 5 of the first 10 lines that are not
  -- blank are JSON objects; else not JSON, if there are 10 lines that are not blank; else no
  -- decision.
  pub observe_all-verdict :
      (lines : List (List ℕ))
      → observe_all lines (new_probe, none) ≡ (
          if leb json_required_matches (count_json (take json_probe_lines (samples_of lines)))
          then some true
          else if leb json_probe_lines (length (samples_of lines))
          then some false
          else none)
  observe_all-verdict lines =
      let c = count_json (take json_probe_lines (samples_of lines)) in
      let q : c ≡ 0 + c = omega arith in
      rw q (observe_all-verdict_from 0 0 9 lines (omega arith) (omega arith))
