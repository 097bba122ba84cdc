-- ===== src/Api/LiveTail/Growing.antt =====
-- The lines that the drains of a growing file deliver.
use simple_logging.Prelude.{
  ℕ, zero, suc, ◌+◌, ◌<◌, ◌≡◌, refl, sym, ap, ◌∙◌, false, List, [], ◌∷◌, ◌++◌, length,
  length-append, drop, drop-append_left, append_assoc, append-nil, if◌then◌else◌, ◌==◌, Bool-cases,
  inl, inr, arith,
}
use simple_logging.Prelude.Text.{trim_right}
use simple_logging.Prelude.Bufio.{
  newline, raw_line, is_complete, is_complete-length, raw_line_parts,
}
use simple_logging.Prelude.Slices.{drop-drop, flat}
use simple_logging.Api.LiveTail.{SegmentTail, drain, drain_lines}

-- The complete lines of a text that goes on a partial line, and what stands behind them.
unfoldable pub complete_lines : List ℕ → List ℕ → List (List ℕ) × List ℕ
complete_lines p [] = ([], p)
complete_lines p (c ∷ s) =
    let ended = complete_lines [] s in
    let longer = complete_lines (p ++ (c ∷ [])) s in
    if c == newline then (trim_right (p ++ (c ∷ [])) ∷ ended.0, ended.1) else longer

complete_lines-append :
    (s t p : List ℕ)
    → complete_lines p (s ++ t) ≡ (
      (complete_lines p s).0 ++ (complete_lines (complete_lines p s).1 t).0,
      (complete_lines (complete_lines p s).1 t).1,
    )
unfolding complete_lines
complete_lines-append [] t p = refl
complete_lines-append (c ∷ s) t p = elim (Bool-cases (c == newline)) [
  | inl ends ↦ rw (ends, complete_lines-append s t []) refl
  | inr inside ↦ rw (inside) (complete_lines-append s t (p ++ (c ∷ [])))
]

complete_lines-raw_line :
    (s p : List ℕ)
    → complete_lines p s ≡ (
        if is_complete (raw_line s).0
        then (
          trim_right (p ++ (raw_line s).0) ∷ (complete_lines [] (raw_line s).1).0,
          (complete_lines [] (raw_line s).1).1,
        )
        else ([], p ++ (raw_line s).0))
unfolding complete_lines raw_line is_complete
complete_lines-raw_line [] p = rw (append-nil p) refl
complete_lines-raw_line (c ∷ s) p = elim (Bool-cases (c == newline)) [
  | inl ends ↦ rw (ends, ends) refl
  | inr inside ↦
      rw (inside, inside, complete_lines-raw_line s (p ++ (c ∷ [])))
        (rw (append_assoc p (c ∷ []) (raw_line s).0) refl)
]

incomplete-rest : (s : List ℕ) → is_complete (raw_line s).0 ≡ false → (raw_line s).1 ≡ []
unfolding raw_line is_complete
incomplete-rest [] e = refl
incomplete-rest (c ∷ s) e = elim (Bool-cases (c == newline)) [
  | inl ends ↦ absurd (cc (rw (ends, ends) at e))
  | inr inside ↦ rw inside (incomplete-rest s (rw (inside, inside) at e))
]

-- What the drain of unread bytes leaves.
abbrev drained : List ℕ → SegmentTail → List (List ℕ) × SegmentTail
drained x t =
    let (lines, rest) = complete_lines t.partial x in
    (lines, record t { position = t.position + length x; partial = rest })

drain_lines-drained :
    (f : ℕ) (x bytes : List ℕ) (t : SegmentTail)
    → length x < f
    → drop t.position bytes ≡ x
    → drain_lines f bytes t ≡ drained x t
unfolding drain_lines
drain_lines-drained zero x bytes t h e = absurd (omega arith)
drain_lines-drained (suc f) x bytes t h e = elim (Bool-cases (is_complete (raw_line x).0)) [
  | inl whole ↦
      let (rest, sizes) = raw_line_parts x in
      let chunk = (raw_line x).0 in
      let read : SegmentTail = record {
        path = t.path;
        position = t.position + length chunk;
        partial = [];
      } in
      let some_read : 0 < length chunk = is_complete-length chunk whole in
      let left : drop (t.position + length chunk) bytes ≡ (raw_line x).1 =
        sym (drop-drop t.position (length chunk) bytes) ∙ rw e (sym rest) in
      let ih = drain_lines-drained f (raw_line x).1 bytes read (omega arith) left in
      rw (drain_lines, e, whole, ih, complete_lines-raw_line x t.partial, whole)
        (ap
          (λ n. (
            trim_right (t.partial ++ chunk) ∷ (complete_lines [] (raw_line x).1).0,
            record { path = t.path; position = n; partial = (complete_lines [] (raw_line x).1).1 },
          ))
          (omega arith))
  | inr part ↦
      let (rest, sizes) = raw_line_parts x in
      let none_left : length (raw_line x).1 ≡ 0 = ap length (incomplete-rest x part) in
      rw (drain_lines, e, part, complete_lines-raw_line x t.partial, part)
        (ap
          (λ n. ([], record { path = t.path; position = n; partial = t.partial ++ (raw_line x).0 }))
          (omega (arith, sizes, none_left)))
]

drain-unread :
    (seen x : List ℕ) (t : SegmentTail)
    → t.position ≡ length seen
    → drain (seen ++ x) t ≡ drained x t
unfolding drain
drain-unread seen x t e =
    let left : drop t.position (seen ++ x) ≡ x = rw e (drop-append_left seen x) in
    drain_lines-drained (suc (length (seen ++ x))) x (seen ++ x) t
      (rw (length-append seen x) (omega arith)) left

-- Drains of a file that grows by `pieces` behind what is `seen`.
unfoldable pub drains : List ℕ → List (List ℕ) → SegmentTail → List (List ℕ) × SegmentTail
drains seen [] t = ([], t)
drains seen (x ∷ xs) t =
    let now = drain (seen ++ x) t in
    let rest = drains (seen ++ x) xs now.1 in (now.0 ++ rest.0, rest.1)

-- For a file read up to what was there, which then grows by any pieces, a drain after each piece:
-- all drains together deliver the lines that are complete at the end, each once and in order, the
-- first one with the partial line that was kept before.
pub drains-complete_lines :
    (seen : List ℕ) (pieces : List (List ℕ)) (t : SegmentTail)
    → t.position ≡ length seen
    → (drains seen pieces t).0 ≡ (complete_lines t.partial (flat pieces)).0
unfolding drains complete_lines
drains-complete_lines seen [] t e = refl
drains-complete_lines seen (x ∷ xs) t e =
    let next : SegmentTail = (drained x t).1 in
    let after : next.position ≡ length (seen ++ x) = rw (length-append seen x) (omega (arith, e)) in
    rw (drain-unread seen x t e, complete_lines-append x (flat xs) t.partial)
      (ap (λ ls. (complete_lines t.partial x).0 ++ ls)
        (drains-complete_lines (seen ++ x) xs next after))
