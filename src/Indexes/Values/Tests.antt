-- ===== src/Indexes/Values/Tests.antt =====
-- server/internal/indexes/manager.go: a run of `ListValues` at a concrete index.
use mathlib.Core.List.Permᴰ
use simple_logging.Prelude.{
  ℕ, ◌≡◌, refl, true, List, [], ◌∷◌, none, some, All, ok, ◌==◌, if◌then◌else◌, arith, Bool-cases,
  inl, inr,
}
use simple_logging.Prelude.Text.{codes, text_eq}
use simple_logging.Prelude.Assoc.{find, IsMap}
use simple_logging.Prelude.Decimal.{atoi_nonneg}
use simple_logging.Storage.Layout.{contains_string}
use simple_logging.Indexes.Reference.{Reference, scan_shard}
use simple_logging.Indexes.Reference.RoundTrip.{Fits}
use simple_logging.Indexes.Reference.Scan.{append_all, append_all-stored, visit_all}
use simple_logging.Indexes.Available.{Files}
use simple_logging.Indexes.Field.{Codecs, shard_number, valid_key}
use simple_logging.Indexes.Page.{parse_start}
use simple_logging.Indexes.Page.Spec.{Stores}
use simple_logging.Indexes.Rebuild.{Index}
use simple_logging.Indexes.Values.{ValueInfo, list_values, values_page_size}
use simple_logging.Indexes.Values.Tally.{tally}
use simple_logging.Indexes.Values.Counted.{info_of}
use simple_logging.Indexes.Values.Iterated.{iterated}
use simple_logging.Indexes.Values.Listed.{list_values-listed_page, listed_page}

abbrev one_file : Files
one_file path = if text_eq path (codes "l/n/p/c/d.log") then some (codes "hello\nworld\n") else none

abbrev ref_of : List ℕ → ℕ → ℕ → Reference
ref_of value time offset = record {
  timestamp = time;
  valid_time = true;
  namespace = codes "n";
  pod = codes "p";
  container = codes "c";
  segment = codes "d";
  value = value;
  offset = offset;
  line_length = 5;
}

-- Two references with a value, one with another, and one past the end of the file.
abbrev early : Reference
early = ref_of (codes "v") 3 0

abbrev twice : Reference
twice = ref_of (codes "v") 9 6

abbrev other : Reference
other = ref_of (codes "w") 5 6

abbrev lost : Reference
lost = ref_of (codes "u") 11 8

early-Fits : Fits early
early-Fits = record {
  timestamp_fits = omega arith;
  offset_fits = omega arith;
  line_length_fits = omega arith;
  body_fits = omega arith;
}

others-Fits : All Fits (other ∷ twice ∷ lost ∷ [])
others-Fits = (
  record {
    timestamp_fits = omega arith;
    offset_fits = omega arith;
    line_length_fits = omega arith;
    body_fits = omega arith;
  },
  (
    record {
      timestamp_fits = omega arith;
      offset_fits = omega arith;
      line_length_fits = omega arith;
      body_fits = omega arith;
    },
    (
      record {
        timestamp_fits = omega arith;
        offset_fits = omega arith;
        line_length_fits = omega arith;
        body_fits = omega arith;
      },
      tt,
    ),
  ),
)

abbrev stored :
    (file : List ℕ) × (append_all none (early ∷ other ∷ twice ∷ lost ∷ []) ≡ ok (some file))
    × Stores (some file) (early ∷ other ∷ twice ∷ lost ∷ [])
stored = append_all-stored early (other ∷ twice ∷ lost ∷ []) early-Fits others-Fits

-- All values have the digest 7.
abbrev codecs : Codecs
codecs = record {
  unmarshal = λ payload. none;
  format_float = λ bits. [];
  parse_time = λ s. none;
  sum256 = λ s. 7 ∷ [];
}

abbrev refs : ℕ → List Reference
refs n = if n == 7 then early ∷ other ∷ twice ∷ lost ∷ [] else []

abbrev index : Index
index n = if n == 7 then some stored.0 else none

index-Stores : (n : ℕ) → Stores (index n) (refs n)
unfolding scan_shard visit_all
index-Stores n = elim (Bool-cases (n == 7)) [
  | inl here ↦ rw here stored.2
  | inr there ↦ rw there (λ S visit s. refl)
]

refs_sharded : (n : ℕ) → All (λ r. shard_number codecs r.value ≡ n) (refs n)
unfolding shard_number
refs_sharded n = elim (Bool-cases (n == 7)) [
  | inl here ↦ let e : 7 ≡ n = ground arith in rw here (e, (e, (e, (e, tt))))
  | inr there ↦ rw there tt
]

abbrev in_order : ℕ → List ValueInfo → List ValueInfo
in_order n xs = xs

list_values-listed_page_example :
    (list_values (codes "l") one_file in_order (codes "k" ∷ []) index (codes "k") 1 (codes "1")
      ≡ listed_page (values_page_size 1) 1 (iterated (codes "l") one_file in_order refs 256 0))
    × ((n : ℕ)
        → IsMap text_eq (tally (codes "l") one_file (refs n) [])
          × ((v : List ℕ)
              → find text_eq v (tally (codes "l") one_file (refs n) [])
                ≡ info_of (codes "l") one_file v (refs n)))
unfolding parse_start valid_key atoi_nonneg contains_string
list_values-listed_page_example =
    list_values-listed_page (codes "l") one_file in_order refs index index-Stores codecs
      (codes "k" ∷ []) (codes "k") 1 1 (codes "1") (λ n xs. Permᴰ.refl xs) refs_sharded refl refl
      refl
