-- ===== src/Indexes/Values.antt =====
-- server/internal/indexes/manager.go: `ListValues`, the pages of an index's values with their counts, the
-- latest first. A time is 0 for Go's zero time, and else one more than the instant of the reference.
pub mod Tally
pub mod Counted
pub mod Less
pub mod Iterated
pub mod Listed
pub mod Tests
use simple_logging.Prelude.{
  ℕ, zero, suc, ◌+◌, ◌-◌, ◌≡◌, refl, Bool, true, false, not, ◌&&◌, List, [], ◌∷◌, Option, none,
  some, length, drop, min, ltb, ◌==◌, if◌then◌else◌, Result, ok, err, ◌>>=◌,
}
use simple_logging.Prelude.Text.{text_eq, text_lt}
use simple_logging.Prelude.Decimal.{itoa}
use simple_logging.Prelude.Assoc.{find, put}
use simple_logging.Paging.Sort.{sort}
use simple_logging.Paging.Heap.{heap_push, heap_pop}
use simple_logging.Storage.Layout.{contains_string}
use simple_logging.Indexes.Reference.{
  Reference, Error, invalid_key, not_exist, invalid_token, scan_shard,
}
use simple_logging.Indexes.Available.{Files, FileSizes, reference_available}
use simple_logging.Indexes.Page.{instant, parse_start}
use simple_logging.Indexes.Field.{valid_key}
use simple_logging.Indexes.Rebuild.{Index}

pub record ValueInfo : Type 0 where
  pub value : List ℕ
  pub count : ℕ
  pub last_updated : ℕ

unfoldable pub value_info_less : ValueInfo → ValueInfo → Bool
value_info_less a b =
    if a.last_updated == b.last_updated
    then text_lt a.value b.value
    else ltb b.last_updated a.last_updated

-- `byValue`
abbrev pub ByValue : Type 0
ByValue = List (List ℕ × ValueInfo)

-- `byValue[ref.Value]`, with the zero value for a missing key.
abbrev pub info_or_zero : Option ValueInfo → ValueInfo
info_or_zero none = record { value = []; count = 0; last_updated = 0 }
info_or_zero (some info) = info

-- The entry of a value with one more reference.
abbrev pub with_one_more : Reference → ValueInfo → ValueInfo
with_one_more r info =
    let at = suc (instant r.timestamp) in
    record {
      value = r.value;
      count = info.count + 1;
      last_updated = if r.valid_time && ltb info.last_updated at then at else info.last_updated;
    }

-- What the callback does to the map for a reference that is available.
unfoldable pub count_value : Reference → ByValue → ByValue
count_value r m = put text_eq r.value (with_one_more r (info_or_zero (find text_eq r.value m))) m

-- `heap.Push`, then `heap.Pop` if the heap has passed the limit, with `valueInfoHeap.Less`.
unfoldable pub push_value : ℕ → List ValueInfo → ValueInfo → List ValueInfo
unfolding heap_push heap_pop
push_value limit h x =
    let h' = heap_push x h in
    if ltb limit (length h') then heap_pop (λ a b. value_info_less b a) h' else h'

unfoldable pub push_values : ℕ → List ValueInfo → List ValueInfo → List ValueInfo
push_values limit h [] = h
push_values limit h (x ∷ xs) = push_values limit (push_value limit h x) xs

abbrev pub infos_in : ByValue → List ValueInfo
infos_in [] = []
infos_in ((v, info) ∷ m) = info ∷ infos_in m

-- What the loop over the shards carries on.
pub record ValueScan : Type 0 where
  pub heap : List ValueInfo
  pub value_count : ℕ
  pub file_sizes : FileSizes

module _ (logs_root : List ℕ) (files : Files) where
  unfoldable pub visit_value : ByValue × FileSizes → Reference → Result Error (ByValue × FileSizes)
  visit_value (m, sizes) r =
      let (available, sizes') = reference_available logs_root files r sizes in
      if not available then ok (m, sizes') else ok (count_value r m, sizes')

abbrev pub values_page_size : ℕ → ℕ
values_page_size size = if size == 0 then 50 else if ltb 200 size then 200 else size

-- From the sorting of the heap on: the page and the tokens of the pages beside it.
unfoldable pub finish_values : ℕ → ℕ → ValueScan → Result Error (List ValueInfo × List ℕ × List ℕ)
finish_values page_size start s =
    let values = sort value_info_less s.heap in
    let from = min start (length values) in
    let page = drop from values in
    let end = from + length page in
    if ltb s.value_count start
    then err invalid_token
    else ok (
      page,
      if ltb end s.value_count then itoa end else [],
      if ltb 0 from then itoa (from - page_size) else [],
    )

-- `order n` is the order in which the map of the shard `n` is iterated.
module _ (logs_root : List ℕ) (files : Files) (order : ℕ → List ValueInfo → List ValueInfo) where
  -- The loop over `left` more shards from the shard `n` on.
  unfoldable pub scan_values : ℕ → ℕ → ℕ → Index → ValueScan → Result Error ValueScan
  unfolding visit_value
  scan_values limit zero n index s = ok s
  scan_values limit (suc left) n index s =
      scan_shard (visit_value logs_root files) (index n) ([], s.file_sizes) >>= λ scanned.
      let infos = order n (infos_in scanned.0) in
      scan_values limit left (suc n) index (record {
        heap = push_values limit s.heap infos;
        value_count = s.value_count + length infos;
        file_sizes = scanned.1;
      })

  -- `ListValues` for an index with 256 shards. A request's negative page size counts as 0.
  unfoldable pub list_values :
      List (List ℕ) → Index → List ℕ → ℕ → List ℕ → Result Error (List ValueInfo × List ℕ × List ℕ)
  unfolding scan_values finish_values parse_start
  list_values keys index key request_size page_token =
      let page_size = values_page_size request_size in
      if not (valid_key key)
      then err invalid_key
      else if not (contains_string keys key)
      then err not_exist
      else elim (parse_start false page_token) [
        | none ↦ err invalid_token
        | some start ↦
            scan_values (start + page_size) 256 0 index
              (record { heap = []; value_count = 0; file_sizes = [] })
            >>= finish_values page_size start
      ]
