-- ===== src/Indexes/Page.antt =====
-- server/internal/indexes/manager.go: one page of the lines that an index finds for a value, from
-- `readReferencePageLocked` and `GetLogs`, in timestamp order, with decimal page tokens.
pub mod Spec
pub mod Walk
pub mod Hits
use simple_logging.Prelude.{
  ℕ, zero, suc, ◌+◌, ◌-◌, ◌*◌, ◌%◌, ◌^◌, ◌≤◌, ◌<◌, ◌≡◌, refl, Bool, true, false, not, ◌&&◌, List,
  [], ◌∷◌, ◌++◌, Option, none, some, length, take, drop, ltb, leb, ◌==◌, map, if◌then◌else◌, ◌||◌,
  All, Bool-cases, inl, inr, arith, Result, ok, err, ◌>>=◌, min,
}
use simple_logging.Prelude.Text.{codes, text_eq, text_eq_iff}
use simple_logging.Prelude.Decimal.{itoa, atoi_nonneg}
use simple_logging.Prelude.Order.{IsLess}
use simple_logging.Paging.Sort.{sort}
use simple_logging.Paging.Heap.{push_bounded}
use simple_logging.Indexes.Reference.{
  Reference, Error, invalid_key, not_exist, invalid_token, io, scan_shard,
}
use simple_logging.Indexes.Available.{Files, FileSizes, reference_available, read_referenced_line}

-- `sortableEntry`. Its `Entry` is the reference itself; `time` and `valid` are fields of that.
pub record SortableEntry : Type 0 where
  pub entry : Reference
  pub position : ℕ

-- The int64 behind a timestamp's 64 bits, shifted to a natural number.
abbrev pub instant : ℕ → ℕ
instant bits = (bits + 2 ^ 63) % 2 ^ 64

abbrev pub bool_eq : Bool → Bool → Bool
bool_eq true b = b
bool_eq false b = not b

abbrev pub entry_time : SortableEntry → ℕ
entry_time s = instant s.entry.timestamp

unfoldable pub sortable_entry_less : SortableEntry → SortableEntry → Bool
sortable_entry_less a b =
    if not (bool_eq a.entry.valid_time b.entry.valid_time)
    then a.entry.valid_time
    else if a.entry.valid_time && not (entry_time a == entry_time b)
    then ltb (entry_time a) (entry_time b)
    else ltb a.position b.position

pub sortable_entry_less-IsLess : IsLess sortable_entry_less
unfolding sortable_entry_less
sortable_entry_less-IsLess = record {
  less_asymm = λ a b e. ground arith;
  less_split = λ a b c e. ground arith;
}

abbrev pub index_page_size : ℕ → ℕ
index_page_size size = if size == 0 then 200 else if ltb 1000 size then 1000 else size

-- Where the page starts; `none` is an invalid token.
unfoldable pub parse_start : Bool → List ℕ → Option ℕ
parse_start load_last_page page_token =
    if not load_last_page && not (text_eq page_token []) then atoi_nonneg page_token else some 0

-- What the callback of `readReferencePageLocked` captures.
pub record PageScan : Type 0 where
  pub heap : List SortableEntry
  pub total : ℕ
  pub file_sizes : FileSizes

module _ (logs_root : List ℕ) (files : Files) where
  module _ (value : List ℕ) (keep_newest : Bool) (limit : ℕ) where
    unfoldable pub visit_page : PageScan → Reference → Result Error PageScan
    visit_page s r =
        if not (text_eq r.value value)
        then ok s
        else (let (available, sizes) = reference_available logs_root files r s.file_sizes in
            if available
            then ok (record {
              heap =
                  push_bounded sortable_entry_less keep_newest limit s.heap
                    (record { entry = r; position = s.total });
              total = s.total + 1;
              file_sizes = sizes;
            })
            else ok (record s { file_sizes = sizes }))

  -- `readReferencePageLocked` over the value's shard; the page's references and the total.
  unfoldable pub read_reference_page :
      Option (List ℕ) → List ℕ → ℕ → ℕ → Bool → Result Error (List Reference × ℕ)
  unfolding visit_page
  read_reference_page shard value start page_size load_last_page = do
    let limit = if load_last_page then page_size else page_size + start
    s ←
        scan_shard (visit_page value load_last_page limit) shard
          (record { heap = []; total = 0; file_sizes = [] })
    let selected = sort sortable_entry_less s.heap
    let page = if load_last_page then selected else drop (min start (length selected)) selected
    ok (map (λ e. e.entry) page, s.total)

  -- The loop over the page's references: those that cannot be read are left out.
  unfoldable pub read_lines : List Reference → List (List ℕ)
  read_lines [] = []
  read_lines (r ∷ rs) = elim (read_referenced_line logs_root files r) [
    | none ↦ read_lines rs
    | some line ↦ line ∷ read_lines rs
  ]

  -- The part of `GetLogs` behind the scan: the lines, and the tokens of the pages beside this one.
  unfoldable pub finish_page :
      ℕ → ℕ → Bool → List Reference → ℕ → Result Error (List (List ℕ) × List ℕ × List ℕ)
  unfolding read_lines
  finish_page page_size start load_last_page entries total =
      let first = if load_last_page then total - length entries else start in
      let end = first + length entries in
      if ltb total start
      then err invalid_token
      else ok (
        read_lines entries,
        if ltb end total then itoa end else [],
        if ltb 0 first then itoa (first - page_size) else [],
      )

  -- `GetLogs` behind the key checks. A request's negative page size counts as 0.
  unfoldable pub get_index_logs :
      Option (List ℕ) → List ℕ → ℕ → List ℕ → Bool → Result Error (List (List ℕ) × List ℕ × List ℕ)
  unfolding read_reference_page finish_page parse_start
  get_index_logs shard value request_size page_token load_last_page =
      let page_size = index_page_size request_size in
      elim (parse_start load_last_page page_token) [
        | none ↦ err invalid_token
        | some start ↦ read_reference_page shard value start page_size load_last_page >>= λ page.
            finish_page page_size start load_last_page page.0 page.1
      ]
