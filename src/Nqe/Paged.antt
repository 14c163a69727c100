-- ===== src/Nqe/Paged.antt =====
-- nqe_paged.go: `RunAll` and `runAllOnce`. The server is a parameter: its reply to each request of
-- each pass.
pub mod Keys
pub mod Turns
pub mod Coherent
pub mod Results
pub mod Scanned
pub mod Complete
pub mod Recovery
use forward_go_sdk.Prelude.{
  ℕ, zero, suc, ◌+◌, ◌-◌, ◌%◌, ◌^◌, ◌==◌, Bool, true, false, ◌||◌, not, Option, none, some, List,
  [], ◌∷◌, ◌++◌, length, ltb, if◌then◌else◌,
}
use forward_go_sdk.Prelude.Int.{ℤ, pos, negsuc, ltb_ℤ, max_int32, positive_or}
use forward_go_sdk.Text.{Text, codes, text_eq, is_empty, is_member, trim_space}
use forward_go_sdk.Rounds.{
  Reply, answer, refusal, Step, finish, leave, go, Ended, out_of_fuel, finished, left, repeat,
}

-- A row: the raw JSON value of each column.
abbrev pub NqeRecord : Type 0
NqeRecord = List (Text × Text)

unfoldable pub column : Text → NqeRecord → Option Text
column key [] = none
column key ((name, value) ∷ cells) = if text_eq name key then some value else column key cells

pub record SortOrder : Type 0 where
  pub column_name : Text
  pub order : Text

-- What `runAllOnce` reads of the answer to a page's request.
pub record Page : Type 0 where
  pub snapshot_id : Text
  pub total_num_items : ℤ
  pub items : List NqeRecord

-- What it sets in the request; the rest of the query is the same for every page.
pub record PageRequest : Type 0 where
  pub snapshot_id : Text
  pub sort_by : SortOrder
  pub offset : ℤ
  pub limit : ℕ

pub record PagedOptions : Type 0 where
  pub page_size : ℤ
  pub key_column : Text
  pub max_rows : ℤ
  pub attempts : ℤ

-- What makes a pass inconsistent.
pub data Problem : Type 0 where
  total_changed : ℤ → ℤ → ℤ → Problem
  repeated_key : Text → ℤ → Problem
  wrong_count : ℕ → ℤ → Problem

pub data PagedError : Type 0 where
  page_size_too_large max_rows_too_large no_key_column : PagedError
  request_error : Text → PagedError
  no_snapshot : PagedError
  too_many_rows : ℤ → PagedError
  row_without_key : PagedError
  offset_too_large : PagedError
  inconsistent : ℕ → Option Problem → PagedError

-- How a pass ends.
pub data PassEnd : Type 0 where
  complete : List NqeRecord → PassEnd
  problem : Problem → PassEnd
  failure : PagedError → PassEnd

-- The local variables of `runAllOnce`; a total below 0 is not known yet.
pub record Pass : Type 0 where
  pub pinned : Text
  pub total : ℤ
  pub seen : List Text
  pub rows : List NqeRecord

pub data Scan : Type 0 where
  scanned : List Text → Scan
  keyless : Scan
  repeated : Text → Scan

abbrev pub null : Text
null = codes "null"

-- The loop over the rows of a page that checks their keys.
unfoldable pub scan : Text → List NqeRecord → List Text → Scan
unfolding column
scan key [] seen = scanned seen
scan key (item ∷ items) seen = elim (column key item) [
  | none ↦ keyless
  | some raw ↦
      if is_empty raw || text_eq raw null
      then keyless
      else if is_member raw seen
      then repeated raw
      else scan key items (seen ++ raw ∷ [])
]

-- The check is skipped without a key.
unfoldable pub check_keys : Text → List NqeRecord → List Text → Scan
unfolding scan
check_keys key items seen = if is_empty key then scanned seen else scan key items seen

-- The conversion of an int to an int32.
unfoldable pub to_int32 : ℕ → ℤ
to_int32 n =
    let bits = n % 2 ^ 32 in if ltb bits (2 ^ 31) then pos bits else negsuc (2 ^ 32 - bits - 1)

abbrev pub is_none_yet : ℤ → Bool
is_none_yet (pos n) = false
is_none_yet (negsuc n) = true

abbrev pub eq_ℤ : ℤ → ℤ → Bool
eq_ℤ (pos a) (pos b) = a == b
eq_ℤ (negsuc a) (negsuc b) = a == b
eq_ℤ _ _ = false

abbrev pub no_rows : List NqeRecord → Bool
no_rows [] = true
no_rows (_ ∷ _) = false

-- The end of a round: stop with all rows or an empty page, or ask for the next page.
unfoldable pub advance : Page → Pass → Step Pass PassEnd
advance page l =
    if not (ltb_ℤ (pos (length l.rows)) l.total) || no_rows page.items
    then leave l
    else if ltb max_int32 (length l.rows)
    then finish (failure offset_too_large)
    else go l

abbrev pub pin : Page → Pass → Text
pin page l = if is_empty l.pinned then page.snapshot_id else l.pinned

abbrev pub first_pass : Text → Pass
first_pass snapshot = record { pinned = snapshot; total = negsuc 0; seen = []; rows = [] }

unfoldable pub pass_end : Ended Pass PassEnd → Option PassEnd
pass_end out_of_fuel = none
pass_end (finished e) = some e
pass_end (left l) =
    if eq_ℤ (pos (length l.rows)) l.total
    then some (complete l.rows)
    else some (problem (wrong_count (length l.rows) l.total))

module _ (sort_by : SortOrder) (page_size max_rows : ℕ) (key : Text) where
  unfoldable pub request : Pass → PageRequest
  unfolding to_int32
  request l = record {
    snapshot_id = l.pinned;
    sort_by = sort_by;
    offset = to_int32 (length l.rows);
    limit = page_size;
  }

  unfoldable pub read_rows : Page → Pass → Step Pass PassEnd
  unfolding check_keys advance
  read_rows page l = elim (check_keys key page.items l.seen) [
    | keyless ↦ finish (failure row_without_key)
    | repeated raw ↦ finish (problem (repeated_key raw (to_int32 (length l.rows))))
    | scanned seen ↦ advance page (record l { seen = seen; rows = l.rows ++ page.items })
  ]

  -- The first page gives the total, and the others must repeat it.
  unfoldable pub check_total : Page → Pass → Step Pass PassEnd
  unfolding read_rows
  check_total page l =
      if is_none_yet l.total
      then if ltb_ℤ (pos max_rows) page.total_num_items
        then finish (failure (too_many_rows page.total_num_items))
        else read_rows page (record l { total = page.total_num_items })
      else if eq_ℤ page.total_num_items l.total
      then read_rows page l
      else finish (problem (total_changed l.total page.total_num_items (to_int32 (length l.rows))))

  unfoldable pub read_page : Page → Pass → Step Pass PassEnd
  unfolding check_total
  read_page page l =
      let pinned = pin page l in
      if is_empty pinned
      then finish (failure no_snapshot)
      else check_total page (record l { pinned = pinned })

  unfoldable pub page_reply : Reply Page → Pass → Step Pass PassEnd
  unfolding read_page
  page_reply (refusal e) l = finish (failure (request_error e))
  page_reply (answer page) l = read_page page l

  -- The requests of a pass are numbered from 0.
  unfoldable pub page_round : (ℕ → PageRequest → Reply Page) → ℕ → Pass → Step Pass PassEnd
  unfolding page_reply request
  page_round server i l = page_reply (server i (request l)) l

  -- `runAllOnce`. Every page but the last brings a row, and the total is at most `max_rows`.
  unfoldable pub run_all_once : (ℕ → PageRequest → Reply Page) → Text → Option PassEnd
  unfolding page_round pass_end
  run_all_once server snapshot =
      pass_end (repeat (page_round server) (max_rows + 1) 0 (first_pass snapshot))

pub data Answer : Type 0 where
  all_rows : List NqeRecord → Answer
  failed : PagedError → Answer

module _ (run_pass : ℕ → Option PassEnd) where
  -- The passes from `attempt` on, of which there are `more`.
  unfoldable pub run_attempts : ℕ → ℕ → Option Problem → Option Answer
  run_attempts zero attempt last = some (failed (inconsistent attempt last))
  run_attempts (suc more) attempt last = elim (run_pass attempt) [
    | none ↦ none
    | some (complete rows) ↦ some (all_rows rows)
    | some (failure e) ↦ some (failed e)
    | some (problem p) ↦ run_attempts more (attempt + 1) (some p)
  ]

abbrev pub chosen_sort : Text → Option SortOrder → SortOrder
chosen_sort key none = record { column_name = key; order = codes "ASC" }
chosen_sort key (some s) = s

-- `RunAll`, with the sort order of the query if it has one. The server's replies are numbered by
-- pass and request.
unfoldable pub run_all :
    (ℕ → ℕ → PageRequest → Reply Page) → Text → Option SortOrder → PagedOptions → Option Answer
unfolding run_all_once run_attempts
run_all server snapshot query_sort options =
    let page_size = positive_or options.page_size 1000 in
    let max_rows = positive_or options.max_rows 1_000_000 in
    if ltb 10000 page_size
    then some (failed page_size_too_large)
    else if ltb max_int32 max_rows
    then some (failed max_rows_too_large)
    else if is_empty (trim_space options.key_column)
    then some (failed no_key_column)
    else run_attempts
        (λ attempt.
          run_all_once (chosen_sort options.key_column query_sort) page_size max_rows
            options.key_column (server attempt) snapshot)
        (positive_or options.attempts 3) 0 none
