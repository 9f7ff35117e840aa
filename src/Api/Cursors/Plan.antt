-- ===== src/Api/Cursors/Plan.antt =====
-- How a request's ordering and its cursor become a plan: `resolve_cursor_plan` of
-- src/localmail/api/search_cursor.py, with the rules of src/localmail/search/sort_axes.py and
-- src/localmail/search/keyset_walk.py. `str.lower` and `str.isalnum` are parameters.
use localmail.Keyset.{asc, desc, SortOrder}
use localmail.Api.Cursors.{
  decoded, validation_failed, value_error, text_walk, archive_walk, SortOrder, Text, KeysetWalk,
  WalkCursor, is_empty, CursorResult, Library, SearchCursor, is_keyset_cursor, decode_keyset_cursor,
  decode_search_cursor,
}
use localmail.Common.{if◌then◌else◌, ℕ, Bool, true, false, not, ◌&&◌, Option, none, some}
use localmail.Query.Text.{Text, is_empty, strip, is_space}
use localmail.Query.Tokens.{semantic_text}

pub data SortMode : Type 0 where
  by_rank by_date : SortMode

pub data CursorPlan : Type 0 where
  fresh_plan : SortMode → SortOrder → CursorPlan
  keyset_plan : WalkCursor → CursorPlan
  pool_plan : SearchCursor → Option SortMode → Option SortOrder → CursorPlan

-- DEFAULT_SORT and DEFAULT_SORT_ORDER
abbrev pub or_default {ℓ} : {A : Type ℓ} → A → Option A → A
or_default d none = d
or_default d (some x) = x

-- `sort_order_applicability_error`: whether it is None.
abbrev pub order_applies : SortMode → SortOrder → Bool
order_applies by_rank asc = false
order_applies by_rank desc = true
order_applies by_date order = true

-- `_reject_sort_mismatch`: whether it lets the request through.
abbrev pub sort_matches : Option SortMode → SortMode → Bool
sort_matches none m = true
sort_matches (some by_rank) by_rank = true
sort_matches (some by_rank) by_date = false
sort_matches (some by_date) by_rank = false
sort_matches (some by_date) by_date = true

-- `_reject_order_mismatch`
abbrev pub order_matches : Option SortOrder → SortOrder → Bool
order_matches none o = true
order_matches (some asc) asc = true
order_matches (some asc) desc = false
order_matches (some desc) asc = false
order_matches (some desc) desc = true

-- `reject_pool_sort_mismatch`
abbrev pub pool_matches : Option SortMode → Option SortOrder → SortMode → SortOrder → Bool
pool_matches sort order pool_sort pool_order =
    sort_matches sort pool_sort && order_matches order pool_order

-- A stated pair that no pool holds.
abbrev pub pool_pair : Option SortMode → Option SortOrder → Bool
pool_pair (some m) (some o) = order_applies m o
pool_pair none o = true
pool_pair (some m) none = true

unfoldable pub walk_for_text : Text → KeysetWalk
walk_for_text free_text = if is_empty (strip is_space free_text) then archive_walk else text_walk

-- `keyset_walk_error`: whether it is None.
abbrev pub walk_continues : KeysetWalk → KeysetWalk → Bool
walk_continues text_walk archive_walk = false
walk_continues text_walk text_walk = true
walk_continues archive_walk walk = true

module _ (lower : Text → Text) (is_alnum : ℕ → Bool) where
  unfoldable pub is_rankable : Text → Bool
  is_rankable free_text = not (is_empty (semantic_text lower is_alnum free_text))

  unfoldable pub resolve_sort : Option SortMode → Text → SortMode
  resolve_sort requested free_text =
      if is_rankable free_text then or_default by_rank requested else by_date

  -- `sort_applicability_error`: whether it is None.
  abbrev pub sort_applies : Option SortMode → Text → Bool
  sort_applies none free_text = true
  sort_applies (some by_date) free_text = true
  sort_applies (some by_rank) free_text = is_rankable free_text

  abbrev pub resolve_fresh : Option SortMode → Option SortOrder → Text → CursorResult CursorPlan
  resolve_fresh sort order free_text =
      if sort_applies sort free_text
      then (if order_applies (resolve_sort sort free_text) (or_default desc order)
          then decoded (fresh_plan (resolve_sort sort free_text) (or_default desc order))
          else validation_failed)
      else validation_failed

  abbrev pub continue_walk :
      Option SortMode → Option SortOrder → Text → CursorResult WalkCursor → CursorResult CursorPlan
  continue_walk sort order free_text validation_failed = validation_failed
  continue_walk sort order free_text value_error = value_error
  continue_walk sort order free_text (decoded ks) =
      if sort_matches sort by_date
        && (order_matches order ks.order && walk_continues ks.walk (walk_for_text free_text))
      then decoded (keyset_plan ks)
      else validation_failed

  abbrev pub continue_pool :
      Option SortMode → Option SortOrder → CursorResult SearchCursor → CursorResult CursorPlan
  continue_pool sort order validation_failed = validation_failed
  continue_pool sort order value_error = value_error
  continue_pool sort order (decoded cursor) =
      if pool_pair sort order then decoded (pool_plan cursor sort order) else validation_failed

  unfoldable pub resolve_cursor_plan :
      Library → Option Text → Option SortMode → Option SortOrder → Text → CursorResult CursorPlan
  resolve_cursor_plan lib none sort order free_text = resolve_fresh sort order free_text
  resolve_cursor_plan lib (some raw) sort order free_text =
      if is_keyset_cursor lib raw
      then continue_walk sort order free_text (decode_keyset_cursor lib raw)
      else continue_pool sort order (decode_search_cursor raw)
