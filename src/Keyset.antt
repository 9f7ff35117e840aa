-- ===== src/Keyset.antt =====
-- The date-ordered walk over messages by keyset: src/localmail/search/date_keyset.py, and
-- `_date_keyset_search` of src/localmail/search/searcher.py over the rows that match the query.
pub mod Ordered
pub mod Walk
pub mod Pages
pub mod Client
mod Examples
use localmail.Common.{
  ℕ, suc, ◌+◌, ◌-◌, ltb, ◌==◌, Bool, true, false, ◌&&◌, ◌||◌, Option, none, some, is_some, is_none,
  List, [], ◌∷◌, ◌++◌, if◌then◌else◌,
}
use localmail.Common.Lists.{length, take}
use localmail.Common.Table.{select}

pub data SortOrder : Type 0 where
  desc asc : SortOrder

-- Moments are numbers.
pub record Message : Type 0 where
  pub id : ℕ
  pub internal_date : Option ℕ
  pub date_sent : Option ℕ

-- `ts` is none in the undated block.
pub record KeysetCursor : Type 0 where
  pub ts : Option ℕ
  pub id : ℕ
  pub order : SortOrder

abbrev pub coalesce : Option ℕ → Option ℕ → Option ℕ
coalesce none d = d
coalesce (some t) d = some t

-- DATE_EXPR_SQL
abbrev pub date_expr : Message → Option ℕ
date_expr m = coalesce m.internal_date m.date_sent

-- ROW(expr, id) < ROW(ts, id), which is NULL where a first entry is
abbrev pub row_lt : Option ℕ → ℕ → Option ℕ → ℕ → Bool
row_lt (some t) i (some u) j = ltb t u || t == u && ltb i j
row_lt none i _ j = false
row_lt (some t) i none j = false

-- ... DESC NULLS LAST, m.id DESC
abbrev pub before_desc : Option ℕ → ℕ → Option ℕ → ℕ → Bool
before_desc (some t) i (some u) j = ltb u t || t == u && ltb j i
before_desc (some t) i none j = true
before_desc none i (some u) j = false
before_desc none i none j = ltb j i

-- `DATE_ORDER_BY_SQL`: ASC NULLS FIRST is the reverse of DESC NULLS LAST.
abbrev pub before_at : SortOrder → Option ℕ → ℕ → Option ℕ → ℕ → Bool
before_at desc t i u j = before_desc t i u j
before_at asc t i u j = before_desc u j t i

abbrev pub before : SortOrder → Message → Message → Bool
before order a b = before_at order (date_expr a) a.id (date_expr b) b.id

-- ORDER BY
unfoldable pub insert_by {ℓ} : {A : Type ℓ} → (A → A → Bool) → A → List A → List A
insert_by r x [] = x ∷ []
insert_by r x (y ∷ rows) = let rest = insert_by r x rows in if r x y then x ∷ y ∷ rows else y ∷ rest

unfoldable pub order_by {ℓ} : {A : Type ℓ} → (A → A → Bool) → List A → List A
order_by r [] = []
order_by r (x ∷ rows) = insert_by r x (order_by r rows)

-- `keyset_clause`
abbrev pub clause_at : SortOrder → Option ℕ → ℕ → Option ℕ → ℕ → Bool
clause_at desc none i u j = is_none u && ltb j i
clause_at desc (some t) i u j = row_lt u j (some t) i
clause_at asc none i u j = is_none u && ltb i j || is_some u
clause_at asc (some t) i u j = row_lt (some t) i u j

abbrev pub keyset_clause : KeysetCursor → Message → Bool
keyset_clause k m = clause_at k.order k.ts k.id (date_expr m) m.id

-- UNDATED_TAIL_ONLY_SQL
abbrev pub undated_tail_only : Message → Bool
undated_tail_only m = is_none (date_expr m)

abbrev pub is_desc : SortOrder → Bool
is_desc desc = true
is_desc asc = false

abbrev pub needs_undated_top_up : Option KeysetCursor → ℕ → ℕ → Bool
needs_undated_top_up none rows_returned fetch_limit = false
needs_undated_top_up (some k) rows_returned fetch_limit =
    is_desc k.order && is_some k.ts && ltb rows_returned fetch_limit

abbrev pub cursor_clause : Option KeysetCursor → Message → Bool
cursor_clause none m = true
cursor_clause (some k) m = keyset_clause k m

abbrev pub last_of : List Message → Option Message
last_of [] = none
last_of (m ∷ []) = some m
last_of (m ∷ n ∷ rows) = last_of (n ∷ rows)

abbrev pub cursor_at : SortOrder → Option Message → Option KeysetCursor
cursor_at order none = none
cursor_at order (some m) = some (record { ts = date_expr m; id = m.id; order = order })

module _ (order : SortOrder) (matching : List Message) where
  -- SELECT ... WHERE p ORDER BY ... LIMIT
  unfoldable pub fetch : (Message → Bool) → ℕ → List Message
  fetch p limit = take limit (order_by (before order) (select p matching))

  abbrev pub topped_up : Option KeysetCursor → ℕ → List Message → List Message
  topped_up keyset fetch_limit rows =
      if needs_undated_top_up keyset (length rows) fetch_limit
      then rows ++ fetch undated_tail_only (fetch_limit - length rows)
      else rows

  abbrev pub fetched : ℕ → Option KeysetCursor → List Message
  fetched page_size keyset =
      topped_up keyset (suc page_size) (fetch (cursor_clause keyset) (suc page_size))

  abbrev pub paged : ℕ → List Message → List Message × Option KeysetCursor
  paged page_size rows = (
    take page_size rows,
    if ltb page_size (length rows) then cursor_at order (last_of (take page_size rows)) else none,
  )

  -- A page, and the cursor of the next one. The cursor's order is that of the walk.
  unfoldable pub date_keyset_search : ℕ → Option KeysetCursor → List Message × Option KeysetCursor
  date_keyset_search page_size keyset = paged page_size (fetched page_size keyset)
