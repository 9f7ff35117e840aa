-- ===== src/Api/Cursors/Next.antt =====
-- The cursor of a response: `_next_cursor` of src/localmail/api/search.py.
use localmail.Api.Cursors.{
  WalkCursor, Text, Library, SearchCursor, encode_search_cursor, encode_keyset_cursor,
}
use localmail.Common.{ltb, if◌then◌else◌, ℕ, ◌+◌, Bool, ◌&&◌, ◌||◌, Option, none, some}
use localmail.Query.Text.{Text}

-- The fields of a SearchPage that the next cursor is made of.
pub record PageEnd : Type 0 where
  pub next_keyset : Option WalkCursor
  pub search_token : Option Text
  pub page : ℕ
  pub has_more_in_pool : Bool
  pub can_grow_pool : Bool
  pub candidates_per_arm : ℕ

abbrev pub pool_goes_on : PageEnd → ℕ → Bool
pool_goes_on p most = p.has_more_in_pool || (p.can_grow_pool && ltb p.candidates_per_arm most)

abbrev pub next_page : Text → ℕ → SearchCursor
next_page token page = record { token = token; page = page + 1 }

module _ (lib : Library) where
  abbrev pub pool_cursor : PageEnd → ℕ → Option Text → Option Text
  pool_cursor p most none = none
  pool_cursor p most (some token) =
      if pool_goes_on p most then some (encode_search_cursor (next_page token p.page)) else none

  abbrev pub cursor_after : PageEnd → ℕ → Option WalkCursor → Option Text
  cursor_after p most (some ks) = some (encode_keyset_cursor lib ks)
  cursor_after p most none = pool_cursor p most p.search_token

  unfoldable pub next_cursor : PageEnd → ℕ → Option Text
  next_cursor p most = cursor_after p most p.next_keyset
