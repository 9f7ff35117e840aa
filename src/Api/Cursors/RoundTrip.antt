-- ===== src/Api/Cursors/RoundTrip.antt =====
-- The cursor of a response, `_next_cursor` of src/localmail/api/search.py, sent back with the next
-- request.
use localmail.Api.Cursors.{
  decoded, WalkCursor, Text, Library, encode_search_cursor, encode_keyset_cursor, is_empty, decimal,
  CursorResult,
}
use localmail.Common.{
  ◌==◌, if◌then◌else◌, ◌||◌, ◌&&◌, ltb, Bool-cases, ℕ, ◌+◌, ◌≤◌, ◌≡◌, refl, ap, inl, inr, Bool,
  true, false, Option, none, some, ◌∷◌, arith, not,
}
use localmail.Query.Text.{Text, is_empty}
use localmail.Api.Cursors.Browse.{Without, IsLibrary, decimal-Without}
use localmail.Api.Filters.Decimal.{IsBigint}
use localmail.Api.Filters.{decimal}
use localmail.Api.Cursors.Next.{PageEnd, next_cursor, pool_goes_on, pool_cursor, cursor_after}
use localmail.Api.Cursors.Plan.{
  CursorPlan, resolve_cursor_plan, keyset_plan, walk_continues, pool_plan, walk_for_text,
}
use localmail.Query.Compose.Sound.{all-append}
use localmail.Api.Cursors.Codecs.{
  encode_keyset-is_keyset_cursor, Without-is_keyset_cursor, encode-decode_keyset_cursor,
  encode-decode_search_cursor,
}

-- The plan that a page promises to the next request, where it promises one: the page after it in the
-- pool, where the pool has more, or can grow and is not at its most.
abbrev pool_promised : PageEnd → ℕ → Option Text → Option CursorPlan
pool_promised p most none = none
pool_promised p most (some token) =
    if p.has_more_in_pool || (p.can_grow_pool && ltb p.candidates_per_arm most)
    then some (pool_plan (record { token = token; page = p.page + 1 }) none none)
    else none

abbrev promised_after : PageEnd → ℕ → Option WalkCursor → Option CursorPlan
promised_after p most (some ks) = some (keyset_plan ks)
promised_after p most none = pool_promised p most p.search_token

abbrev pub promised : PageEnd → ℕ → Option CursorPlan
promised p most = promised_after p most p.next_keyset

-- A row's id and the next page fit a BIGINT, a token is not empty and has no bar, and a text search
-- comes back with its free text.
pub record IsServed (p : PageEnd) (free_text : Text) : Type 0 where
  pub walk_served :
      (ks : WalkCursor)
      → p.next_keyset ≡ some ks
      → IsBigint ks.id × (walk_continues ks.walk (walk_for_text free_text) ≡ true)
  pub token_served :
      (token : Text) → p.search_token ≡ some token → (is_empty token ≡ false) × Without b'|' token
  pub page_served : IsBigint (p.page + 1)

abbrev pub plan_for :
    (Text → Text) → (ℕ → Bool) → Library → Text → Option Text → Option (CursorResult CursorPlan)
plan_for lower is_alnum lib free_text none = none
plan_for lower is_alnum lib free_text (some raw) =
    some (resolve_cursor_plan lower is_alnum lib (some raw) none none free_text)

abbrev pub as_decoded : Option CursorPlan → Option (CursorResult CursorPlan)
as_decoded none = none
as_decoded (some plan) = some (decoded plan)

module _ (lower : Text → Text) (is_alnum : ℕ → Bool) (lib : Library) (is_library : IsLibrary lib)
    (free_text : Text) where
  keyset-plan :
      (ks : WalkCursor)
      → IsBigint ks.id
      → walk_continues ks.walk (walk_for_text free_text) ≡ true
      → resolve_cursor_plan lower is_alnum lib
          (some (encode_keyset_cursor lib ks))
          none
          none
          free_text
        ≡ decoded (keyset_plan ks)
  unfolding resolve_cursor_plan
  keyset-plan ks b w =
      rw
        (
          encode_keyset-is_keyset_cursor lib is_library ks,
          encode-decode_keyset_cursor lib is_library ks b,
          w,
        )
        refl

  search-Without :
      (token : Text) (page : ℕ)
      → Without b'|' token
      → Without b'|' (encode_search_cursor (record { token = token; page = page }))
  unfolding encode_search_cursor
  search-Without token page h =
      rw (all-append (λ d. not (d == b'|')) token (b':' ∷ decimal page), h)
        (decimal-Without b'|' page refl)

  pool-plan :
      (token : Text) (page : ℕ)
      → is_empty token ≡ false
      → Without b'|' token
      → IsBigint page
      → 1 ≤ page
      → resolve_cursor_plan lower is_alnum lib
          (some (encode_search_cursor (record { token = token; page = page })))
          none
          none
          free_text
        ≡ decoded (pool_plan (record { token = token; page = page }) none none)
  unfolding resolve_cursor_plan
  pool-plan token page n h b p =
      rw
        (
          Without-is_keyset_cursor lib
              (encode_search_cursor (record { token = token; page = page }))
              (search-Without token page h),
          encode-decode_search_cursor token page n b p,
        )
        refl

  pool_case :
      (p : PageEnd) (most : ℕ) (o : Option Text)
      → IsServed p free_text
      → p.search_token ≡ o
      → plan_for lower is_alnum lib free_text (pool_cursor lib p most o)
        ≡ as_decoded (pool_promised p most o)
  pool_case p most none served e = refl
  pool_case p most (some token) served e =
      let (filled, bare) = served.token_served token e in
      elim (Bool-cases (pool_goes_on p most)) [
        | inl g ↦
            rw g
              (ap some (pool-plan token (p.page + 1) filled bare served.page_served (omega arith)))
        | inr g ↦ rw g refl
      ]

  keyset_case :
      (p : PageEnd) (most : ℕ) (o : Option WalkCursor)
      → IsServed p free_text
      → p.next_keyset ≡ o
      → plan_for lower is_alnum lib free_text (cursor_after lib p most o)
        ≡ as_decoded (promised_after p most o)
  keyset_case p most none served e = pool_case p most p.search_token served refl
  keyset_case p most (some ks) served e =
      let (b, w) = served.walk_served ks e in ap some (keyset-plan ks b w)

  -- The cursor of every response, sent back with no ordering stated, is read as exactly what the
  -- page promised: the position, direction and walk of a date-ordered page, or the page after it
  -- in the same pool, where that has more or can still grow; and a page that promises nothing has no cursor. The library's codecs are read back,
  -- ids and pages fit a BIGINT, a token is not empty and has no bar, and a text search comes back
  -- with a free text.
  pub next_cursor-resolve_cursor_plan :
      (p : PageEnd) (most : ℕ)
      → IsServed p free_text
      → plan_for lower is_alnum lib free_text (next_cursor lib p most)
        ≡ as_decoded (promised p most)
  unfolding next_cursor
  next_cursor-resolve_cursor_plan p most served = keyset_case p most p.next_keyset served refl
