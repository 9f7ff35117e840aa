-- ===== src/Api/Cursors/Codecs.antt =====
-- Cursors of searches, read back: src/localmail/api/search_cursor.py.
use localmail.Api.Cursors.{
  decoded, text_walk, archive_walk, WalkCursor, Text, Library, remove_prefix, is_keyset_cursor,
  rpartition, decode_search_cursor, encode_search_cursor, encode_keyset_cursor, codes, is_empty,
  SortOrder, decode_keyset_cursor, KeysetWalk, decimal, keyset_prefix, encode_browse_cursor,
  walking,
}
use localmail.Keyset.{asc, desc, SortOrder}
use localmail.Common.{
  ◌==◌, ltb, Bool-cases, ℕ, ◌≤◌, ◌≡◌, refl, ap, inl, inr, true, false, none, some, [], ◌∷◌, ◌++◌,
  arith,
}
use localmail.Query.Text.{Text, any, codes, is_empty}
use localmail.Api.Cursors.Browse.{
  Without, IsLibrary, decimal-Without, decimal-parse_nonneg_int, encode-decode_browse_cursor,
}
use localmail.Api.Filters.Decimal.{IsBigint}
use localmail.Api.Filters.{decimal}

remove_prefix-none :
    (p s : Text) → any (λ c. c == b'|') p ≡ true → Without b'|' s → remove_prefix p s ≡ none
unfolding remove_prefix
remove_prefix-none [] s h k = absurd (cc h)
remove_prefix-none (c ∷ p) [] h k = refl
remove_prefix-none (c ∷ p) (d ∷ s) h k = elim (Bool-cases (c == d)) [
  | inr e ↦ rw e refl
  | inl e ↦ rw e (remove_prefix-none p s (ground arith) (ground arith))
]

pub Without-is_keyset_cursor :
    (lib : Library) (s : Text) → Without b'|' s → is_keyset_cursor lib s ≡ false
unfolding is_keyset_cursor
Without-is_keyset_cursor lib s h =
    rw
      (
        remove_prefix-none (codes "KAT|") s refl h,
        remove_prefix-none (codes "KA|") s refl h,
        remove_prefix-none (codes "KT|") s refl h,
        remove_prefix-none (codes "K|") s refl h,
      )
      refl

rpartition-none : (s : Text) → Without b':' s → rpartition s ≡ none
unfolding rpartition
rpartition-none [] h = refl
rpartition-none (c ∷ s) h = elim (Bool-cases (c == b':')) [
  | inl e ↦ absurd (ground arith)
  | inr e ↦ rw (rpartition-none s (ground arith), e) refl
]

rpartition-append : (t u : Text) → Without b':' u → rpartition (t ++ b':' ∷ u) ≡ some (t, u)
unfolding rpartition
rpartition-append [] u h = rw (rpartition-none u h) refl
rpartition-append (c ∷ t) u h = rw (rpartition-append t u h) refl

pub encode-decode_search_cursor :
    (token : Text) (page : ℕ)
    → is_empty token ≡ false
    → IsBigint page
    → 1 ≤ page
    → decode_search_cursor (encode_search_cursor (record { token = token; page = page }))
      ≡ decoded (record { token = token; page = page })
unfolding decode_search_cursor encode_search_cursor
encode-decode_search_cursor token page n b p =
    let first : ltb page 1 ≡ false = ground arith in
    rw
      (
        rpartition-append token (decimal page) (decimal-Without b':' page refl),
        n,
        decimal-parse_nonneg_int page b,
        first,
      )
      refl

module _ (lib : Library) (is_library : IsLibrary lib) where
  pub encode_keyset-is_keyset_cursor :
      (ks : WalkCursor) → is_keyset_cursor lib (encode_keyset_cursor lib ks) ≡ true
  unfolding is_keyset_cursor encode_keyset_cursor remove_prefix
  encode_keyset-is_keyset_cursor ks = by_kind ks.order ks.walk
    where
      by_kind :
          (o : SortOrder) (w : KeysetWalk)
          → is_keyset_cursor lib (
              keyset_prefix lib o w ++ encode_browse_cursor lib (record { ts = ks.ts; id = ks.id }))
            ≡ true
      by_kind asc text_walk = refl
      by_kind asc archive_walk = refl
      by_kind desc text_walk = refl
      by_kind desc archive_walk = refl

  pub encode-decode_keyset_cursor :
      (ks : WalkCursor)
      → IsBigint ks.id
      → decode_keyset_cursor lib (encode_keyset_cursor lib ks) ≡ decoded ks
  unfolding decode_keyset_cursor encode_keyset_cursor remove_prefix
  encode-decode_keyset_cursor ks b = by_kind ks.order ks.walk
    where
      by_kind :
          (o : SortOrder) (w : KeysetWalk)
          → decode_keyset_cursor lib (
              keyset_prefix lib o w ++ encode_browse_cursor lib (record { ts = ks.ts; id = ks.id }))
            ≡ decoded (record { ts = ks.ts; id = ks.id; order = o; walk = w })
      by_kind asc text_walk =
          ap (walking lib asc text_walk) (encode-decode_browse_cursor lib is_library ks.ts ks.id b)
      by_kind asc archive_walk =
          ap (walking lib asc archive_walk)
            (encode-decode_browse_cursor lib is_library ks.ts ks.id b)
      by_kind desc text_walk =
          ap (walking lib desc text_walk) (encode-decode_browse_cursor lib is_library ks.ts ks.id b)
      by_kind desc archive_walk =
          ap (walking lib desc archive_walk)
            (encode-decode_browse_cursor lib is_library ks.ts ks.id b)
