-- ===== src/Api/Cursors/Stated.antt =====
-- What a plan of src/localmail/api/search_cursor.py keeps of the ordering that a request states.
use localmail.Keyset.{asc, desc, SortOrder}
use localmail.Api.Cursors.{
  decoded, validation_failed, value_error, text_walk, Text, SortOrder, CursorResult, Library,
  WalkCursor, SearchCursor, is_keyset_cursor, decode_keyset_cursor, decode_search_cursor,
  strip_right, all, KeysetWalk, is_empty, archive_walk,
}
use localmail.Api.Cursors.Plan.{
  by_rank, by_date, fresh_plan, keyset_plan, pool_plan, SortMode, or_default, resolve_sort,
  resolve_cursor_plan, is_rankable, sort_matches, order_matches, walk_continues, pool_pair,
  sort_applies, order_applies, resolve_fresh, CursorPlan, walk_for_text, continue_walk,
  continue_pool,
}
use localmail.Common.{
  Bool-cases, ℕ, ◌≡◌, refl, sym, ◌∙◌, ◌⊎◌, inl, inr, Bool, true, false, Option, none, some, [], ◌∷◌,
  ap,
}
use localmail.Query.Text.{Text, strip_left, strip_right, all, is_space, is_empty, strip}
use localmail.Api.Cursors.Axes.{
  IsStated, ranked_asc, sort_matches-IsStated, pool_pair-order, or_default-IsStated,
  order_matches-IsStated, ranked_desc, walk_continues-text, sort_conflict, pool_conflict,
  order_conflict,
}

strip_right-is_empty : (s : Text) → is_empty (strip_right is_space s) ≡ all is_space s
unfolding strip_right
strip_right-is_empty [] = refl
strip_right-is_empty (c ∷ s) = elim (Bool-cases (is_space c)) [
  | inl e ↦ elim (Bool-cases (is_empty (strip_right is_space s))) [
    | inl d ↦ rw (e, d) (sym d ∙ strip_right-is_empty s)
    | inr d ↦ rw (e, d) (sym d ∙ strip_right-is_empty s)
  ]
  | inr e ↦ rw e refl
]

strip-is_empty : (s : Text) → is_empty (strip is_space s) ≡ all is_space s
unfolding strip_left strip_right
strip-is_empty [] = refl
strip-is_empty (c ∷ s) = elim (Bool-cases (is_space c)) [
  | inl e ↦ rw e (strip-is_empty s)
  | inr e ↦ rw e (strip_right-is_empty (c ∷ s) ∙ rw e refl)
]

walk_for_text-text : (s : Text) → walk_for_text s ≡ text_walk → all is_space s ≡ false
unfolding walk_for_text
walk_for_text-text s h = elim (Bool-cases (is_empty (strip is_space s))) [
  | inl e ↦ let a : walk_for_text s ≡ archive_walk = rw e refl in absurd (cc (sym a ∙ h))
  | inr e ↦ sym (strip-is_empty s) ∙ e
]

archive-text_walk : (k : KeysetWalk) → walk_continues k archive_walk ≡ false → k ≡ text_walk
archive-text_walk text_walk h = refl
archive-text_walk archive_walk h = absurd (cc h)

text_goes_on : (k : KeysetWalk) → walk_continues k text_walk ≡ false → ⊥
text_goes_on text_walk h = cc h
text_goes_on archive_walk h = cc h

walk_for_text-archive :
    (k : KeysetWalk) (s : Text)
    → walk_continues k (walk_for_text s) ≡ false
    → (k ≡ text_walk) × (all is_space s ≡ true)
unfolding walk_for_text
walk_for_text-archive k s h = elim (Bool-cases (is_empty (strip is_space s))) [
  | inl e ↦
      let a : walk_for_text s ≡ archive_walk = rw e refl in
      (archive-text_walk k (ap (λ w. walk_continues k w) (sym a) ∙ h), sym (strip-is_empty s) ∙ e)
  | inr e ↦
      let a : walk_for_text s ≡ text_walk = rw e refl in
      absurd (text_goes_on k (ap (λ w. walk_continues k w) (sym a) ∙ h))
]

-- What a stated sort and order, and a free text, conflict with in a date-ordered walk.
abbrev pub Conflicts : Option SortMode → Option SortOrder → Text → WalkCursor → Type 0
Conflicts sort order free_text ks =
    (sort ≡ some by_rank)
    ⊎ (((o : SortOrder) × (order ≡ some o) × (o ≡ ks.order → ⊥))
        ⊎ ((ks.walk ≡ text_walk) × (all is_space free_text ≡ true)))

-- Why a keyset cursor with this reading is refused, and a pool cursor.
abbrev pub WalkRefused :
    Option SortMode → Option SortOrder → Text → CursorResult WalkCursor → Type 0
WalkRefused sort order free_text (decoded ks) = Conflicts sort order free_text ks
WalkRefused sort order free_text validation_failed = Unit
WalkRefused sort order free_text value_error = ⊥

abbrev pub PoolRefused : Option SortMode → Option SortOrder → CursorResult SearchCursor → Type 0
PoolRefused sort order (decoded c) = (sort ≡ some by_rank) × (order ≡ some asc)
PoolRefused sort order validation_failed = Unit
PoolRefused sort order value_error = ⊥

module _ (lower : Text → Text) (is_alnum : ℕ → Bool) (lib : Library) where
  -- Why a request is refused.
  abbrev pub IsRefused : Option Text → Option SortMode → Option SortOrder → Text → Type 0
  IsRefused (some raw) sort order free_text =
      ((is_keyset_cursor lib raw ≡ true)
        × WalkRefused sort order free_text (decode_keyset_cursor lib raw))
      ⊎ ((is_keyset_cursor lib raw ≡ false) × PoolRefused sort order (decode_search_cursor raw))
  IsRefused none sort order free_text =
      ((sort ≡ some by_rank) × (is_rankable lower is_alnum free_text ≡ false))
      ⊎ ((order ≡ some asc) × (resolve_sort lower is_alnum sort free_text ≡ by_rank))

  abbrev pub IsHonoured :
      Option Text → Option SortMode → Option SortOrder → Text → CursorResult CursorPlan → Type 0
  IsHonoured cursor sort order free_text (decoded (fresh_plan s o)) =
      (cursor ≡ none)
      × IsStated sort s
      × IsStated order o
      × (s ≡ by_rank → (o ≡ desc) × (is_rankable lower is_alnum free_text ≡ true))
  IsHonoured cursor sort order free_text (decoded (keyset_plan ks)) =
      ((raw : Text) × (cursor ≡ some raw)
        × (is_keyset_cursor lib raw ≡ true)
        × (decode_keyset_cursor lib raw ≡ decoded ks))
      × IsStated sort by_date
      × IsStated order ks.order
      × (ks.walk ≡ text_walk → all is_space free_text ≡ false)
  IsHonoured cursor sort order free_text (decoded (pool_plan c s o)) =
      ((raw : Text) × (cursor ≡ some raw)
        × (is_keyset_cursor lib raw ≡ false)
        × (decode_search_cursor raw ≡ decoded c))
      × (s ≡ sort)
      × (o ≡ order)
      × (s ≡ some by_rank → o ≡ some asc → ⊥)
  IsHonoured cursor sort order free_text validation_failed = IsRefused cursor sort order free_text
  IsHonoured cursor sort order free_text value_error =
      (raw : Text) × (cursor ≡ some raw)
      × (((is_keyset_cursor lib raw ≡ true) × (decode_keyset_cursor lib raw ≡ value_error))
          ⊎ ((is_keyset_cursor lib raw ≡ false) × (decode_search_cursor raw ≡ value_error)))

  resolve_sort-IsStated :
      (sort : Option SortMode) (free_text : Text)
      → sort_applies lower is_alnum sort free_text ≡ true
      → IsStated sort (resolve_sort lower is_alnum sort free_text)
  unfolding resolve_sort
  resolve_sort-IsStated none free_text h = tt
  resolve_sort-IsStated (some by_rank) free_text h = rw h refl
  resolve_sort-IsStated (some by_date) free_text h =
      elim (Bool-cases (is_rankable lower is_alnum free_text)) [
        | inl e ↦ rw e refl
        | inr e ↦ rw e refl
      ]

  resolve_sort-is_rankable :
      (sort : Option SortMode) (free_text : Text)
      → resolve_sort lower is_alnum sort free_text ≡ by_rank
      → is_rankable lower is_alnum free_text ≡ true
  unfolding resolve_sort
  resolve_sort-is_rankable sort free_text h =
      elim (Bool-cases (is_rankable lower is_alnum free_text)) [
        | inl e ↦ e
        | inr e ↦
            let d : resolve_sort lower is_alnum sort free_text ≡ by_date = rw e refl in
            absurd (cc (sym d ∙ h))
      ]

  not_applicable :
      (sort : Option SortMode) (free_text : Text)
      → sort_applies lower is_alnum sort free_text ≡ false
      → (sort ≡ some by_rank) × (is_rankable lower is_alnum free_text ≡ false)
  not_applicable none free_text h = absurd (cc h)
  not_applicable (some by_date) free_text h = absurd (cc h)
  not_applicable (some by_rank) free_text h = (refl, h)

  resolve_fresh-IsHonoured :
      (sort : Option SortMode) (order : Option SortOrder) (free_text : Text)
      → IsHonoured none sort order free_text (resolve_fresh lower is_alnum sort order free_text)
  resolve_fresh-IsHonoured sort order free_text =
      let s = resolve_sort lower is_alnum sort free_text in
      let o = or_default desc order in
      elim (Bool-cases (sort_applies lower is_alnum sort free_text)) [
        | inr e ↦ rw e (inl (not_applicable sort free_text e))
        | inl e ↦ elim (Bool-cases (order_applies s o)) [
          | inr d ↦ rw (e, d) (inr (ranked_asc s order d))
          | inl d ↦
              rw (e, d)
                (
                  refl,
                  resolve_sort-IsStated sort free_text e,
                  or_default-IsStated desc order,
                  λ r. (ranked_desc s o d r, resolve_sort-is_rankable sort free_text r),
                )
        ]
      ]

  walk-IsHonoured :
      (raw : Text) (sort : Option SortMode) (order : Option SortOrder) (free_text : Text)
      (r : CursorResult WalkCursor)
      → is_keyset_cursor lib raw ≡ true
      → decode_keyset_cursor lib raw ≡ r
      → IsHonoured
          (some raw)
          sort
          order
          free_text
          (continue_walk lower is_alnum sort order free_text r)
  walk-IsHonoured raw sort order free_text validation_failed key e = inl (key, rw e tt)
  walk-IsHonoured raw sort order free_text value_error key e = (raw, refl, inl (key, e))
  walk-IsHonoured raw sort order free_text (decoded ks) key read =
      elim (Bool-cases (sort_matches sort by_date)) [
        | inr e ↦ rw e (inl (key, rw read (inl (sort_conflict sort e))))
        | inl e ↦ elim (Bool-cases (order_matches order ks.order)) [
          | inr d ↦ rw (e, d) (inl (key, rw read (inr (inl (order_conflict order ks.order d)))))
          | inl d ↦ elim (Bool-cases (walk_continues ks.walk (walk_for_text free_text))) [
            | inr c ↦
                rw (e, d, c)
                  (inl (key, rw read (inr (inr (walk_for_text-archive ks.walk free_text c)))))
            | inl c ↦
                rw (e, d, c)
                  (
                    (raw, refl, key, read),
                    sort_matches-IsStated sort by_date e,
                    order_matches-IsStated order ks.order d,
                    λ t.
                        walk_for_text-text free_text
                          (walk_continues-text ks.walk (walk_for_text free_text) c t),
                  )
          ]
        ]
      ]

  pool-IsHonoured :
      (raw : Text) (sort : Option SortMode) (order : Option SortOrder) (free_text : Text)
      (r : CursorResult SearchCursor)
      → is_keyset_cursor lib raw ≡ false
      → decode_search_cursor raw ≡ r
      → IsHonoured (some raw) sort order free_text (continue_pool lower is_alnum sort order r)
  pool-IsHonoured raw sort order free_text validation_failed key e = inr (key, rw e tt)
  pool-IsHonoured raw sort order free_text value_error key e = (raw, refl, inr (key, e))
  pool-IsHonoured raw sort order free_text (decoded c) key read =
      elim (Bool-cases (pool_pair sort order)) [
        | inr e ↦ rw e (inr (key, rw read (pool_conflict sort order e)))
        | inl e ↦ rw e ((raw, refl, key, read), refl, refl, pool_pair-order sort order e)
      ]

  -- A request without a cursor gets a fresh plan: a stated sort and order are the ones that run, rank
  -- runs only downwards and on a query that has something to rank, and it is refused only where it
  -- states rank for a query that has nothing, or asc where rank would run. A cursor is never dropped:
  -- it is continued at what it is read as, or the request is refused. A keyset cursor that is read is
  -- refused only where the request states rank or another order, or where it is of a text search and
  -- the free text is blank, and where it is continued none of these holds. A pool cursor hands on what
  -- was stated, and is refused only for rank upwards, which is never handed on. A ValueError comes of
  -- the reading of a cursor only.
  pub resolve_cursor_plan-IsHonoured :
      (cursor : Option Text) (sort : Option SortMode) (order : Option SortOrder) (free_text : Text)
      → IsHonoured cursor sort order free_text
          (resolve_cursor_plan lower is_alnum lib cursor sort order free_text)
  unfolding resolve_cursor_plan
  resolve_cursor_plan-IsHonoured none sort order free_text =
      resolve_fresh-IsHonoured sort order free_text
  resolve_cursor_plan-IsHonoured (some raw) sort order free_text =
      elim (Bool-cases (is_keyset_cursor lib raw)) [
        | inl e ↦
            rw e (walk-IsHonoured raw sort order free_text (decode_keyset_cursor lib raw) e refl)
        | inr e ↦ rw e (pool-IsHonoured raw sort order free_text (decode_search_cursor raw) e refl)
      ]
