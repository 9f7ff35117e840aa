-- ===== src/Keyset/Client.antt =====
-- A client that follows the cursors from the first page on.
use localmail.Common.{
  ℕ, zero, suc, ◌≤◌, ◌<◌, ◌≡◌, ltb, Bool, true, Option, none, some, List, [], ◌∷◌, ◌++◌, refl, sym,
  ap, ◌∙◌, arith, inl, inr, Bool-cases,
}
use localmail.Common.Lists.{
  length, take, drop, length-take, length-drop, take-append-drop, take_all,
}
use localmail.Search.Chunks.{take-take}
use localmail.Keyset.{
  SortOrder, Message, KeysetCursor, last_of, date_keyset_search, order_by, before, fetched,
  cursor_at,
}
use localmail.Keyset.Ordered.{
  AreApart, IsOrdered, order_by-length, order_by-IsOrdered, order_by-count,
}
use localmail.Keyset.Walk.{apart, last-split, select-true, before_trans, before-total}
use localmail.Query.Tokens.Whole.{append-nil, append_assoc, append-snoc}
use localmail.Keyset.Pages.{fetch_lem, All-pointwise, fetched-suffix}
use localmail.Common.Table.{count}

module _ (order : SortOrder) (matching : List Message) (page_size : ℕ) where
  abbrev go_on : Option KeysetCursor → List Message → List Message
  go_on none later = []
  go_on (some k) later = later

  -- The rows of the pages from a cursor on, with a number of calls as fuel.
  unfoldable pub walk : ℕ → Option KeysetCursor → List Message
  walk zero keyset = []
  walk (suc fuel) keyset =
      let (rows, next) = date_keyset_search order matching page_size keyset in
      rows ++ go_on next (walk fuel next)

  last_of-append :
      (xs : List Message) (m : Message) (rows : List Message)
      → last_of (xs ++ m ∷ rows) ≡ last_of (m ∷ rows)
  last_of-append [] m rows = refl
  last_of-append (x ∷ []) m rows = refl
  last_of-append (x ∷ y ∷ xs) m rows = last_of-append (y ∷ xs) m rows

  module _ (distinct : AreApart apart matching) (positive : 0 < page_size) where
    fetched_at :
        (pre rest : List Message)
        → order_by (before order) matching ≡ pre ++ rest
        → fetched order matching page_size (cursor_at order (last_of pre))
          ≡ take (suc page_size) rest
    fetched_at [] rest split =
        fetch_lem order matching distinct (λ m. true) (suc page_size)
        ∙ ap (take (suc page_size)) (
            select-true (λ m. true) (order_by (before order) matching)
              (All-pointwise (order_by (before order) matching) (λ m. refl))
            ∙ split)
    fetched_at (x ∷ xs) rest split =
        let (ys, l, e, f) = last-split x xs in
        rw e (
          fetched-suffix order matching distinct ys l rest
            (split ∙ ap (◌++ rest) f ∙ append-snoc ys rest l) page_size)

    cut : (rest : List Message) → take page_size (take (suc page_size) rest) ≡ take page_size rest
    cut rest = take-take page_size (suc page_size) rest (omega arith)

    -- A page that is not the last, and the pages after it.
    page_then :
        (fuel : ℕ) (pre page later : List Message)
        → 0 < length page
        → walk fuel (cursor_at order (last_of (pre ++ page))) ≡ later
        → page
            ++ go_on (cursor_at order (last_of page)) (walk fuel (cursor_at order (last_of page)))
          ≡ page ++ later
    page_then fuel pre [] later n h = absurd (omega arith)
    page_then fuel pre (m ∷ ms) later n h =
        let (ys, l, e, f) = last-split m ms in
        rw e (
          ap ((m ∷ ms) ++◌)
            (ap (λ o. walk fuel (cursor_at order o)) (sym (last_of-append pre m ms ∙ e)) ∙ h))

    walk-suffix :
        (fuel : ℕ) (pre rest : List Message)
        → order_by (before order) matching ≡ pre ++ rest
        → length rest < fuel
        → walk fuel (cursor_at order (last_of pre)) ≡ rest
    unfolding walk date_keyset_search
    walk-suffix zero pre rest split enough = absurd (omega arith)
    walk-suffix (suc fuel) pre rest split enough =
        elim (Bool-cases (ltb page_size (length (take (suc page_size) rest)))) [
          | inl e ↦
              rw (fetched_at pre rest split, e, cut rest)
                (page_then fuel pre (take page_size rest) (drop page_size rest)
                    (ground (arith, length-take page_size rest, length-take (suc page_size) rest))
                    (walk-suffix fuel (pre ++ take page_size rest) (drop page_size rest)
                      (split
                        ∙ ap (pre ++◌) (sym (take-append-drop page_size rest))
                        ∙ sym (append_assoc pre (take page_size rest) (drop page_size rest)))
                      (ground
                        (arith, length-drop page_size rest, length-take (suc page_size) rest)))
                  ∙ take-append-drop page_size rest)
          | inr e ↦
              let short : length rest ≤ page_size =
                ground (arith, length-take (suc page_size) rest) in
              rw (fetched_at pre rest split, e, cut rest, take_all page_size rest short)
                (append-nil rest)
        ]

    -- A client that follows the cursors from the first page on reads what ORDER BY gives for all
    -- the matching messages: each of them once, in the order of the walk, the undated block
    -- included, whatever the size of a page. Ids are distinct, a page holds a row at least, and one
    -- more call is allowed than there are messages.
    pub walk-order_by :
        (fuel : ℕ)
        → length matching < fuel
        → (walk fuel none ≡ order_by (before order) matching)
          × IsOrdered (before order) (walk fuel none)
          × ((p : Message → Bool) → count p (walk fuel none) ≡ count p matching)
    walk-order_by fuel enough =
        let whole = order_by (before order) matching in
        let all : walk fuel none ≡ whole =
          walk-suffix fuel [] whole refl
            (omega (arith, enough, order_by-length (before order) matching)) in
        rw all (
          refl,
          order_by-IsOrdered (before order) (before_trans order) apart (before-total order) matching
              distinct,
          λ p. order_by-count (before order) p matching,
        )
