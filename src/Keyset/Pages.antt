-- ===== src/Keyset/Pages.antt =====
-- What a page holds, and a client that follows the cursors.
use mathlib.Core.Path.{subst}
use localmail.Common.{
  ℕ, suc, ◌-◌, ◌≡◌, ltb, Bool, true, false, ◌&&◌, ◌||◌, Option, none, some, List, [], ◌∷◌, ◌++◌,
  refl, sym, ap, ◌∙◌, arith, inl, inr, Bool-cases, if◌then◌else◌,
}
use localmail.Common.Lists.{All, All-mono, length, take, length-take}
use localmail.Common.Table.{select}
use localmail.Keyset.{
  desc, asc, SortOrder, Message, KeysetCursor, needs_undated_top_up, order_by, fetch, date_expr,
  keyset_clause, before, fetched, undated_tail_only,
}
use localmail.Keyset.Walk.{
  take-append, is_topped, apart, IsOrdered-prefix, select-suffix, select-true, before_trans,
  clause_covers, before_irrefl, before-total, select-parts, undated_parts, undated_stays,
}
use localmail.Keyset.Ordered.{AreApart, IsOrdered, order_by-IsOrdered, order_by-select}
use localmail.Query.Tokens.Whole.{append-nil}

needs-is_topped :
    (o : SortOrder) (t : Option ℕ) (i n f : ℕ)
    → needs_undated_top_up (some (record { ts = t; id = i; order = o })) n f
      ≡ is_topped o t && ltb n f
needs-is_topped desc none i n f = refl
needs-is_topped desc (some t) i n f = refl
needs-is_topped asc t i n f = refl

or_false : (a b : Bool) → a || b ≡ false → (a ≡ false) × (b ≡ false)
or_false a b h = (ground arith, ground arith)

or_none_left : (a b c : Bool) → b ≡ false → a || (b && c) ≡ true → a ≡ true
or_none_left a b c g h = ground arith

or_all_right : (a b c : Bool) → b ≡ true → a || (b && c) ≡ true → a || c ≡ true
or_all_right a b c g h = ground arith

undated_not : (a b : Bool) → a ≡ true → a && b ≡ false → b ≡ false
undated_not a b g h = ground arith

pub All-pointwise :
    {P : Message → Type 0} (rows : List Message) → ((x : Message) → P x) → All P rows
All-pointwise [] h = tt
All-pointwise (x ∷ rows) h = (h x, All-pointwise rows h)

top_up :
    (n : ℕ) (xs ys : List Message)
    → (if ltb (length (take n xs)) n
        then take n xs ++ take (n - length (take n xs)) ys
        else take n xs)
      ≡ take n (xs ++ ys)
top_up n xs ys = elim (Bool-cases (ltb (length (take n xs)) n)) [
  | inl e ↦
      let k : n - length (take n xs) ≡ n - length xs = ground (arith, length-take n xs) in
      rw (e, k) (sym (take-append n xs ys))
  | inr e ↦
      let k : n - length xs ≡ 0 = ground (arith, length-take n xs) in
      rw e (sym (take-append n xs ys ∙ rw k (append-nil (take n xs))))
]

module _ (order : SortOrder) (matching : List Message) (distinct : AreApart apart matching) where
  abbrev pub whole : List Message
  whole = order_by (before order) matching

  whole-IsOrdered : IsOrdered (before order) whole
  whole-IsOrdered =
      order_by-IsOrdered (before order) (before_trans order) apart (before-total order) matching
        distinct

  pub fetch_lem : (p : Message → Bool) (n : ℕ) → fetch order matching p n ≡ take n (select p whole)
  unfolding fetch
  fetch_lem p n = ap (take n) (
      order_by-select (before order) (before_trans order) apart (before-total order) p matching
        distinct)

  module _ (xs : List Message) (m : Message) (rest : List Message)
      (split : whole ≡ xs ++ m ∷ rest) where
    abbrev here : KeysetCursor
    here = record { ts = date_expr m; id = m.id; order = order }

    abbrev tops : Bool
    tops = is_topped order (date_expr m)

    covers :
        (x : Message) → keyset_clause here x || (tops && undated_tail_only x) ≡ before order m x
    covers x = clause_covers order (date_expr m) (date_expr x) m.id x.id

    parts :
        All (λ x. before order m x ≡ false) xs
        × All (λ x. before order m x ≡ true) rest
        × IsOrdered (before order) rest
    parts =
        IsOrdered-prefix order xs m rest (subst (IsOrdered (before order)) split whole-IsOrdered)

    -- Up to the cursor no row has the clause of the cursor.
    select-clause : select (keyset_clause here) whole ≡ select (keyset_clause here) rest
    select-clause =
        ap (select (keyset_clause here)) split
        ∙ select-suffix (keyset_clause here) xs m rest
            (All-mono xs
              (λ x h.
                (or_false (keyset_clause here x) (tops && undated_tail_only x) (covers x ∙ h)).0)
              parts.0)
            ((or_false (keyset_clause here m) (tops && undated_tail_only m)
              (covers m ∙ before_irrefl order m)).0)

    fetched_plain :
        (page_size : ℕ)
        → tops ≡ false
        → fetched order matching page_size (some here) ≡ take (suc page_size) rest
    fetched_plain page_size t =
        rw
          (
            needs-is_topped order (date_expr m) m.id
                (length (fetch order matching (keyset_clause here) (suc page_size)))
                (suc page_size),
            t,
          )
          (fetch_lem (keyset_clause here) (suc page_size)
            ∙ ap (take (suc page_size)) (
                select-clause
                ∙ select-true (keyset_clause here) rest (
                    All-mono rest
                      (λ x h.
                        or_none_left (keyset_clause here x) tops (undated_tail_only x) t
                          (covers x ∙ h))
                      parts.1)))

    undated_rest : tops ≡ true → select undated_tail_only whole ≡ select undated_tail_only rest
    undated_rest t =
        ap (select undated_tail_only) split
        ∙ select-suffix undated_tail_only xs m rest
            (All-mono xs
              (λ x h.
                undated_not tops (undated_tail_only x) t
                  (or_false (keyset_clause here x) (tops && undated_tail_only x) (covers x ∙ h)).1)
              parts.0)
            (undated_not tops (undated_tail_only m) t
              (or_false (keyset_clause here m) (tops && undated_tail_only m)
                (covers m ∙ before_irrefl order m)).1)

    rest_parts :
        tops ≡ true → select (keyset_clause here) rest ++ select undated_tail_only rest ≡ rest
    rest_parts t =
        select-parts order (keyset_clause here) undated_tail_only rest
          (All-mono rest
            (λ x h. or_all_right (keyset_clause here x) tops (undated_tail_only x) t (covers x ∙ h))
            parts.1)
          (All-pointwise rest
            (λ x h. undated_parts order (date_expr m) (date_expr x) m.id x.id t h))
          (λ x y h k. undated_stays order (date_expr m) (date_expr x) (date_expr y) x.id y.id t h k)
          parts.2

    fetched_topped :
        (page_size : ℕ)
        → tops ≡ true
        → fetched order matching page_size (some here) ≡ take (suc page_size) rest
    fetched_topped page_size t =
        let n = suc page_size in
        rw
          (
            needs-is_topped order (date_expr m) m.id
                (length (fetch order matching (keyset_clause here) n)) n,
            t,
            fetch_lem (keyset_clause here) n,
            select-clause,
            fetch_lem undated_tail_only (n - length (take n (select (keyset_clause here) rest))),
            undated_rest t,
          )
          (top_up n (select (keyset_clause here) rest) (select undated_tail_only rest)
            ∙ ap (take n) (rest_parts t))

    pub fetched-suffix :
        (page_size : ℕ) → fetched order matching page_size (some here) ≡ take (suc page_size) rest
    fetched-suffix page_size = elim (Bool-cases tops) [
      | inl t ↦ fetched_topped page_size t
      | inr t ↦ fetched_plain page_size t
    ]
