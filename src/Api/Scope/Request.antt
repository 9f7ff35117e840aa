-- ===== src/Api/Scope/Request.antt =====
-- The filters that `_scope_filters_by_acl` of src/localmail/api/search.py leaves.
use localmail.Api.Filters.{composed, invalid, Composed, Filters, decimal, parse_int_id}
use localmail.Common.{
  ℕ, ◌≡◌, refl, Bool, true, false, ◌&&◌, Option, none, some, List, [], ◌∷◌, map, arith, Bool-cases,
  leb, sym, ap, ◌∙◌, inl, inr, ◌⊎◌,
}
use localmail.Api.Scope.{
  parse_ids, mem, Text, scope_filters_by_acl, is_empty_list, sorted, parsed_id, scoped_to,
  with_account_ids, codes, scoped_by, intersection,
}
use localmail.Daemon.Reconcile.{mem, mem-sorted}
use localmail.Query.Text.{Text, codes}
use localmail.Sync.Order.{insert_sorted, sorted}
use localmail.Api.Filters.Decimal.{IsBigint, decimal-parse_int_id}
use localmail.Api.Scope.Clamp.{mem-intersection}

parse_ids-map :
    (ids : List ℕ)
    → ((a : ℕ) → mem a ids ≡ true → IsBigint a)
    → parse_ids (map decimal ids) ≡ composed ids
unfolding parse_ids
parse_ids-map [] h = refl
parse_ids-map (b ∷ ids) h =
    rw
      (
        decimal-parse_int_id b (codes "account_id") (h b (ground arith)),
        parse_ids-map ids (λ a k. h a (ground (arith, k))),
      )
      refl

-- The accounts that the filters of a request ask for: all of them, where they name none.
abbrev pub asks_for_account : Composed (List ℕ) → ℕ → Bool
asks_for_account (invalid e) a = false
asks_for_account (composed []) a = true
asks_for_account (composed (b ∷ ids)) a = mem a (b ∷ ids)

-- The result for a request: where its ids are malformed, the refusal; where nothing is left, the
-- ACL is empty or the ids are read, and no account that is allowed is asked for; else some ids, which are the accounts that are, in the
-- place of the ids of the request.
abbrev pub IsScoped : Filters → List ℕ → Composed (Option Filters) → Type 0
IsScoped filters allowed (invalid e) = parse_ids filters.account_ids ≡ invalid e
IsScoped filters allowed (composed none) =
    ((allowed ≡ []) ⊎ ((ids : List ℕ) × (parse_ids filters.account_ids ≡ composed ids)))
    × ((a : ℕ) → mem a allowed && asks_for_account (parse_ids filters.account_ids) a ≡ false)
IsScoped filters allowed (composed (some f)) =
    (ids : List ℕ) × (f ≡ record filters { account_ids = map decimal ids })
    × (parse_ids f.account_ids ≡ composed ids)
    × (is_empty_list ids ≡ false)
    × ((a : ℕ) → mem a ids ≡ mem a allowed && asks_for_account (parse_ids filters.account_ids) a)

no_texts : (vs : List Text) → is_empty_list vs ≡ true → vs ≡ []
no_texts [] h = refl
no_texts (v ∷ vs) h = absurd (cc h)

sorted-is_empty_list : (b : ℕ) (ids : List ℕ) → is_empty_list (insert_sorted b ids) ≡ false
unfolding insert_sorted
sorted-is_empty_list b [] = refl
sorted-is_empty_list b (c ∷ ids) = elim (Bool-cases (leb b c)) [
  | inl e ↦ rw e refl
  | inr e ↦ rw e refl
]

abbrev none_read : Composed (List ℕ) → Bool
none_read (invalid e) = true
none_read (composed []) = true
none_read (composed (a ∷ ids)) = false

-- A list of ids that is not empty is not read as the empty one.
parse_ids_filled : (vs : List Text) → is_empty_list vs ≡ false → parse_ids vs ≡ composed [] → ⊥
unfolding parse_ids
parse_ids_filled [] h k = absurd (cc h)
parse_ids_filled (v ∷ vs) h k = one (parse_int_id v (codes "account_id")) (parse_ids vs) k
  where
    one : (r : Composed ℕ) (rs : Composed (List ℕ)) → parsed_id r rs ≡ composed [] → ⊥
    one (invalid e) rs k = absurd (cc k)
    one (composed a) (invalid e) k = absurd (cc k)
    one (composed a) (composed ids) k = absurd (cc (ap none_read k))

scoped_to-IsScoped :
    (filters : Filters) (allowed asked ids : List ℕ)
    → parse_ids filters.account_ids ≡ composed asked
    → ((a : ℕ) → mem a allowed ≡ true → IsBigint a)
    → ((a : ℕ) → mem a ids ≡ mem a allowed && asks_for_account (parse_ids filters.account_ids) a)
    → IsScoped filters allowed (composed (scoped_to filters ids))
scoped_to-IsScoped filters allowed asked [] k h m = (inr (asked, k), λ a. sym (m a))
scoped_to-IsScoped filters allowed asked (b ∷ ids) k h m =
    (b ∷ ids, refl, parse_ids-map (b ∷ ids) (λ a e. h a (ground (arith, m a, e))), refl, m)

-- What a request may search is settled by its filters and by the accounts that its user is allowed,
-- whose ids fit a BIGINT: where an id is malformed and some account is allowed, it is refused; where
-- nothing is left, no account is both allowed and asked for; otherwise the filters are those of the request with other ids,
-- at least one, and these are read back as exactly the accounts that are allowed and asked for.
pub scope_filters_by_acl-IsScoped :
    (filters : Filters) (allowed : List ℕ)
    → ((a : ℕ) → mem a allowed ≡ true → IsBigint a)
    → IsScoped filters allowed (scope_filters_by_acl filters allowed)
unfolding scope_filters_by_acl sorted parse_ids
scope_filters_by_acl-IsScoped filters [] h = (inl refl, λ a. refl)
scope_filters_by_acl-IsScoped filters (b ∷ allowed) h =
    elim (Bool-cases (is_empty_list filters.account_ids)) [
      | inl e ↦ rw e (unnamed (no_texts filters.account_ids e))
      | inr e ↦ rw e (named_ids (parse_ids filters.account_ids) refl e)
    ]
  where
    unnamed :
        filters.account_ids ≡ []
        → IsScoped filters
            (b ∷ allowed)
            (composed (some (with_account_ids filters (sorted (b ∷ allowed)))))
    unnamed none_named = (
      sorted (b ∷ allowed),
      refl,
      parse_ids-map (sorted (b ∷ allowed)) (λ a k. h a (sym (mem-sorted a (b ∷ allowed)) ∙ k)),
      sorted-is_empty_list b (sorted allowed),
      λ a. mem-sorted a (b ∷ allowed) ∙ rw none_named (ground arith),
    )

    named_ids :
        (r : Composed (List ℕ))
        → parse_ids filters.account_ids ≡ r
        → is_empty_list filters.account_ids ≡ false
        → IsScoped filters (b ∷ allowed) (scoped_by filters (b ∷ allowed) r)
    named_ids (invalid e) k filled = k
    named_ids (composed []) k filled = absurd (parse_ids_filled filters.account_ids filled k)
    named_ids (composed (c ∷ ids)) k filled =
        scoped_to-IsScoped filters (b ∷ allowed) (c ∷ ids) (intersection (c ∷ ids) (b ∷ allowed)) k
          h (λ a. mem-intersection a (c ∷ ids) (b ∷ allowed) ∙ rw k (ground arith))
