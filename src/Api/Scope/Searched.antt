-- ===== src/Api/Scope/Searched.antt =====
-- The accounts that a request searches, through both places that hold it to its ACL: the filters that
-- src/localmail/api/search.py scopes, and the clamp of src/localmail/search/searcher.py.
use localmail.Api.Filters.{composed, invalid, Filters, Composed, decimal}
use localmail.Common.{◌⊎◌, ℕ, ◌≡◌, false, ◌&&◌, ◌||◌, Option, none, some, List, [], ◌++◌, map}
use localmail.Daemon.Reconcile.{mem}
use localmail.Api.Scope.{account_clause, parse_ids, clamp_account_ids_to_acl}
use localmail.Api.Scope.Request.{asks_for_account}

-- What becomes of one account under the filters that are left, where the free text of the query
-- names some accounts of its own.
abbrev pub IsSearched : Filters → List ℕ → List ℕ → ℕ → Composed (Option Filters) → Type 0
IsSearched filters allowed named a (invalid e) = parse_ids filters.account_ids ≡ invalid e
IsSearched filters allowed named a (composed none) =
    ((allowed ≡ []) ⊎ ((ids : List ℕ) × (parse_ids filters.account_ids ≡ composed ids)))
    × (mem a allowed && asks_for_account (parse_ids filters.account_ids) a ≡ false)
IsSearched filters allowed named a (composed (some f)) =
    (ids : List ℕ) × (f ≡ record filters { account_ids = map decimal ids })
    × (parse_ids f.account_ids ≡ composed ids)
    × (account_clause (clamp_account_ids_to_acl (some (ids ++ named)) (some allowed)) a
        ≡ mem a allowed && (asks_for_account (parse_ids filters.account_ids) a || mem a named))
