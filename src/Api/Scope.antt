-- ===== src/Api/Scope.antt =====
-- The accounts that a search may read: `_scope_filters_by_acl` of src/localmail/api/search.py,
-- `_clamp_account_ids_to_acl` of src/localmail/search/searcher.py, and the account clause of
-- `_filter_sql` of src/localmail/search/arms.py.
pub mod Clamp
pub mod Request
pub mod Searched
use localmail.Api.Filters.{composed, invalid, Composed, Filters, parse_int_id, decimal}
use localmail.Common.Int.{pos, negsuc, ℤ}
use localmail.Common.{
  ◌==◌, if◌then◌else◌, ℕ, Bool, true, false, ◌||◌, Option, none, some, List, [], ◌∷◌, map,
}
use localmail.Daemon.Reconcile.{mem}
use localmail.Sync.Order.{sorted}
use localmail.Query.Text.{Text, codes}
use localmail.Common.Table.{select}

-- set()
unfoldable pub distinct : List ℕ → List ℕ
distinct [] = []
distinct (a ∷ ids) = let rest = distinct ids in if mem a ids then rest else a ∷ rest

-- sorted(set(current) & set(allowed))
abbrev pub intersection : List ℕ → List ℕ → List ℕ
intersection current allowed = sorted (distinct (select (λ a. mem a allowed) current))

abbrev pub is_empty_list {ℓ} : {A : Type ℓ} → List A → Bool
is_empty_list [] = true
is_empty_list (x ∷ xs) = false

-- `_NO_ACCOUNT_SENTINEL`
abbrev pub no_account_sentinel : ℤ
no_account_sentinel = negsuc 0

abbrev pub or_sentinel : List ℕ → List ℤ
or_sentinel [] = no_account_sentinel ∷ []
or_sentinel (a ∷ ids) = map pos (a ∷ ids)

-- The ids of the query, where None and the empty list are no filter, under the ids of the ACL.
abbrev pub clamped_to : List ℕ → Option (List ℕ) → List ℕ
clamped_to allowed none = sorted (distinct allowed)
clamped_to allowed (some []) = sorted (distinct allowed)
clamped_to allowed (some (a ∷ ids)) = intersection (a ∷ ids) allowed

abbrev pub as_integers : Option (List ℕ) → Option (List ℤ)
as_integers none = none
as_integers (some ids) = some (map pos ids)

-- The account_ids of the filters; an ACL of none is no ACL.
unfoldable pub clamp_account_ids_to_acl : Option (List ℕ) → Option (List ℕ) → Option (List ℤ)
clamp_account_ids_to_acl current none = as_integers current
clamp_account_ids_to_acl current (some allowed) = some (or_sentinel (clamped_to allowed current))

abbrev pub is_account : ℕ → ℤ → Bool
is_account a (pos b) = b == a
is_account a (negsuc b) = false

abbrev pub any_account : ℕ → List ℤ → Bool
any_account a [] = false
any_account a (z ∷ zs) = is_account a z || any_account a zs

-- m.account_id = ANY(account_ids), a clause that an empty list leaves out.
abbrev pub account_clause : Option (List ℤ) → ℕ → Bool
account_clause none a = true
account_clause (some []) a = true
account_clause (some (z ∷ zs)) a = any_account a (z ∷ zs)

abbrev pub parsed_id : Composed ℕ → Composed (List ℕ) → Composed (List ℕ)
parsed_id (invalid e) rest = invalid e
parsed_id (composed a) (invalid e) = invalid e
parsed_id (composed a) (composed ids) = composed (a ∷ ids)

unfoldable pub parse_ids : List Text → Composed (List ℕ)
parse_ids [] = composed []
parse_ids (v ∷ vs) = parsed_id (parse_int_id v (codes "account_id")) (parse_ids vs)

abbrev pub with_account_ids : Filters → List ℕ → Filters
with_account_ids filters ids = record filters { account_ids = map decimal ids }

-- None where no account is both asked for and allowed.
abbrev pub scoped_to : Filters → List ℕ → Option Filters
scoped_to filters [] = none
scoped_to filters (a ∷ ids) = some (with_account_ids filters (a ∷ ids))

abbrev pub scoped_by : Filters → List ℕ → Composed (List ℕ) → Composed (Option Filters)
scoped_by filters allowed (invalid e) = invalid e
scoped_by filters allowed (composed ids) = composed (scoped_to filters (intersection ids allowed))

unfoldable pub scope_filters_by_acl : Filters → List ℕ → Composed (Option Filters)
scope_filters_by_acl filters allowed =
    if is_empty_list allowed
    then composed none
    else if is_empty_list filters.account_ids
    then composed (some (with_account_ids filters (sorted allowed)))
    else scoped_by filters allowed (parse_ids filters.account_ids)
