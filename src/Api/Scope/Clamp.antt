-- ===== src/Api/Scope/Clamp.antt =====
-- The account clause that a search runs with, after `_clamp_account_ids_to_acl` of
-- src/localmail/search/searcher.py.
use localmail.Common.Int.{pos}
use localmail.Common.{
  Bool-cases, ◌==◌, ℕ, ◌≡◌, refl, ap, ◌∙◌, inl, inr, ◌&&◌, Option, none, some, List, [], ◌∷◌, map,
  arith, ◌||◌,
}
use localmail.Api.Scope.{
  distinct, any_account, account_clause, clamp_account_ids_to_acl, intersection, or_sentinel,
  clamped_to, as_integers, select,
}
use localmail.Daemon.Reconcile.{mem, mem-sorted, mem-select}
use localmail.Common.Table.{select}

mem-distinct : (a : ℕ) (ids : List ℕ) → mem a (distinct ids) ≡ mem a ids
unfolding distinct
mem-distinct a [] = refl
mem-distinct a (b ∷ ids) = elim (Bool-cases (mem b ids)) [
  | inl e ↦ rw e (
      mem-distinct a ids ∙ elim (Bool-cases (b == a)) [
        | inl d ↦ let same : b ≡ a = ground arith in ground (arith, ap (λ x. mem x ids) same)
        | inr d ↦ rw d refl
      ])
  | inr e ↦ rw e (ap ((b == a) ||◌) (mem-distinct a ids))
]

pub mem-intersection :
    (a : ℕ) (ids allowed : List ℕ) → mem a (intersection ids allowed) ≡ mem a ids && mem a allowed
mem-intersection a ids allowed =
    mem-sorted a (distinct (select (λ b. mem b allowed) ids))
    ∙ mem-distinct a (select (λ b. mem b allowed) ids)
    ∙ mem-select (λ b. mem b allowed) a ids

pub any_account-map : (a : ℕ) (ids : List ℕ) → any_account a (map pos ids) ≡ mem a ids
any_account-map a [] = refl
any_account-map a (b ∷ ids) = ap ((b == a) ||◌) (any_account-map a ids)

or_sentinel-account_clause :
    (a : ℕ) (ids : List ℕ) → account_clause (some (or_sentinel ids)) a ≡ mem a ids
or_sentinel-account_clause a [] = refl
or_sentinel-account_clause a (b ∷ ids) = any_account-map a (b ∷ ids)

mem-clamped_to :
    (a : ℕ) (allowed : List ℕ) (current : Option (List ℕ))
    → mem a (clamped_to allowed current) ≡ mem a allowed && account_clause (as_integers current) a
mem-clamped_to a allowed none =
    mem-sorted a (distinct allowed) ∙ mem-distinct a allowed ∙ ground arith
mem-clamped_to a allowed (some []) =
    mem-sorted a (distinct allowed) ∙ mem-distinct a allowed ∙ ground arith
mem-clamped_to a allowed (some (b ∷ ids)) =
    mem-intersection a (b ∷ ids) allowed ∙ rw (any_account-map a ids) (ground arith)

-- Under an ACL a search reads exactly the accounts that the ACL allows and that the query, with the
-- account_id: tokens of its free text and of its filters, would read without one. No query widens
-- the ACL, and an ACL that allows none of the accounts that a query names lets it read none.
pub clamp_account_ids_to_acl-account_clause :
    (current : Option (List ℕ)) (allowed : List ℕ) (a : ℕ)
    → account_clause (clamp_account_ids_to_acl current (some allowed)) a
      ≡ mem a allowed && account_clause (clamp_account_ids_to_acl current none) a
unfolding clamp_account_ids_to_acl
clamp_account_ids_to_acl-account_clause current allowed a =
    or_sentinel-account_clause a (clamped_to allowed current) ∙ mem-clamped_to a allowed current
