-- ===== src/Api/Acl.antt =====
-- src/localmail/api/acl.py: which accounts a user may read.
use localmail.Common.{
  ℕ, ◌==◌, ◌≡◌, Bool, not, ◌&&◌, ◌||◌, Option, none, some, List, [], ◌∷◌, refl, ◌∙◌, arith,
  if◌then◌else◌, map, Bool-cases, inl, inr, true,
}
use localmail.Common.Table.{find, exists, delete, insert, select, count}
use localmail.Sync.Order.{sorted}
use localmail.Daemon.Reconcile.{mem, mem-sorted}

-- PRIMARY KEY (user_id, account_id)
pub record UserAccount : Type 0 where
  pub user_id : ℕ
  pub account_id : ℕ

-- The grants, and the ids of the users and accounts that they refer to.
pub record AclDb : Type 0 where
  pub user_accounts : List UserAccount
  pub user_ids : List ℕ
  pub account_ids : List ℕ

abbrev pub of_user : ℕ → UserAccount → Bool
of_user user_id g = g.user_id == user_id

abbrev pub is_grant : ℕ → ℕ → UserAccount → Bool
is_grant user_id account_id g = g.user_id == user_id && g.account_id == account_id

abbrev pub account_of : UserAccount → ℕ
account_of g = g.account_id

unfoldable pub allowed_account_ids : AclDb → ℕ → List ℕ
allowed_account_ids db user_id = sorted (map account_of (select (of_user user_id) db.user_accounts))

unfoldable pub user_has_account : AclDb → ℕ → ℕ → Bool
user_has_account db user_id account_id = exists (is_grant user_id account_id) db.user_accounts

-- `none` is the ForeignKeyViolation.
unfoldable pub grant_account : AclDb → ℕ → ℕ → Option AclDb
grant_account db user_id account_id =
    if exists (is_grant user_id account_id) db.user_accounts
    then some db
    else if mem user_id db.user_ids && mem account_id db.account_ids
    then some (record db {
      user_accounts =
          insert (record { user_id = user_id; account_id = account_id }) db.user_accounts;
    })
    else none

unfoldable pub revoke_account : AclDb → ℕ → ℕ → AclDb × ℕ
revoke_account db user_id account_id = (
  record db { user_accounts = delete (is_grant user_id account_id) db.user_accounts },
  count (is_grant user_id account_id) db.user_accounts,
)

mem-accounts :
    (u a : ℕ) (rows : List UserAccount)
    → mem a (map account_of (select (of_user u) rows)) ≡ exists (is_grant u a) rows
unfolding select find
mem-accounts u a [] = refl
mem-accounts u a (g ∷ rows) = ground (arith, mem-accounts u a rows)

-- The list of accounts that the readers are given holds exactly the accounts that the user has.
allowed-user_has_account :
    (db : AclDb) (u a : ℕ) → mem a (allowed_account_ids db u) ≡ user_has_account db u a
unfolding allowed_account_ids user_has_account
allowed-user_has_account db u a =
    mem-sorted a (map account_of (select (of_user u) db.user_accounts))
    ∙ mem-accounts u a db.user_accounts

revoked :
    (u a v b : ℕ) (rows : List UserAccount)
    → exists (is_grant u a) (delete (is_grant v b) rows)
      ≡ exists (is_grant u a) rows && not (u == v && a == b)
unfolding find delete
revoked u a v b [] = refl
revoked u a v b (g ∷ rows) = ground (arith, revoked u a v b rows)

granted :
    (u a v b : ℕ) (rows : List UserAccount)
    → exists (is_grant u a) (insert (record { user_id = v; account_id = b }) rows)
      ≡ exists (is_grant u a) rows || (u == v && a == b)
unfolding find
granted u a v b [] = ground arith
granted u a v b (g ∷ rows) = ground (arith, granted u a v b rows)

pub data Change : Type 0 where
  granting revoking : ℕ → ℕ → Change

abbrev pub or_unchanged : AclDb → Option AclDb → AclDb
or_unchanged db none = db
or_unchanged db (some db') = db'

-- One call; a grant that is refused changes nothing.
abbrev pub apply_change : AclDb → Change → AclDb
apply_change db (granting v b) = or_unchanged db (grant_account db v b)
apply_change db (revoking v b) = (revoke_account db v b).0

abbrev pub apply_changes : AclDb → List Change → AclDb
apply_changes db [] = db
apply_changes db (c ∷ changes) = apply_changes (apply_change db c) changes

-- Whether one user has one account after some calls, given whether they had it before: a grant gives
-- it where both ids are known, and a revocation takes it.
abbrev pub has_after : List ℕ → List ℕ → ℕ → ℕ → Bool → List Change → Bool
has_after users accounts u a had [] = had
has_after users accounts u a had (granting v b ∷ changes) =
    has_after users accounts u a (had || ((u == v && a == b) && (mem v users && mem b accounts)))
      changes
has_after users accounts u a had (revoking v b ∷ changes) =
    has_after users accounts u a (had && not (u == v && a == b)) changes

-- One call keeps the ids, and changes what one user has as `has_after` says.
change_ids :
    (db : AclDb) (c : Change)
    → ((apply_change db c).user_ids ≡ db.user_ids)
      × ((apply_change db c).account_ids ≡ db.account_ids)
unfolding grant_account revoke_account
change_ids db (revoking v b) = (refl, refl)
change_ids db (granting v b) = elim (Bool-cases (exists (is_grant v b) db.user_accounts)) [
  | inl e ↦ rw e (refl, refl)
  | inr e ↦ elim (Bool-cases (mem v db.user_ids && mem b db.account_ids)) [
    | inl k ↦ rw (e, k) (refl, refl)
    | inr k ↦ rw (e, k) (refl, refl)
  ]
]

same_grant :
    (u a v b : ℕ) (rows : List UserAccount)
    → (u == v && a == b) ≡ true
    → exists (is_grant v b) rows ≡ true
    → exists (is_grant u a) rows ≡ true
unfolding find
same_grant u a v b [] h k = ground arith
same_grant u a v b (g ∷ rows) h k = ground (arith, same_grant u a v b rows)

change_has :
    (db : AclDb) (u a : ℕ) (c : Change)
    → user_has_account (apply_change db c) u a
      ≡ has_after db.user_ids db.account_ids u a (user_has_account db u a) (c ∷ [])
unfolding grant_account revoke_account user_has_account
change_has db u a (revoking v b) = revoked u a v b db.user_accounts
change_has db u a (granting v b) = elim (Bool-cases (exists (is_grant v b) db.user_accounts)) [
  | inl e ↦ rw e (ground (arith, same_grant u a v b db.user_accounts, e))
  | inr e ↦ elim (Bool-cases (mem v db.user_ids && mem b db.account_ids)) [
    | inl k ↦ rw (e, k) (granted u a v b db.user_accounts ∙ ground arith)
    | inr k ↦ rw (e, k) (ground arith)
  ]
]

-- However grants and revocations follow one another, the list of accounts that a reader is given
-- for a user holds an account exactly where the last call on the two that took effect is a grant,
-- or, with no such call, where it did before; a grant takes effect where both ids are known. The
-- single-row check answers the same.
pub apply_changes-allowed_account_ids :
    (db : AclDb) (changes : List Change) (u a : ℕ)
    → (mem a (allowed_account_ids (apply_changes db changes) u)
        ≡ user_has_account (apply_changes db changes) u a)
      × (user_has_account (apply_changes db changes) u a
          ≡ has_after db.user_ids db.account_ids u a (user_has_account db u a) changes)
apply_changes-allowed_account_ids db changes u a =
    (allowed-user_has_account (apply_changes db changes) u a, in_turn changes db)
  where
    in_turn :
        (changes : List Change) (db : AclDb)
        → user_has_account (apply_changes db changes) u a
          ≡ has_after db.user_ids db.account_ids u a (user_has_account db u a) changes
    in_turn [] db = refl
    in_turn (granting v b ∷ changes) db =
        let (e, f) = change_ids db (granting v b) in
        in_turn changes (apply_change db (granting v b))
        ∙ rw (e, f, change_has db u a (granting v b)) refl
    in_turn (revoking v b ∷ changes) db =
        let (e, f) = change_ids db (revoking v b) in
        in_turn changes (apply_change db (revoking v b))
        ∙ rw (e, f, change_has db u a (revoking v b)) refl
