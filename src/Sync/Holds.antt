-- ===== src/Sync/Holds.antt =====
-- src/localmail/fetch_retry.py: the holds on UIDs whose body the server does not return, and the
-- tombstones that they become. A statement's `now()` is an argument.
pub mod Keys
pub mod Life
pub mod Rewind
pub mod Scope
use localmail.Common.{
  ℕ, ◌+◌, String, Bool, true, false, not, Option, none, some, List, [], ◌∷◌, ◌&&◌, map, ltb, leb,
  ◌==◌, str_eq, is_some, is_none, if◌then◌else◌,
}
use localmail.Common.Int.{ℤ, le_zero, diff_ge, diff_gt}
use localmail.Common.Table.{select, find, exists, delete, update, count, insert}
use localmail.Sync.Store.{Hold, Mailbox}

pub record HoldState : Type 0 where
  pub attempt_count : ℕ
  pub first_seen_at : ℕ

unfoldable pub hold_expired : ℕ → ℕ → ℤ → Bool
hold_expired first_seen_at now max_hold_s =
    if le_zero max_hold_s then true else diff_ge now first_seen_at max_hold_s

-- WHERE mailbox_id = %s AND uid = %s
abbrev pub at_uid : ℕ → ℕ → Hold → Bool
at_uid mailbox_id uid h = h.mailbox_id == mailbox_id && h.uid == uid

abbrev pub in_mailbox : ℕ → Hold → Bool
in_mailbox mailbox_id h = h.mailbox_id == mailbox_id

abbrev pub state_of : Hold → HoldState
state_of h = record { attempt_count = h.attempt_count; first_seen_at = h.first_seen_at }

unfoldable pub load_attempts : List Hold → ℕ → List (ℕ × HoldState)
load_attempts holds mailbox_id =
    map (λ h. (h.uid, state_of h)) (select (in_mailbox mailbox_id) holds)

abbrev pub bump : ℕ → Hold → Hold
bump now h = record h { attempt_count = h.attempt_count + 1; last_seen_at = now }

abbrev pub fresh : ℕ → ℕ → ℕ → Hold
fresh mailbox_id uid now = record {
  mailbox_id = mailbox_id;
  uid = uid;
  attempt_count = 1;
  first_seen_at = now;
  last_seen_at = now;
  gave_up_at = none;
}

-- `faulted` says that the statement raises: the savepoint is rolled back, and the sighting is
-- reported as a fresh hold.
unfoldable pub record_attempt : Bool → ℕ → List Hold → ℕ → ℕ → List Hold × HoldState
record_attempt true now holds mailbox_id uid =
    (holds, record { attempt_count = 1; first_seen_at = now })
record_attempt false now holds mailbox_id uid = elim (find (at_uid mailbox_id uid) holds) [
  | none ↦ (insert (fresh mailbox_id uid now) holds, state_of (fresh mailbox_id uid now))
  | some h ↦ (update (at_uid mailbox_id uid) (bump now) holds, state_of (bump now h))
]

unfoldable pub clear_attempts : List Hold → ℕ → ℕ → List Hold
clear_attempts holds mailbox_id uid = delete (at_uid mailbox_id uid) holds

-- WHERE mailbox_id = %s AND uid < %s AND gave_up_at IS NULL
abbrev pub is_dead : ℕ → ℕ → Hold → Bool
is_dead mailbox_id uid h = h.mailbox_id == mailbox_id && ltb h.uid uid && is_none h.gave_up_at

unfoldable pub reclaim_below : List Hold → ℕ → ℕ → List Hold
reclaim_below holds mailbox_id uid = delete (is_dead mailbox_id uid) holds

unfoldable pub clear_mailbox : List Hold → ℕ → List Hold
clear_mailbox holds mailbox_id = delete (in_mailbox mailbox_id) holds

abbrev pub coalesce : Option ℕ → ℕ → Option ℕ
coalesce none t = some t
coalesce (some s) t = some s

abbrev pub stamp : ℕ → Hold → Hold
stamp now h = record h { gave_up_at = coalesce h.gave_up_at now }

unfoldable pub mark_gave_up : Bool → ℕ → List Hold → ℕ → ℕ → List Hold
mark_gave_up true now holds mailbox_id uid = holds
mark_gave_up false now holds mailbox_id uid = update (at_uid mailbox_id uid) (stamp now) holds

-- The lowest UID so far of each mailbox, as the dict `lowest` keeps it.
unfoldable pub note_lowest : List (ℕ × ℕ) → ℕ → ℕ → List (ℕ × ℕ)
note_lowest [] mailbox_id uid = (mailbox_id, uid) ∷ []
note_lowest ((m, u) ∷ lowest) mailbox_id uid =
    if m == mailbox_id
    then (m, if ltb u uid then u else uid) ∷ lowest
    else (m, u) ∷ note_lowest lowest mailbox_id uid

-- `current` is `current_uidnext.get`.
unfoldable pub lowest_of : List (ℕ × ℕ) → (ℕ → Option ℕ) → List (ℕ × ℕ) → List (ℕ × ℕ)
lowest_of [] current lowest = lowest
lowest_of ((mailbox_id, uid) ∷ tombstones) current lowest =
    lowest_of tombstones current
      (if is_some (current mailbox_id) then note_lowest lowest mailbox_id uid else lowest)

abbrev pub moves_back : (ℕ → Option ℕ) → ℕ × ℕ → Bool
moves_back current e = elim (current e.0) [ none ↦ false | some next ↦ ltb e.1 next ]

unfoldable pub plan_uidnext_rewind : List (ℕ × ℕ) → (ℕ → Option ℕ) → List (ℕ × ℕ)
plan_uidnext_rewind tombstones current =
    select (moves_back current) (lowest_of tombstones current [])

-- `_gave_up_scope` over the joined row: `account_of` gives the name of the account that a mailbox
-- belongs to, `none` where the join finds no row. `older_than_s` is a number of seconds.
unfoldable pub gave_up_scope : (ℕ → Option String) → ℕ → Option String → Option ℤ → Hold → Bool
gave_up_scope account_of now account_name older_than_s h = elim (account_of h.mailbox_id) [
  | none ↦ false
  | some name ↦
      is_some h.gave_up_at
      && elim account_name [ none ↦ true | some wanted ↦ str_eq name wanted ]
      && elim older_than_s [
        | none ↦ true
        | some age ↦ elim h.gave_up_at [ none ↦ false | some t ↦ diff_gt now t age ]
      ]
]

abbrev pub rearm : ℕ → Hold → Hold
rearm now h = record h { attempt_count = 0; first_seen_at = now; last_seen_at = now }

unfoldable pub arm_for_retry : (ℕ → Option String) → ℕ → Option String → List Hold → List Hold × ℕ
arm_for_retry account_of now account_name holds =
    let scope = gave_up_scope account_of now account_name none in
    (update scope (rearm now) holds, count scope holds)

-- The rows that `list_gave_up` returns, before its ORDER BY and LIMIT.
unfoldable pub gave_up_rows :
    (ℕ → Option String) → ℕ → Option String → Option ℤ → List Hold → List Hold
gave_up_rows account_of now account_name older_than_s holds =
    select (gave_up_scope account_of now account_name older_than_s) holds

unfoldable pub purge_gave_up :
    (ℕ → Option String) → ℕ → Option String → Option ℤ → List Hold → List Hold × ℕ
purge_gave_up account_of now account_name older_than_s holds =
    let scope = gave_up_scope account_of now account_name older_than_s in
    (delete scope holds, count scope holds)
