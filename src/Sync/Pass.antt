-- ===== src/Sync/Pass.antt =====
-- `sync_mailbox` of src/localmail/sync.py: one pass over a mailbox, the state of its loop, and what
-- it commits. Log lines and progress messages are left out.
pub mod Accounted
pub mod Steps
pub mod Complete
pub mod Whole
pub mod Renumbered
pub use localmail.Sync.Env.{Env, Pass}
use localmail.Common.{
  str_eq, is_some, if◌then◌else◌, ltb, ◌==◌, leb, ℕ, zero, suc, ◌+◌, ◌-◌, min, max, String, Bool,
  true, false, not, ◌&&◌, ◌||◌, Option, none, some, List, [], ◌∷◌, map,
}
use localmail.Sync.Messages.{
  ◌>>=◌, World, Fault, Result, raise, process_one_message, ok, clear_mailbox_labels,
  record_failed_message, contention, other,
}
use localmail.Sync.Store.{Db, Mailbox, Hold}
use localmail.Common.Table.{exists, select, delete, update}
use localmail.Sync.Holds.{
  record_attempt, clear_attempts, reclaim_below, hold_expired, load_attempts, mark_gave_up,
  clear_mailbox, HoldState,
}
use localmail.Sync.Uids.{checkpoint_uidnext}
use localmail.Common.Lists.{take, length, drop}
use localmail.Common.Int.{ℤ}
use localmail.Sync.Order.{sorted, batches, filter_new_uids}

abbrev pub batch_size : ℕ
batch_size = 50

unfoldable pub uid_still_on_server : Env → ℕ → Bool
uid_still_on_server env uid = elim (env.present uid) [ none ↦ true | some found ↦ found ]

abbrev pub is_held : Pass → ℕ → Bool
is_held p uid = exists (λ u. u == uid) p.held

abbrev pub lower_hold : Option ℕ → ℕ → ℕ
lower_hold none uid = uid
lower_hold (some h) uid = min h uid

-- The branch of an empty body that the server still has, once the sighting is recorded.
unfoldable pub settle : Env → ℕ → Pass → ℕ → List Hold × HoldState → Pass
settle env mailbox_id p uid (holds, hold) =
    if hold_expired hold.first_seen_at env.now env.max_hold
    then record p {
      db = record p.db {
        holds = mark_gave_up (env.mark_fault uid) (env.stamp uid) holds mailbox_id uid;
      };
      emptying = true;
      highest_seen = max p.highest_seen uid;
      seen = p.seen + 1;
    }
    else record p {
      db = record p.db { holds = holds };
      emptying = true;
      held = uid ∷ p.held;
      hold_at = some (lower_hold p.hold_at uid);
      seen = p.seen + 1;
    }

unfoldable pub hold_or_give_up : Env → ℕ → Pass → ℕ → Pass
unfolding settle
hold_or_give_up env mailbox_id p uid =
    settle env mailbox_id p uid
      (record_attempt (env.record_fault uid) (env.stamp uid) p.db.holds mailbox_id uid)

unfoldable pub without_body : Env → ℕ → Pass → ℕ → Pass
unfolding hold_or_give_up
without_body env mailbox_id p uid =
    if p.emptying || uid_still_on_server env uid
    then hold_or_give_up env mailbox_id p uid
    else record p { highest_seen = max p.highest_seen uid; seen = p.seen + 1 }

-- Recovered: the hold history of a UID whose body came is dropped.
unfoldable pub recover : ℕ → Pass → ℕ → Pass
recover mailbox_id p uid =
    if is_held p uid
    then record p {
      db = record p.db { holds = clear_attempts p.db.holds mailbox_id uid };
      held = delete (λ u. u == uid) p.held;
    }
    else p

abbrev pub advance : ℕ → Pass → Pass
advance uid p = record p { highest_seen = max p.highest_seen uid; seen = p.seen + 1 }

-- The poison-pill branch: contention aborts the pass, any other exception is recorded.
unfoldable pub poison : Env → ℕ → Pass → ℕ → Fault → Result Pass
poison env mailbox_id p uid contention = raise contention
poison env mailbox_id p uid other = do
  db ← record_failed_message (env.log_fault uid) p.db env.account_id mailbox_id uid (env.body uid)
  ok (advance uid (record p { db = db; skipped = p.skipped + 1 }))

abbrev pub processed : ℕ → Pass → Db × Bool → Pass
processed uid p (db, did_insert) =
    advance uid (record p { db = db; inserted = if did_insert then p.inserted + 1 else p.inserted })

unfoldable pub finish : Env → ℕ → Pass → ℕ → Result (Db × Bool) → Result Pass
finish env mailbox_id p uid (ok stored) = ok (processed uid p stored)
finish env mailbox_id p uid (raise e) = poison env mailbox_id p uid e

unfoldable pub store_or_poison : Env → ℕ → Pass → ℕ → Result Pass
unfolding finish
store_or_poison env mailbox_id p uid = finish env mailbox_id p uid (
    process_one_message env.world p.db env.account_id mailbox_id uid (env.body uid) (env.flags uid)
      (env.internal_date uid))

unfoldable pub step : Env → ℕ → Pass → ℕ → Result Pass
step env mailbox_id p uid =
    if str_eq (env.body uid) ""
    then ok (without_body env mailbox_id p uid)
    else store_or_poison env mailbox_id (recover mailbox_id p uid) uid

unfoldable pub run_batch : Env → ℕ → List ℕ → Pass → Result Pass
run_batch env mailbox_id [] p = ok p
run_batch env mailbox_id (uid ∷ chunk) p =
    step env mailbox_id p uid >>= run_batch env mailbox_id chunk

abbrev pub at_mailbox : ℕ → Mailbox → Bool
at_mailbox mailbox_id m = m.id == mailbox_id

abbrev pub set_progress : ℕ → ℕ → ℕ → Mailbox → Mailbox
set_progress uidvalidity uidnext last_sync_at m = record m {
  uidvalidity = some uidvalidity;
  uidnext = some uidnext;
  last_sync_at = some last_sync_at;
}

unfoldable pub update_mailbox_progress : List Mailbox → ℕ → ℕ → ℕ → ℕ → List Mailbox
update_mailbox_progress mailboxes mailbox_id uidvalidity uidnext last_sync_at =
    update (at_mailbox mailbox_id) (set_progress uidvalidity uidnext last_sync_at) mailboxes

abbrev pub resume_of : Pass → ℕ
resume_of p = checkpoint_uidnext p.highest_seen p.hold_at

-- The end of a batch; what it writes is committed.
unfoldable pub checkpoint : Env → ℕ → Pass → Pass
checkpoint env mailbox_id p = record p {
  db = record p.db {
    mailboxes =
        update_mailbox_progress p.db.mailboxes mailbox_id env.uidvalidity (resume_of p)
          env.synced_at;
    holds = reclaim_below p.db.holds mailbox_id (resume_of p);
  };
}

-- A batch that raises leaves what was committed before it.
abbrev pub commit_or_abort : Db → (Pass → Db × Result ℕ) → Result Pass → Db × Result ℕ
commit_or_abort committed go_on (ok p) = go_on p
commit_or_abort committed go_on (raise e) = (committed, raise e)

-- The committed state and the count of new messages, or the exception that aborted the pass. What
-- other writers committed during the aborted batch is left out of the state.
unfoldable pub sync_batches : Env → ℕ → List (List ℕ) → Pass → Db × Result ℕ
sync_batches env mailbox_id [] p = (p.db, ok p.inserted)
sync_batches env mailbox_id (chunk ∷ chunks) p =
    commit_or_abort p.db (λ p'. sync_batches env mailbox_id chunks (checkpoint env mailbox_id p'))
      (run_batch env mailbox_id chunk p)

-- `mailbox.uidnext or 1`: a stored 0 counts as 1 too.
abbrev pub or_one : Option ℕ → ℕ
or_one none = 1
or_one (some n) = if n == 0 then 1 else n

-- `mailbox.uidvalidity != server_uidvalidity`
abbrev pub is_full_sync : Env → Mailbox → Bool
is_full_sync env mailbox = elim mailbox.uidvalidity [
  | none ↦ true
  | some v ↦ not (v == env.uidvalidity)
]

abbrev pub clear_renumbered : Env → Mailbox → Db → Db
clear_renumbered env mailbox db =
    if is_full_sync env mailbox && is_some mailbox.uidvalidity
    then record db {
      labels = clear_mailbox_labels db.labels mailbox.id;
      holds = clear_mailbox db.holds mailbox.id;
    }
    else db

unfoldable pub candidates : Env → Mailbox → List ℕ
candidates env mailbox =
    if is_full_sync env mailbox
    then sorted env.all_uids
    else filter_new_uids (env.search_from (or_one mailbox.uidnext)) (some (or_one mailbox.uidnext))

abbrev pub at_most : Option ℕ → List ℕ → List ℕ
at_most none uids = uids
at_most (some n) uids = if ltb n (length uids) then take n uids else uids

abbrev pub start : Mailbox → Db → Pass
start mailbox db = record {
  db = db;
  inserted = 0;
  skipped = 0;
  seen = 0;
  highest_seen = or_one mailbox.uidnext - 1;
  hold_at = none;
  emptying = false;
  held = map (λ e. e.0) (load_attempts db.holds mailbox.id);
}

-- `server_uidnext or (mailbox.uidnext or 1)`
abbrev pub nothing_new : Env → Mailbox → Db → Db
nothing_new env mailbox db = record db {
  mailboxes =
      update_mailbox_progress db.mailboxes mailbox.id env.uidvalidity
        (if env.server_uidnext == 0 then or_one mailbox.uidnext else env.server_uidnext)
        env.synced_at;
}

unfoldable pub sync_uids : Env → Mailbox → Db → List ℕ → Db × Result ℕ
sync_uids env mailbox db [] = (nothing_new env mailbox db, ok 0)
sync_uids env mailbox db (u ∷ uids) =
    sync_batches env mailbox.id (batches (u ∷ uids) batch_size) (start mailbox db)

-- `max_messages` is not negative.
unfoldable pub sync_mailbox : Env → Mailbox → Option ℕ → Db → Db × Result ℕ
unfolding sync_uids
sync_mailbox env mailbox max_messages db =
    sync_uids env mailbox (clear_renumbered env mailbox db)
      (at_most max_messages (candidates env mailbox))
