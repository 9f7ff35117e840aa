-- ===== src/Sync/Examples.antt =====
-- The sync pass, its holds and their retries, run on small inputs.
use localmail.Sync.Retry.{
  retry_row, retry_failed_messages, RetryEnv, Settled, retry_row-Settled, settle_retry, retry_rows,
}
use localmail.Sync.Uids.{should_reallocate_uid, next_uid_after, max_label_uid, checkpoint_uidnext}
use localmail.Common.{
  str_eq, ◌==◌, if◌then◌else◌, ℕ, ◌+◌, ◌≤◌, ◌<◌, String, ◌≡◌, refl, true, false, Option, none, some,
  List, [], ◌∷◌, arith,
}
use localmail.Common.Table.{select, exists, find, delete, update, count}
use localmail.Sync.Store.{Parsed, Mailbox, Db, Hold, FailedMessage}
use localmail.Sync.Messages.{
  World, ok, has_key, existing_message_id, insert_message, arrive, upsert_message, upsert_label,
  set_message_attachments, clear_mailbox_labels, process_one_message, record_failed_message,
  Returns,
}
use localmail.Sync.Pass.{
  Env, sync_mailbox, candidates, uid_still_on_server, hold_or_give_up, without_body, recover,
  poison, store_or_poison, step, run_batch, update_mailbox_progress, checkpoint, sync_batches,
}
use localmail.Sync.Pass.Complete.{watermark}
use localmail.Sync.Pass.Accounted.{IsRecorded, Accounted}
use localmail.Sync.Holds.Life.{
  gave_up_moment, sightings, act_all, give_up, hold_window, sight, reclaim, clear, tombstone_kept,
  act,
}
use localmail.Sync.Holds.{
  purge_gave_up, arm_for_retry, gave_up_rows, plan_uidnext_rewind, hold_expired, load_attempts,
  record_attempt, clear_attempts, reclaim_below, clear_mailbox, mark_gave_up, note_lowest,
  lowest_of, gave_up_scope,
}
use localmail.Sync.Holds.Rewind.{uid_of, find_entry, is_at, plan_uidnext_rewind_reaches}
use localmail.Common.Int.{pos}
use localmail.Sync.Holds.Keys.{find_hold}
use localmail.Common.Lists.{length}
use localmail.Sync.Pass.Whole.{sync_mailbox_accounts}
use localmail.Sync.Pass.Renumbered.{old_watermark_skips}
use localmail.Sync.Holds.Scope.{purge-list, arm_for_retry_reopens}
use localmail.Sync.Order.{batches, sorted, filter_new_uids}

-- All that a run of the model computes with.
program : Unit {0}
unfolding select find delete update count hold_expired load_attempts record_attempt clear_attempts
    reclaim_below clear_mailbox mark_gave_up note_lowest lowest_of plan_uidnext_rewind gave_up_scope
    arm_for_retry gave_up_rows purge_gave_up checkpoint_uidnext has_key existing_message_id
    insert_message arrive upsert_message upsert_label set_message_attachments clear_mailbox_labels
    process_one_message record_failed_message uid_still_on_server hold_or_give_up without_body
    recover poison store_or_poison step run_batch update_mailbox_progress checkpoint sync_batches
    batches sorted filter_new_uids candidates sync_mailbox sightings act_all act
    should_reallocate_uid next_uid_after max_label_uid settle_retry retry_row retry_rows
    retry_failed_messages
program = tt

abbrev parse : String → Option Parsed
parse raw =
    if str_eq raw "bad"
    then none
    else some
        (record { message_id = some raw; raw_sha256 = raw; raw_bytes = raw; attachments = [] })

abbrev world : World
world = record { parse = parse; stored = λ p. []; arrived = λ u. []; fault = λ u. none }

-- UID 5 has no body, and 6 cannot be parsed.
abbrev body : ℕ → String
body u = if u == 4 then "hello" else if u == 5 then "" else if u == 6 then "bad" else "more"

abbrev env : Env
env = record {
  account_id = 1;
  uidvalidity = 7;
  server_uidnext = 8;
  all_uids = 4 ∷ 5 ∷ 6 ∷ 7 ∷ [];
  search_from = λ n. 7 ∷ 6 ∷ 5 ∷ 4 ∷ [];
  body = body;
  flags = λ u. [];
  internal_date = λ u. none;
  present = λ u. some true;
  world = world;
  record_fault = λ u. false;
  mark_fault = λ u. false;
  log_fault = λ u. none;
  now = 50;
  stamp = λ u. 50;
  synced_at = 60;
  max_hold = pos 100;
}

abbrev inbox : Mailbox
inbox = record {
  id = 1;
  account_id = 1;
  name = "INBOX";
  delimiter = none;
  flags = [];
  uidvalidity = some 7;
  uidnext = some 4;
  last_sync_at = none;
}

abbrev db : Db
db = record {
  mailboxes = inbox ∷ [];
  messages = [];
  message_seq = 1;
  labels = [];
  failed = [];
  failed_seq = 1;
  holds = [];
}

-- Three messages of four are settled, and the resume point waits at UID 5.
sync_runs :
    (watermark (sync_mailbox env inbox none db).0 1 ≡ some 5)
    × ((sync_mailbox env inbox none db).1 ≡ ok 2)
    × (length (sync_mailbox env inbox none db).0.failed ≡ 1)
    × (length (sync_mailbox env inbox none db).0.holds ≡ 1)
unfolding program
sync_runs = (refl, refl, refl, refl)

recorded : IsRecorded env
recorded = record { record_ok = λ u. refl; mark_ok = λ u. refl; log_ok = λ u. refl }

sync_mailbox_accounts_example : Accounted env 1 (sync_mailbox env inbox none db).0 none 4
unfolding program
sync_mailbox_accounts_example =
    sync_mailbox_accounts env inbox none db 4 5 recorded refl refl (λ e. cc) refl refl (omega arith)

-- The server renumbers the mailbox: its two messages get the UIDs 1 and 2, below the watermark 4.
abbrev renumbered : Env
renumbered = record env { uidvalidity = 8; all_uids = 1 ∷ 2 ∷ []; body = λ u. "more" }

abbrev after : Mailbox
after = record inbox { uidvalidity = some 8; uidnext = some 4; last_sync_at = some 60 }

-- A message that arrives then as UID 3 is not asked for.
abbrev next_env : Env
next_env = record renumbered { search_from = λ n. 3 ∷ [] }

old_watermark_skips_example : exists (λ v. v == 3) (candidates next_env after) ≡ false
unfolding program
old_watermark_skips_example =
    old_watermark_skips renumbered next_env inbox after none db 4 4 3 (λ v. refl) refl refl
      (λ e. cc) refl refl refl (omega arith)

hold_window_example :
    (h : Hold) × (find_hold (sightings (10 ∷ 20 ∷ 30 ∷ []) [] 1 5) 1 5 ≡ some h)
    × (h.attempt_count ≡ 3)
    × (hold_expired h.first_seen_at 110 (pos 100) ≡ true)
unfolding program
hold_window_example = hold_window 10 (20 ∷ 30 ∷ []) [] 1 5 110 100 refl (omega arith)

abbrev tombstone : Hold
tombstone = record {
  mailbox_id = 1;
  uid = 5;
  attempt_count = 3;
  first_seen_at = 10;
  last_seen_at = 30;
  gave_up_at = some 110;
}

abbrev waiting_hold : Hold
waiting_hold = record tombstone { uid = 6; gave_up_at = none }

abbrev holds : List Hold
holds = tombstone ∷ waiting_hold ∷ []

tombstone_kept_example :
    gave_up_moment (
      find_hold
        (act_all (give_up false 200 1 5 ∷ sight false 210 1 5 ∷ reclaim 1 9 ∷ clear 1 6 ∷ []) holds)
        1
        5)
    ≡ some 110
unfolding program
tombstone_kept_example =
    tombstone_kept (give_up false 200 1 5 ∷ sight false 210 1 5 ∷ reclaim 1 9 ∷ clear 1 6 ∷ [])
      holds 1 5 110 (refl, (refl, (refl, (refl, tt)))) refl

abbrev account_of : ℕ → Option String
account_of m = some "work"

arm_for_retry_reopens_example :
    (h : Hold) × (find_hold (arm_for_retry account_of 300 none holds).0 1 5 ≡ some h)
    × (h.gave_up_at ≡ some 110)
    × (h.attempt_count ≡ 0)
    × (hold_expired h.first_seen_at 350 (pos 100) ≡ false)
    × (find_hold (arm_for_retry account_of 300 none holds).0 1 6 ≡ some waiting_hold)
unfolding program
arm_for_retry_reopens_example =
    arm_for_retry_reopens account_of 300 none holds 1 5 350 100 tombstone refl refl (omega arith)
      (omega arith) 1 6 waiting_hold refl refl

purge-list_example :
    ((purge_gave_up account_of 300 none none holds).1
      ≡ length (gave_up_rows account_of 300 none none holds))
    × (gave_up_rows account_of 300 none none (purge_gave_up account_of 300 none none holds).0 ≡ [])
    × (length (purge_gave_up account_of 300 none none holds).0
          + (purge_gave_up account_of 300 none none holds).1
        ≡ length holds)
    × (find_hold (purge_gave_up account_of 300 none none holds).0 1 6 ≡ some waiting_hold)
unfolding program
purge-list_example = purge-list account_of 300 none none holds 1 6 waiting_hold refl refl

abbrev current : ℕ → Option ℕ
current m = if m == 1 then some 9 else none

plan_uidnext_rewind_reaches_example :
    (v : ℕ) × (uid_of (find_entry (plan_uidnext_rewind ((1, 7) ∷ (2, 3) ∷ (1, 5) ∷ []) current) 1)
      ≡ some v)
    × (exists (is_at 1 v) ((1, 7) ∷ (2, 3) ∷ (1, 5) ∷ []) ≡ true)
    × (v ≤ 7)
    × (v < 9)
unfolding program
plan_uidnext_rewind_reaches_example =
    plan_uidnext_rewind_reaches ((1, 7) ∷ (2, 3) ∷ (1, 5) ∷ []) current 1 7 9 refl refl
      (omega arith)

abbrev retry_env : RetryEnv
retry_env = record {
  auth_method = λ a. some "password";
  world = λ id. world;
  log_fault = λ id. none;
}

-- The record of a message that the parser reads now.
abbrev fixed : FailedMessage
fixed = record {
  id = 1;
  account_id = 1;
  mailbox_id = 1;
  uid = 6;
  raw_bytes = "good";
  retry_count = 0;
}

abbrev failed_db : Db
failed_db = record db { failed = fixed ∷ record fixed { id = 2; uid = 9; raw_bytes = "bad" } ∷ [] }

retry_runs : (retry_failed_messages retry_env none failed_db).1 ≡ ok (1, 1)
unfolding program
retry_runs = refl

retry_row-Settled_example :
    Returns (Settled retry_env failed_db fixed) (retry_row retry_env failed_db fixed)
unfolding program
retry_row-Settled_example = retry_row-Settled retry_env failed_db fixed refl

-- The state after the pass above: a message is archived, and the bytes of UID 6 are recorded.
abbrev synced : Db
synced = (sync_mailbox env inbox none db).0
