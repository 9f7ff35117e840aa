-- ===== src/Import.antt =====
-- The import of an archive: src/localmail/importer/runner.py and src/localmail/importer/job_state.py.
-- What the source, the database and the clock answer is given event by event.
pub mod Log
pub mod Reported
pub mod Jobs
mod Examples
use localmail.Common.Int.{ℤ, to_nat}
use localmail.Common.{
  ltb, leb, ◌==◌, if◌then◌else◌, ℕ, suc, ◌-◌, Bool, true, false, not, ◌&&◌, ◌||◌, Option, none,
  some, List, [], ◌∷◌, ◌++◌,
}
use localmail.Common.Table.{exists, find, insert, update}
use localmail.Common.Lists.{take}

pub data JobStatus : Type 0 where
  pending running completed failed_job cancelled : JobStatus

pub record Counters : Type 0 where
  pub processed : ℕ
  pub inserted : ℕ
  pub skipped_dup : ℕ
  pub failed : ℕ

-- `is_terminal`
abbrev pub is_terminal : JobStatus → Bool
is_terminal pending = false
is_terminal running = false
is_terminal completed = true
is_terminal failed_job = true
is_terminal cancelled = true

abbrev pub no_counters : Counters
no_counters = record { processed = 0; inserted = 0; skipped_dup = 0; failed = 0 }

-- The columns of import_jobs that the runner writes.
pub record JobRow : Type 0 where
  pub status : JobStatus
  pub counters : Counters

-- What a message leaves behind: a row of messages with its label, a label of a message that is
-- stored already, a row of failed_messages, or nothing, where that row could not be written.
pub data Kind : Type 0 where
  stored linked refused_row unrecorded : Kind

pub record Entry : Type 0 where
  pub mailbox : ℕ
  pub uid : ℕ
  pub kind : Kind

-- What process_one_message does: it inserts the message or finds it, or raises; contention is of
-- DB_CONTENTION_ERRORS, and a poison message has the uid of an earlier failure, where there is one, and
-- whether record_failed_message writes its row (it logs any other error of that, and goes on).
pub data Outcome : Type 0 where
  did_insert did_link contended : Outcome
  poisoned : Option ℕ → Bool → Outcome

-- One step of the source: a message of a mailbox, with the clock after it and whether a cancel is
-- requested by then, or an exception outside a message's savepoint.
pub data Event : Type 0 where
  arrives : ℕ → Outcome → ℕ → Bool → Event
  breaks : Event

pub record ImportConfig : Type 0 where
  pub checkpoint_every : ℤ
  pub checkpoint_seconds : ℤ
  pub terminal_write_attempts : ℕ

-- uid_counters
pub record UidCounter : Type 0 where
  pub mailbox : ℕ
  pub last_uid : ℕ

-- The variables of the loop, the row, and what the open transaction and the last commit hold of this
-- import.
pub record Runner : Type 0 where
  pub c : Counters
  pub committed : Counters
  pub log : List Entry
  pub committed_log : List Entry
  pub uid_counters : List UidCounter
  pub processed_at_last_checkpoint : ℕ
  pub last_checkpoint_at : ℕ
  pub row : JobRow

abbrev pub reaches : ℤ → ℕ → Bool
reaches limit n = ltb 0 (to_nat limit) && leb (to_nat limit) n

-- `should_checkpoint`
unfoldable pub should_checkpoint : ImportConfig → ℕ → ℕ → ℕ → Bool
should_checkpoint cfg processed processed_before seconds =
    ltb processed_before processed
    && (processed_before == 0
        || (reaches cfg.checkpoint_every (processed - processed_before)
            || reaches cfg.checkpoint_seconds seconds))

-- conn.commit() and committed = replace(c)
abbrev pub commit_import : Runner → Runner
commit_import r = record r { committed = r.c; committed_log = r.log }

-- conn.close() on the way out of an exception
abbrev pub close_import : Runner → Runner
close_import r = record r { log = r.committed_log }

abbrev pub of_mailbox : ℕ → UidCounter → Bool
of_mailbox name u = u.mailbox == name

abbrev pub next_after : Option UidCounter → ℕ
next_after none = 0
next_after (some u) = suc u.last_uid

abbrev pub advance : UidCounter → UidCounter
advance u = record u { last_uid = suc u.last_uid }

-- A mailbox that is met for the first time is committed, and counts from `max_reserved_uid` on.
unfoldable pub open_mailbox : (ℕ → ℕ) → ℕ → Runner → Runner
open_mailbox max_reserved_uid name r =
    if exists (of_mailbox name) r.uid_counters
    then r
    else (let r' = commit_import r in
        record r' {
          uid_counters =
              insert (record { mailbox = name; last_uid = max_reserved_uid name }) r'.uid_counters;
        })

-- The counters and the log after one message.
abbrev pub add_entry : Counters → Entry → Runner → Runner
add_entry c e r = record r { c = c; log = r.log ++ e ∷ [] }

abbrev pub one_processed : Counters → Counters
one_processed c = record c { processed = suc c.processed }

abbrev pub or_uid : ℕ → Option ℕ → ℕ
or_uid uid none = uid
or_uid uid (some prior) = prior

-- The body of the loop up to the checkpoint; none is the exception that contention is.
abbrev pub settle_message : ℕ → ℕ → Outcome → Runner → Option Runner
settle_message name uid did_insert r = some (
    add_entry (one_processed (record r.c { inserted = suc r.c.inserted }))
      (record { mailbox = name; uid = uid; kind = stored }) r)
settle_message name uid did_link r = some (
    add_entry (one_processed (record r.c { skipped_dup = suc r.c.skipped_dup }))
      (record { mailbox = name; uid = uid; kind = linked }) r)
settle_message name uid (poisoned prior recorded) r = some (
    add_entry (one_processed (record r.c { failed = suc r.c.failed }))
      (record {
        mailbox = name;
        uid = or_uid uid prior;
        kind = (if recorded then refused_row else unrecorded);
      })
      r)
settle_message name uid contended r = none

unfoldable pub take_message : (ℕ → ℕ) → ℕ → Outcome → Runner → Option Runner
take_message max_reserved_uid name outcome r =
    let opened = open_mailbox max_reserved_uid name r in
    let uid = next_after (find (of_mailbox name) opened.uid_counters) in
    settle_message name uid outcome
      (record opened { uid_counters = update (of_mailbox name) advance opened.uid_counters })

-- `_flush`, which commits
abbrev pub flush_row : ℕ → Runner → Runner
flush_row now r = commit_import (record r {
  row = record r.row { counters = r.c };
  processed_at_last_checkpoint = r.c.processed;
  last_checkpoint_at = now;
})

-- Whether the loop goes on.
unfoldable pub checkpoint_import : ImportConfig → ℕ → Bool → Runner → Runner × Bool
checkpoint_import cfg now cancel r =
    if should_checkpoint cfg r.c.processed r.processed_at_last_checkpoint
      (now - r.last_checkpoint_at)
    then (flush_row now r, not cancel)
    else (r, true)

pub data Ending : Type 0 where
  ran_out stopped raised : Ending

module _ (cfg : ImportConfig) (max_reserved_uid : ℕ → ℕ) where
  unfoldable pub import_messages : List Event → Runner → Runner × Ending
  import_messages [] r = (commit_import r, ran_out)
  import_messages (breaks ∷ events) r = (close_import r, raised)
  import_messages (arrives name outcome now cancel ∷ events) r =
      elim (take_message max_reserved_uid name outcome r) [
        | none ↦ (close_import (open_mailbox max_reserved_uid name r), raised)
        | some settled ↦
            let (r', goes_on) = checkpoint_import cfg now cancel settled in
            let rest = import_messages events r' in
            if goes_on then rest else (commit_import r', stopped)
      ]

  -- The terminal status and the counters that it comes with.
  abbrev pub outcome_row : Runner → Ending → JobRow
  outcome_row r ran_out = record { status = completed; counters = r.c }
  outcome_row r stopped = record { status = cancelled; counters = r.c }
  outcome_row r raised = record { status = failed_job; counters = r.committed }

  -- `_mark_terminal`: whether each attempt succeeds; none is TerminalStatusUnwritten.
  unfoldable pub mark_terminal : List Bool → JobRow → Option JobRow
  mark_terminal [] new = none
  mark_terminal (true ∷ attempts) new = some new
  mark_terminal (false ∷ attempts) new = mark_terminal attempts new

  abbrev pub start_import : ℕ → JobRow → Runner
  start_import now row = record {
    c = no_counters;
    committed = no_counters;
    log = [];
    committed_log = [];
    uid_counters = [];
    processed_at_last_checkpoint = 0;
    last_checkpoint_at = now;
    row = record row { status = running };
  }

  abbrev pub finish_import : List Bool → Runner × Ending → Option JobRow × List Entry
  finish_import attempts (r, ending) = (
    mark_terminal (take cfg.terminal_write_attempts attempts) (outcome_row r ending),
    r.committed_log,
  )

  abbrev pub is_pending : JobStatus → Bool
  is_pending pending = true
  is_pending _ = false

  -- The row that is left, or none where it could not be written, and what is committed of the
  -- messages; `connects` is whether the worker's connection opens. A job that is not pending is left
  -- alone, and so is one for which no attempt to write its row is granted (the ValueError).
  unfoldable pub run_import :
      Bool → ℕ → List Event → List Bool → JobRow → Option JobRow × List Entry
  run_import connects now events attempts row =
      if ltb cfg.terminal_write_attempts 1
      then (some row, [])
      else if not connects
      then (
        mark_terminal (take cfg.terminal_write_attempts attempts)
            (record { status = failed_job; counters = no_counters }),
        [],
      )
      else if is_pending row.status
      then finish_import attempts (import_messages events (start_import now row))
      else (some row, [])
