-- ===== src/Import/Examples.antt =====
-- An import that is checkpointed after each second message, and then meets contention.
use localmail.Import.{
  completed, running, JobStatus, stored, linked, refused_row, did_insert, did_link, contended,
  poisoned, arrives, pending, failed_job, find, ImportConfig, JobRow, Event, run_import,
  no_counters, Entry, is_terminal, should_checkpoint, open_mailbox, take_message, checkpoint_import,
  import_messages, mark_terminal,
}
use localmail.Common.Int.{pos}
use localmail.Import.Jobs.Guard.{
  at_start, then_created, then_claimed, then_reaped, Follows, IsDone, Follows-IsDone,
}
use localmail.Query.Text.{Text, codes}
use localmail.Common.{
  if◌then◌else◌, ◌==◌, ℕ, ◌≡◌, refl, true, false, some, List, [], ◌∷◌, arith, ◌≤◌, Bool,
}
use localmail.Common.Table.{find, update, count, select}
use localmail.Import.Reported.{IsReport, run_import-IsReport}
use localmail.Import.Log.{names}
use localmail.Import.Jobs.{
  ImportJob, mark_running, is_active, reconcile_orphaned_jobs, create_job, write_terminal,
  cancel_job,
}

program : Unit {0}
unfolding find update count should_checkpoint open_mailbox take_message checkpoint_import
    import_messages mark_terminal run_import
program = tt

abbrev cfg : ImportConfig
cfg = record { checkpoint_every = pos 2; checkpoint_seconds = pos 0; terminal_write_attempts = 3 }

abbrev reserved : ℕ → ℕ
reserved name = if name == 7 then 40 else 0

abbrev waiting : JobRow
waiting = record { status = pending; counters = no_counters }

abbrev source : List Event
source =
    arrives 7 did_insert 1 false
    ∷ arrives 7 did_link 2 false
    ∷ arrives 7 (poisoned (some 3) true) 3 false
    ∷ arrives 7 did_insert 4 false
    ∷ arrives 7 contended 5 false
    ∷ []

-- The first message and the next two are committed; the fourth is rolled back with the fifth.
contention : run_import cfg reserved true 0 source (false ∷ true ∷ []) waiting ≡ (
  some (record {
    status = failed_job;
    counters = record { processed = 3; inserted = 1; skipped_dup = 1; failed = 1 };
  }),
  record { mailbox = 7; uid = 41; kind = stored }
      ∷ record { mailbox = 7; uid = 42; kind = linked }
      ∷ record { mailbox = 7; uid = 3; kind = refused_row }
      ∷ [],
)
unfolding program
contention = refl

run_import-IsReport_example :
    (new : JobRow) × (log : List Entry) × (run_import cfg reserved true 0 source
        (false ∷ true ∷ [])
        waiting
      ≡ (some new, log))
    × (is_terminal new.status ≡ true)
    × IsReport cfg reserved (names source) new log
run_import-IsReport_example =
    run_import-IsReport cfg reserved 0 source (false ∷ true ∷ []) waiting (omega arith) refl refl

abbrev here : Text
here = codes "here"

abbrev job_of : ℕ → JobStatus → ImportJob
job_of id status = record {
  id = id;
  account_id = 5;
  status = status;
  cancel_requested = false;
  owner_host = some here;
  owner_pid = some 50;
}

abbrev one_done : List ImportJob
one_done = job_of 1 completed ∷ []

abbrev two_done : List ImportJob
two_done = job_of 1 completed ∷ job_of 2 failed_job ∷ []

jobs_program : Unit {0}
unfolding find update count select create_job cancel_job reconcile_orphaned_jobs mark_running
    write_terminal
jobs_program = tt

abbrev none_lives : ℕ → Bool
none_lives pid = false

-- A second job is created, claimed, and then reaped, since its process is gone.
second_reaped : Follows 1 one_done 2 two_done
unfolding jobs_program
second_reaped =
    let created = job_of 1 completed ∷ job_of 2 pending ∷ [] in
    then_reaped 1 2 2 one_done (mark_running 2 created) (mark_running 2 created) here none_lives
      (then_claimed 1 2 one_done created 2 (
        then_created 1 1 1 one_done one_done one_done created true (some true) 5 2 (some here)
          (some 50) (at_start 1 one_done) (at_start 1 one_done) (omega arith) refl))
      (at_start 2 (mark_running 2 created))

Follows-IsDone_example : (count is_active two_done ≤ 1) × IsDone 1 2 two_done
unfolding jobs_program
Follows-IsDone_example =
    Follows-IsDone 1 2 one_done two_done second_reaped (omega arith) 1 (omega arith, refl)

-- A job that ends, with its process, after the SELECT of a reconciliation.
completed_overwritten :
    reconcile_orphaned_jobs here none_lives (write_terminal 2 completed) (job_of 2 running ∷ [])
    ≡ job_of 2 failed_job ∷ []
unfolding jobs_program
completed_overwritten = refl
