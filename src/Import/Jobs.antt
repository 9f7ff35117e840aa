-- ===== src/Import/Jobs.antt =====
-- The table of import jobs: src/localmail/api/admin/imports.py and src/localmail/importer/ownership.py,
-- with the statements of src/localmail/importer/runner.py on a job's status. What other sessions commit
-- between the check and the insert of a creation is a function on the table.
pub mod Guard
use localmail.Import.{pending, running, completed, failed_job, cancelled, JobStatus, is_terminal}
use localmail.Common.{
  ltb, if◌then◌else◌, ◌==◌, ℕ, Bool, true, false, not, ◌&&◌, Option, none, some, List, [], ◌∷◌, map,
}
use localmail.Common.Table.{exists, update, delete, insert, count, select}
use localmail.Daemon.Reconcile.{mem}
use localmail.Query.Text.{Text, text_eq}

pub record ImportJob : Type 0 where
  pub id : ℕ
  pub account_id : ℕ
  pub status : JobStatus
  pub cancel_requested : Bool
  pub owner_host : Option Text
  pub owner_pid : Option ℕ

-- A creation's result: the table with the new row, an ImportFieldError, a NotFound for the account,
-- or an ImportBusyError.
pub data Creation : Type 0 where
  creates : List ImportJob → Creation
  field_error account_missing busy : Creation

-- `ACTIVE_STATUSES`
abbrev pub active_status : JobStatus → Bool
active_status pending = true
active_status running = true
active_status _ = false

abbrev pub is_active : ImportJob → Bool
is_active job = active_status job.status

abbrev pub of_job : ℕ → ImportJob → Bool
of_job id job = job.id == id

-- INSERT under the unique index on active jobs; none is the UniqueViolation.
abbrev pub insert_active : ImportJob → List ImportJob → Creation
insert_active job jobs =
    if is_active job && exists is_active jobs then busy else creates (insert job jobs)

-- The account's auth_method is 'archive', where there is an account, which is there still at the INSERT.
unfoldable pub create_job :
    Bool
    → Option Bool
    → ℕ
    → ℕ
    → Option Text
    → Option ℕ
    → (List ImportJob → List ImportJob)
    → List ImportJob
    → Creation
create_job kind_valid none account_id id host pid others jobs =
    if kind_valid then account_missing else field_error
create_job kind_valid (some is_archive) account_id id host pid others jobs =
    if not kind_valid
    then field_error
    else if not is_archive
    then field_error
    else if ltb 0 (count is_active jobs)
    then busy
    else insert_active
        (record {
          id = id;
          account_id = account_id;
          status = pending;
          cancel_requested = false;
          owner_host = host;
          owner_pid = pid;
        })
        (others jobs)

abbrev pub request_cancel : ImportJob → ImportJob
request_cancel job = record job { cancel_requested = true }

-- none is the NotFound.
unfoldable pub cancel_job : ℕ → List ImportJob → Option (List ImportJob)
cancel_job id jobs =
    if exists (of_job id) jobs then some (update (of_job id) request_cancel jobs) else none

abbrev pub same_host : Option Text → Text → Bool
same_host none host = false
same_host (some h) host = text_eq h host

-- `should_reap`, given whether the process lives.
abbrev pub should_reap : Option Text → Option ℕ → Text → Bool → Bool
should_reap owner_host none current_host alive = true
should_reap owner_host (some pid) current_host alive =
    if not (same_host owner_host current_host) then false else not alive

abbrev pub lives : (ℕ → Bool) → Option ℕ → Bool
lives pid_alive none = false
lives pid_alive (some pid) = pid_alive pid

abbrev pub is_orphan : Text → (ℕ → Bool) → ImportJob → Bool
is_orphan host pid_alive job =
    is_active job && should_reap job.owner_host job.owner_pid host (lives pid_alive job.owner_pid)

abbrev pub set_status : JobStatus → ImportJob → ImportJob
set_status status job = record job { status = status }

abbrev pub reap_ids : Text → (ℕ → Bool) → List ImportJob → List ℕ
reap_ids host pid_alive jobs = map (λ job. job.id) (select (is_orphan host pid_alive) jobs)

abbrev pub is_reaped : List ℕ → ImportJob → Bool
is_reaped ids job = mem job.id ids

abbrev pub reap : List ℕ → List ImportJob → List ImportJob
reap [] jobs = jobs
reap (id ∷ ids) jobs = update (is_reaped (id ∷ ids)) (set_status failed_job) jobs

-- `others` is what is committed between the SELECT and the UPDATE, which does not ask for the status
-- again.
unfoldable pub reconcile_orphaned_jobs :
    Text → (ℕ → Bool) → (List ImportJob → List ImportJob) → List ImportJob → List ImportJob
reconcile_orphaned_jobs host pid_alive others jobs =
    reap (reap_ids host pid_alive jobs) (others jobs)

abbrev pub waits : JobStatus → Bool
waits pending = true
waits _ = false

abbrev pub pending_job : ℕ → ImportJob → Bool
pending_job id job = job.id == id && waits job.status

-- `_mark_running`
unfoldable pub mark_running : ℕ → List ImportJob → List ImportJob
mark_running id jobs = update (pending_job id) (set_status running) jobs

-- `_write_terminal`, which does not ask for the status before
unfoldable pub write_terminal : ℕ → JobStatus → List ImportJob → List ImportJob
write_terminal id status jobs = update (of_job id) (set_status status) jobs

abbrev pub of_account : ℕ → ImportJob → Bool
of_account account_id job = job.account_id == account_id

-- DELETE FROM accounts, where it comes to that, with its cascade
unfoldable pub delete_account : ℕ → List ImportJob → List ImportJob
delete_account account_id jobs = delete (of_account account_id) jobs
