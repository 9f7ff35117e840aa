-- ===== src/Import/Jobs/Guard.antt =====
-- The guard of src/localmail/api/admin/imports.py against a second import at a time, and the end of a
-- job, over the statements that its sessions interleave.
use localmail.Import.{JobStatus, is_terminal, pending, running, completed, failed_job, cancelled}
use localmail.Common.{
  ◌≤◌, ◌≡◌, ◌==◌, ℕ, Bool, true, false, ◌&&◌, Option, some, List, sym, [], ◌∷◌, arith, Bool-cases,
  refl, inl, inr, none, ◌<◌,
}
use localmail.Common.Table.{exists, count, update, insert, find}
use localmail.Import.Jobs.{
  ImportJob, creates, is_active, of_job, create_job, cancel_job, mark_running, write_terminal,
  reconcile_orphaned_jobs, request_cancel, waits, pending_job, set_status, reap, reap_ids,
  is_reaped, active_status, delete_account, of_account,
}
use localmail.Query.Text.{Text}
use mathlib.Core.Path.{subst}
use localmail.Common.Table.Laws.{find-append}
use localmail.Common.Table.Counts.{
  count-update_le, count-append, count-absent, exists-update_none, count-delete_le,
  exists-delete_none,
}

abbrev pub active_job : ℕ → ImportJob → Bool
active_job id job = job.id == id && is_active job

-- What the sessions of the program make of the table, one committed statement after the other, from a
-- table and the last id that is handed out. A creation and a reconciliation see the table twice, with
-- what the others commit in between; the id of a new job is handed out once, what ends a job is terminal, and the
-- deletion of an account takes its jobs with it.
pub data Follows : ℕ → List ImportJob → ℕ → List ImportJob → Type 0 where
  at_start : (first : ℕ) (start : List ImportJob) → Follows first start first start
  then_created :
      (first last later : ℕ) (start jobs between new : List ImportJob) (kind_valid : Bool)
      (account : Option Bool) (account_id id : ℕ) (host : Option Text) (pid : Option ℕ)
      → Follows first start last jobs
      → Follows last jobs later between
      → later < id
      → create_job kind_valid account account_id id host pid (λ _. between) jobs ≡ creates new
      → Follows first start id new
  then_cancelled :
      (first last : ℕ) (start jobs new : List ImportJob) (id : ℕ)
      → Follows first start last jobs
      → cancel_job id jobs ≡ some new
      → Follows first start last new
  then_claimed :
      (first last : ℕ) (start jobs : List ImportJob) (id : ℕ)
      → Follows first start last jobs
      → Follows first start last (mark_running id jobs)
  then_ended :
      (first last : ℕ) (start jobs : List ImportJob) (id : ℕ) (status : JobStatus)
      → Follows first start last jobs
      → is_terminal status ≡ true
      → Follows first start last (write_terminal id status jobs)
  then_reaped :
      (first last later : ℕ) (start jobs between : List ImportJob) (host : Text)
      (pid_alive : ℕ → Bool)
      → Follows first start last jobs
      → Follows last jobs later between
      → Follows first start later (reconcile_orphaned_jobs host pid_alive (λ _. between) jobs)
  then_deleted :
      (first last : ℕ) (start jobs : List ImportJob) (account_id : ℕ)
      → Follows first start last jobs
      → Follows first start last (delete_account account_id jobs)

-- The id was handed out, and no job with it is pending or running.
abbrev pub IsDone : ℕ → ℕ → List ImportJob → Type 0
IsDone id last jobs = (id ≤ last) × (exists (active_job id) jobs ≡ false)

-- One active job at most, and what is done stays done.
abbrev pub IsSafe : ℕ → List ImportJob → ℕ → List ImportJob → Type 0
IsSafe first jobs last new =
    (count is_active jobs ≤ 1 → count is_active new ≤ 1)
    × ((id : ℕ) → IsDone id first jobs → IsDone id last new)

IsSafe-trans :
    (a b c : ℕ) (xs ys zs : List ImportJob) → IsSafe a xs b ys → IsSafe b ys c zs → IsSafe a xs c zs
IsSafe-trans a b c xs ys zs (h, k) (h', k') = (λ e. h' (h e), λ id e. k' id (k id e))

-- An UPDATE that makes no row active that was not.
update-IsSafe :
    (last : ℕ) (q : ImportJob → Bool) (f : ImportJob → ImportJob) (jobs : List ImportJob)
    → ((job : ImportJob) → (f job).id ≡ job.id)
    → ((job : ImportJob) → q job ≡ true → is_active (f job) ≡ true → is_active job ≡ true)
    → IsSafe last jobs last (update q f jobs)
update-IsSafe last q f jobs same narrower = (
  λ h. (let le = count-update_le is_active q f jobs narrower in omega arith),
  λ id (e, d). (
    e,
    exists-update_none (active_job id) q f jobs
        (λ job h k. rw (sym (same job)) (ground (arith, narrower job))) d,
  ),
)

count-insert_first :
    (job : ImportJob) (jobs : List ImportJob)
    → exists is_active jobs ≡ false
    → count is_active (insert job jobs) ≤ 1
unfolding count
count-insert_first job jobs idle =
    ground (arith, count-append is_active jobs (job ∷ []), count-absent is_active jobs idle)

exists-insert_fresh :
    (id last : ℕ) (job : ImportJob) (jobs : List ImportJob)
    → last < job.id
    → IsDone id last jobs
    → exists (active_job id) (insert job jobs) ≡ false
unfolding find
exists-insert_fresh id last job jobs fresh (e, d) =
    ground (arith, find-append (active_job id) jobs (job ∷ []))

insert-IsSafe :
    (last : ℕ) (job : ImportJob) (jobs : List ImportJob)
    → last < job.id
    → exists is_active jobs ≡ false
    → IsSafe last jobs job.id (insert job jobs)
insert-IsSafe last job jobs fresh idle = (
  λ h. count-insert_first job jobs idle,
  λ id (e, d). (omega arith, exists-insert_fresh id last job jobs fresh (e, d)),
)

-- A creation that succeeds has inserted one job, where no job was active.
create_job-creates :
    (last : ℕ) (kind_valid : Bool) (account : Option Bool) (account_id id : ℕ) (host : Option Text)
    (pid : Option ℕ) (jobs between new : List ImportJob)
    → last < id
    → create_job kind_valid account account_id id host pid (λ _. between) jobs ≡ creates new
    → IsSafe last between id new
unfolding create_job
create_job-creates last kind_valid none account_id id host pid jobs between new fresh h =
    ground arith
create_job-creates last kind_valid (some is_archive) account_id id host pid jobs between new fresh
      h =
    elim (Bool-cases (exists is_active between)) [
      | inl e ↦ ground arith
      | inr e ↦
          let job : ImportJob = record {
            id = id;
            account_id = account_id;
            status = pending;
            cancel_requested = false;
            owner_host = host;
            owner_pid = pid;
          } in
          let eq : new ≡ insert job between = ground arith in
          subst (IsSafe last between id) (sym eq) (insert-IsSafe last job between fresh e)
    ]

cancel_job-IsSafe :
    (last id : ℕ) (jobs new : List ImportJob)
    → cancel_job id jobs ≡ some new
    → IsSafe last jobs last new
unfolding cancel_job
cancel_job-IsSafe last id jobs new h =
    let eq : new ≡ update (of_job id) request_cancel jobs = ground arith in
    subst (IsSafe last jobs last) (sym eq)
      (update-IsSafe last (of_job id) request_cancel jobs (λ job. refl) (λ job k a. a))

delete_account-IsSafe :
    (last account_id : ℕ) (jobs : List ImportJob)
    → IsSafe last jobs last (delete_account account_id jobs)
unfolding delete_account
delete_account-IsSafe last account_id jobs = (
  λ h. (let le = count-delete_le is_active (of_account account_id) jobs in omega arith),
  λ id (e, d). (e, exists-delete_none (active_job id) (of_account account_id) jobs d),
)

waits-active_status : (status : JobStatus) → waits status ≡ true → active_status status ≡ true
waits-active_status pending h = refl
waits-active_status running h = refl
waits-active_status completed h = absurd (cc h)
waits-active_status failed_job h = absurd (cc h)
waits-active_status cancelled h = absurd (cc h)

is_terminal-active_status :
    (status : JobStatus) → is_terminal status ≡ true → active_status status ≡ false
is_terminal-active_status pending h = absurd (cc h)
is_terminal-active_status running h = absurd (cc h)
is_terminal-active_status completed h = refl
is_terminal-active_status failed_job h = refl
is_terminal-active_status cancelled h = refl

mark_running-IsSafe :
    (last id : ℕ) (jobs : List ImportJob) → IsSafe last jobs last (mark_running id jobs)
unfolding mark_running
mark_running-IsSafe last id jobs =
    update-IsSafe last (pending_job id) (set_status running) jobs (λ job. refl)
      (λ job k a. ground (arith, waits-active_status job.status))

write_terminal-IsSafe :
    (last id : ℕ) (status : JobStatus) (jobs : List ImportJob)
    → is_terminal status ≡ true
    → IsSafe last jobs last (write_terminal id status jobs)
unfolding write_terminal
write_terminal-IsSafe last id status jobs h =
    update-IsSafe last (of_job id) (set_status status) jobs (λ job. refl)
      (λ job k a. ground (arith, is_terminal-active_status status h))

reap-IsSafe :
    (last : ℕ) (ids : List ℕ) (jobs : List ImportJob) → IsSafe last jobs last (reap ids jobs)
reap-IsSafe last [] jobs = (λ h. h, λ id h. h)
reap-IsSafe last (id ∷ ids) jobs =
    update-IsSafe last (is_reaped (id ∷ ids)) (set_status failed_job) jobs (λ job. refl)
      (λ job k a. ground arith)

Follows-IsSafe :
    (first last : ℕ) (jobs new : List ImportJob)
    → Follows first jobs last new
    → IsSafe first jobs last new
unfolding reconcile_orphaned_jobs
Follows-IsSafe _ _ _ _ (at_start first start) = (λ h. h, λ id h. h)
Follows-IsSafe _ _ _ _
      (then_created first last later start jobs between new kind_valid account account_id id host
        pid f g fresh e) =
    IsSafe-trans first last id start jobs new (Follows-IsSafe first last start jobs f) (
      IsSafe-trans last later id jobs between new (Follows-IsSafe last later jobs between g) (
        create_job-creates later kind_valid account account_id id host pid jobs between new fresh
          e))
Follows-IsSafe _ _ _ _ (then_cancelled first last start jobs new id f e) =
    IsSafe-trans first last last start jobs new (Follows-IsSafe first last start jobs f)
      (cancel_job-IsSafe last id jobs new e)
Follows-IsSafe _ _ _ new (then_claimed first last start jobs id f) =
    IsSafe-trans first last last start jobs new (Follows-IsSafe first last start jobs f)
      (mark_running-IsSafe last id jobs)
Follows-IsSafe _ _ _ new (then_ended first last start jobs id status f h) =
    IsSafe-trans first last last start jobs new (Follows-IsSafe first last start jobs f)
      (write_terminal-IsSafe last id status jobs h)
Follows-IsSafe _ _ _ new (then_reaped first last later start jobs between host pid_alive f g) =
    IsSafe-trans first last later start jobs new (Follows-IsSafe first last start jobs f) (
      IsSafe-trans last later later jobs between new (Follows-IsSafe last later jobs between g)
        (reap-IsSafe later (reap_ids host pid_alive jobs) between))
Follows-IsSafe _ _ _ new (then_deleted first last start jobs account_id f) =
    IsSafe-trans first last last start jobs new (Follows-IsSafe first last start jobs f)
      (delete_account-IsSafe last account_id jobs)

-- However the sessions of the program interleave their statements on the jobs and delete accounts,
-- from a table with one active job at most it is left with one active job at most, and a job that is
-- done is never pending or running again, whether its row stays or goes with its account. The ids
-- of jobs are handed out in ascending order.
pub Follows-IsDone :
    (first last : ℕ) (jobs new : List ImportJob)
    → Follows first jobs last new
    → count is_active jobs ≤ 1
    → (id : ℕ) → IsDone id first jobs
    → (count is_active new ≤ 1) × IsDone id last new
Follows-IsDone first last jobs new f one id done =
    let (guarded, kept) = Follows-IsSafe first last jobs new f in (guarded one, kept id done)
