-- ===== src/Sync/Retry.antt =====
-- `retry_failed_messages` of src/localmail/sync.py. The rows of failed_messages stand in the order of
-- their ids.
use localmail.Common.{
  ℕ, is_some, ◌==◌, if◌then◌else◌, ◌+◌, String, ◌≡◌, Bool, true, false, ◌&&◌, Option, none, some,
  List, [], ◌∷◌, ap, refl, ◌∙◌, suc, ◌⊎◌,
}
use localmail.Sync.Messages.Grows.{Grows}
use localmail.Sync.Store.{Db, FailedMessage, Parsed}
use localmail.Sync.Messages.{
  ◌>>=◌, World, Fault, Result, ok, raise, contention, other, process_one_message,
  record_failed_message, Returns, has_failed, Returns-bind,
}
use localmail.Sync.Uids.{should_reallocate_uid, next_uid_after, max_label_uid}
use localmail.Common.Table.{delete, select, exists}
use localmail.Sync.Messages.Dedup.{
  is_archived, Archived, archived_keeps, process_one_message-Archived, Recorded,
  record_failed_message-Recorded,
}
use localmail.Common.Table.Laws.{find-delete-none}

-- The accounts by id with their auth_method, and what Postgres and the parser do on each row.
pub record RetryEnv : Type 0 where
  pub auth_method : ℕ → Option String
  pub world : ℕ → World
  pub log_fault : ℕ → Option Fault

abbrev pub in_scope : RetryEnv → Option ℕ → FailedMessage → Bool
in_scope env none f = is_some (env.auth_method f.account_id)
in_scope env (some account_id) f =
    is_some (env.auth_method f.account_id) && f.account_id == account_id

abbrev pub attempt_uid : RetryEnv → Db → FailedMessage → ℕ
attempt_uid env db f = elim (env.auth_method f.account_id) [
  | none ↦ f.uid
  | some method ↦
      if should_reallocate_uid method
      then next_uid_after (some (max_label_uid db.labels f.mailbox_id))
      else f.uid
]

abbrev pub has_row_id : ℕ → FailedMessage → Bool
has_row_id id f = f.id == id

-- The new state, and whether the message was recovered.
unfoldable pub settle_retry :
    RetryEnv → Db → FailedMessage → Result (Db × Bool) → Result (Db × Bool)
settle_retry env db f (ok (db', inserted)) =
    ok (record db' { failed = delete (has_row_id f.id) db'.failed }, true)
settle_retry env db f (raise contention) = raise contention
settle_retry env db f (raise other) = do
  db' ← record_failed_message (env.log_fault f.id) db f.account_id f.mailbox_id f.uid f.raw_bytes
  ok (db', false)

unfoldable pub retry_row : RetryEnv → Db → FailedMessage → Result (Db × Bool)
retry_row env db f = settle_retry env db f (
    process_one_message (env.world f.id) db f.account_id f.mailbox_id (attempt_uid env db f)
      f.raw_bytes [] none)

-- `go_on` is the rest of the loop, from a state and the counts of the recovered and of those that
-- still fail. What comes before a row that raises is committed.
abbrev pub count_row :
    (Db → ℕ → ℕ → Db × Result (ℕ × ℕ)) → Db → ℕ → ℕ → Result (Db × Bool) → Db × Result (ℕ × ℕ)
count_row go_on db succeeded still_failing (ok (db', true)) =
    go_on db' (succeeded + 1) still_failing
count_row go_on db succeeded still_failing (ok (db', false)) =
    go_on db' succeeded (still_failing + 1)
count_row go_on db succeeded still_failing (raise e) = (db, raise e)

unfoldable pub retry_rows : RetryEnv → List FailedMessage → Db → ℕ → ℕ → Db × Result (ℕ × ℕ)
retry_rows env [] db succeeded still_failing = (db, ok (succeeded, still_failing))
retry_rows env (f ∷ rows) db succeeded still_failing =
    count_row (retry_rows env rows) db succeeded still_failing (retry_row env db f)

unfoldable pub retry_failed_messages : RetryEnv → Option ℕ → Db → Db × Result (ℕ × ℕ)
retry_failed_messages env account_id db =
    retry_rows env (select (in_scope env account_id) db.failed) db 0 0

-- What is in the archive stays there.
abbrev pub KeepsArchive : Db → Db → Type 0
KeepsArchive db db' =
    (parsed : Option Parsed) (a m : ℕ)
    → is_archived parsed db a m ≡ true
    → is_archived parsed db' a m ≡ true

-- What a retry that does not abort makes of a row: its message is in the archive, in its mailbox,
-- and the row is gone; or the row is still there. Nothing leaves the archive.
abbrev pub Settled : RetryEnv → Db → FailedMessage → Db × Bool → Type 0
Settled env db f (db', true) =
    (is_archived ((env.world f.id).parse f.raw_bytes) db' f.account_id f.mailbox_id ≡ true)
    × (exists (has_row_id f.id) db'.failed ≡ false)
    × KeepsArchive db db'
Settled env db f (db', false) =
    (exists (has_failed f.account_id f.mailbox_id f.uid) db'.failed ≡ true) × KeepsArchive db db'

Grows-KeepsArchive : (db db' : Db) → Grows db db' → KeepsArchive db db'
Grows-KeepsArchive db db' g parsed a m h = archived_keeps db db' a m parsed g h

without_failed :
    (parsed : Option Parsed) (db : Db) (rows : List FailedMessage) (a m : ℕ)
    → is_archived parsed (record db { failed = rows }) a m ≡ is_archived parsed db a m
without_failed none db rows a m = refl
without_failed (some parsed) db rows a m = refl

settle_retry-Settled :
    (env : RetryEnv) (db : Db) (f : FailedMessage) (r : Result (Db × Bool))
    → env.log_fault f.id ≡ none
    → Returns (Archived db ((env.world f.id).parse f.raw_bytes) f.account_id f.mailbox_id) r
    → Returns (Settled env db f) (settle_retry env db f r)
unfolding settle_retry
settle_retry-Settled env db f (ok (db', inserted)) logged h = (
  without_failed ((env.world f.id).parse f.raw_bytes) db' (delete (has_row_id f.id) db'.failed)
        f.account_id f.mailbox_id
      ∙ h.1,
  ap is_some (find-delete-none (has_row_id f.id) (has_row_id f.id) db'.failed (λ r k. k)),
  λ parsed a m e.
      without_failed parsed db' (delete (has_row_id f.id) db'.failed) a m
      ∙ archived_keeps db db' a m parsed h.0 e,
)
settle_retry-Settled env db f (raise contention) logged h = tt
settle_retry-Settled env db f (raise other) logged h = rw logged (
    Returns-bind (Recorded db f.account_id f.mailbox_id f.uid) (Settled env db f)
      (record_failed_message none db f.account_id f.mailbox_id f.uid f.raw_bytes) _
      (record_failed_message-Recorded db f.account_id f.mailbox_id f.uid f.raw_bytes)
      (λ db' k. (k.1, Grows-KeepsArchive db db' k.0)))

-- The retry of one row ends in one of two ways, unless contention aborts it: the message is in the
-- archive with a label in its mailbox, and the row is gone; or the row is still there. Either way
-- every archived message stays. The record of a failure is written without a fault.
pub retry_row-Settled :
    (env : RetryEnv) (db : Db) (f : FailedMessage)
    → env.log_fault f.id ≡ none
    → Returns (Settled env db f) (retry_row env db f)
unfolding retry_row
retry_row-Settled env db f logged = settle_retry-Settled env db f _ logged (
    process_one_message-Archived (env.world f.id) db f.account_id f.mailbox_id
      (attempt_uid env db f) f.raw_bytes [] none)

-- A run over `rows` from `db` to `db'`, which settles them one after the other: `s` of them are
-- recovered and `k` still fail.
abbrev pub Ran : RetryEnv → List FailedMessage → Db → Db → ℕ → ℕ → Type 0
Ran env [] db db' s k = (db' ≡ db) × (s ≡ 0) × (k ≡ 0)
Ran env (f ∷ rows) db db' s k =
    (between : Db) × (((rest : ℕ) × (s ≡ suc rest)
        × Settled env db f (between, true)
        × Ran env rows between db' rest k)
      ⊎ ((rest : ℕ) × (k ≡ suc rest)
          × Settled env db f (between, false)
          × Ran env rows between db' s rest))

-- What the loop promises from a state and the counts before it.
abbrev Counts : RetryEnv → List FailedMessage → Db → ℕ → ℕ → Db × Result (ℕ × ℕ) → Type 0
Counts env rows db s k out =
    Returns
      (λ c. (s' : ℕ) × (k' : ℕ) × (c.0 ≡ s + s') × (c.1 ≡ k + k') × Ran env rows db out.0 s' k')
      out.1
    × KeepsArchive db out.0
