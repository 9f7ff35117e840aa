-- ===== src/Sync/Env.antt =====
-- The environment and the local variables of `sync_mailbox` of src/localmail/sync.py.
use localmail.Common.{ℕ, String, Bool, Option, List}
use localmail.Common.Int.{ℤ}
use localmail.Sync.Store.{Db}
use localmail.Sync.Messages.{World, Fault}

-- What the server and Postgres answer in this pass. `body` is BODY[], empty where the FETCH has
-- none; `present` is the answer of the existence probe, `none` where it raises. The moments are
-- those of the server clock: `now` is `db_now`, `stamp` the `now()` of a statement on a UID.
pub record Env : Type 0 where
  pub account_id : ℕ
  pub uidvalidity : ℕ
  pub server_uidnext : ℕ
  pub all_uids : List ℕ
  pub search_from : ℕ → List ℕ
  pub body : ℕ → String
  pub flags : ℕ → List String
  pub internal_date : ℕ → Option ℕ
  pub present : ℕ → Option Bool
  pub world : World
  pub record_fault : ℕ → Bool
  pub mark_fault : ℕ → Bool
  pub log_fault : ℕ → Option Fault
  pub now : ℕ
  pub stamp : ℕ → ℕ
  pub synced_at : ℕ
  pub max_hold : ℤ

-- The local variables of the loop. Of the dict `held_attempts` only the keys are read.
pub record Pass : Type 0 where
  pub db : Db
  pub inserted : ℕ
  pub skipped : ℕ
  pub seen : ℕ
  pub highest_seen : ℕ
  pub hold_at : Option ℕ
  pub emptying : Bool
  pub held : List ℕ
