-- ===== src/Sync/Pass/Accounted.antt =====
-- What becomes of a UID that a pass has taken up, and that no later step undoes it.
use localmail.Common.{
  ◌==◌, ℕ, ◌≤◌, max, ◌≡◌, refl, Bool, true, false, Option, none, some, arith, ◌∙◌, List,
}
use localmail.Sync.Pass.{Env, Db, Pass, exists, lower_hold, uid_still_on_server, Mailbox}
use localmail.Sync.Store.{Db, Parsed, Mailbox, Hold}
use localmail.Sync.Messages.Dedup.{is_archived, archived_keeps}
use localmail.Sync.Messages.Grows.{Grows}
use localmail.Common.Table.{exists}
use localmail.Sync.Holds.Life.{Act, forgets, gave_up_moment, act, tombstone_act}
use localmail.Sync.Messages.{has_failed}
use localmail.Sync.Holds.Keys.{find_hold}

-- No bookkeeping statement of this pass raises.
pub record IsRecorded (env : Env) : Type 0 where
  pub record_ok : (u : ℕ) → env.record_fault u ≡ false
  pub mark_ok : (u : ℕ) → env.mark_fault u ≡ false
  pub log_ok : (u : ℕ) → env.log_fault u ≡ none

abbrev pub stored_at : Env → Db → ℕ → ℕ → Bool
stored_at env db m u = is_archived (env.world.parse (env.body u)) db env.account_id m

-- Where a UID is accounted for: its message is in the archive; its bytes are in failed_messages; it
-- has a tombstone; the server says that it is gone; or the resume point is held at or below it.
pub data Accounted (env : Env) (m : ℕ) (db : Db) (hold_at : Option ℕ) (u : ℕ) : Type 0 where
  stored : stored_at env db m u ≡ true → Accounted env m db hold_at u
  failed : exists (has_failed env.account_id m u) db.failed ≡ true → Accounted env m db hold_at u
  given_up :
      (t : ℕ) → gave_up_moment (find_hold db.holds m u) ≡ some t → Accounted env m db hold_at u
  expunged : uid_still_on_server env u ≡ false → Accounted env m db hold_at u
  waiting : (h : ℕ) → hold_at ≡ some h → h ≤ u → Accounted env m db hold_at u

abbrev pub AccountedIn : Env → ℕ → Pass → ℕ → Type 0
AccountedIn env m p u = Accounted env m p.db p.hold_at u

-- What a step on `v` promises of the variables: the watermark rises to `v` at most, and `v` itself
-- is accounted for, as is every other UID that was.
pub record Stepped (env : Env) (m : ℕ) (p : Pass) (v : ℕ) (p' : Pass) : Type 0 where
  pub rises : p.highest_seen ≤ p'.highest_seen
  pub below : p'.highest_seen ≤ max p.highest_seen v
  pub now_accounted : AccountedIn env m p' v
  pub still_accounted : (u : ℕ) → (u == v) ≡ false → AccountedIn env m p u → AccountedIn env m p' u
  pub mailboxes : p'.db.mailboxes ≡ p.db.mailboxes

stored_keeps :
    (env : Env) (m u : ℕ) (db db' : Db)
    → Grows db db'
    → stored_at env db m u ≡ true
    → stored_at env db' m u ≡ true
stored_keeps env m u db db' g h =
    archived_keeps db db' env.account_id m (env.world.parse (env.body u)) g h

-- A step that only grows the tables of messages keeps every account.
pub Accounted-Grows :
    (env : Env) (m : ℕ) (db db' : Db) (hold_at : Option ℕ) (u : ℕ)
    → Grows db db'
    → Accounted env m db hold_at u
    → Accounted env m db' hold_at u
Accounted-Grows env m db db' hold_at u g (stored e) = stored (stored_keeps env m u db db' g e)
Accounted-Grows env m db db' hold_at u g (failed e) = failed (g.failed env.account_id m u e)
Accounted-Grows env m db db' hold_at u g (given_up t e) = given_up t (rw (g.holds) e)
Accounted-Grows env m db db' hold_at u g (expunged e) = expunged e
Accounted-Grows env m db db' hold_at u g (waiting h e k) = waiting h e k

archived_holds :
    (parsed : Option Parsed) (db : Db) (a m : ℕ) (holds : List Hold)
    → is_archived parsed (record db { holds = holds }) a m ≡ is_archived parsed db a m
archived_holds none db a m holds = refl
archived_holds (some parsed) db a m holds = refl

pub archived_mailboxes :
    (parsed : Option Parsed) (db : Db) (a m : ℕ) (rows : List Mailbox)
    → is_archived parsed (record db { mailboxes = rows }) a m ≡ is_archived parsed db a m
archived_mailboxes none db a m rows = refl
archived_mailboxes (some parsed) db a m rows = refl

-- The acts on the rows of holds keep every account but that of a recovered UID.
pub Accounted-act :
    (env : Env) (m : ℕ) (db : Db) (hold_at : Option ℕ) (u : ℕ) (a : Act)
    → forgets m u a ≡ false
    → Accounted env m db hold_at u
    → Accounted env m (record db { holds = act a db.holds }) hold_at u
Accounted-act env m db hold_at u a h (stored e) =
    stored (archived_holds (env.world.parse (env.body u)) db env.account_id m (act a db.holds) ∙ e)
Accounted-act env m db hold_at u a h (failed e) = failed e
Accounted-act env m db hold_at u a h (given_up t e) =
    given_up t (tombstone_act a db.holds m u t h e)
Accounted-act env m db hold_at u a h (expunged e) = expunged e
Accounted-act env m db hold_at u a h (waiting x e k) = waiting x e k

-- A held UID may lower the resume point further.
pub Accounted-lower :
    (env : Env) (m : ℕ) (db : Db) (hold_at : Option ℕ) (u v : ℕ)
    → Accounted env m db hold_at u
    → Accounted env m db (some (lower_hold hold_at v)) u
Accounted-lower env m db hold_at u v (stored e) = stored e
Accounted-lower env m db hold_at u v (failed e) = failed e
Accounted-lower env m db hold_at u v (given_up t e) = given_up t e
Accounted-lower env m db hold_at u v (expunged e) = expunged e
Accounted-lower env m db hold_at u v (waiting h e k) =
    waiting (lower_hold hold_at v) refl (rw e (omega arith))

pub Accounted-mailboxes :
    (env : Env) (m : ℕ) (db : Db) (hold_at : Option ℕ) (u : ℕ) (rows : List Mailbox)
    → Accounted env m db hold_at u
    → Accounted env m (record db { mailboxes = rows }) hold_at u
Accounted-mailboxes env m db hold_at u rows (stored e) =
    stored (archived_mailboxes (env.world.parse (env.body u)) db env.account_id m rows ∙ e)
Accounted-mailboxes env m db hold_at u rows (failed e) = failed e
Accounted-mailboxes env m db hold_at u rows (given_up t e) = given_up t e
Accounted-mailboxes env m db hold_at u rows (expunged e) = expunged e
Accounted-mailboxes env m db hold_at u rows (waiting h e k) = waiting h e k
