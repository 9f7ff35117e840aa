-- ===== src/Sync/Pass/Complete.antt =====
-- No message is passed over: whatever lies below the committed watermark is accounted for.
use mathlib.Core.Path.{subst}
use localmail.Common.{
  Bool-cases, ==_iff, ◌==◌, ℕ, ◌<◌, ◌≡◌, refl, sym, ◌∙◌, ◌⊎◌, inl, inr, false, none, List, [], ◌∷◌,
  ◌++◌, arith, ◌+◌, ◌≤◌, Option, some,
}
use localmail.Sync.Pass.{
  Env, Pass, run_batch, checkpoint_uidnext, resume_of, step, Db, checkpoint, sync_batches,
  update_mailbox_progress, at_mailbox, reclaim_below, set_progress, commit_or_abort, Mailbox,
}
use localmail.Sync.Pass.Accounted.{
  IsRecorded, AccountedIn, Stepped, Accounted, stored, Accounted-mailboxes, failed, given_up,
  Accounted-act, expunged, waiting,
}
use localmail.Sync.Uids.{checkpoint_uidnext}
use localmail.Sync.Messages.{Returns, Returns-bind, Returns-mono, Result, ok, raise}
use localmail.Sync.Pass.Steps.{step-Stepped}
use localmail.Sync.Store.{Db, Mailbox}
use localmail.Common.Table.{find, update}
use localmail.Sync.Holds.Life.{act, reclaim}
use localmail.Sync.Order.Laws.{concat}
use localmail.Sync.Holds.{reclaim_below}

-- The pass meets `u` before any larger UID, or ends first.
abbrev pub Before : ℕ → List ℕ → Type 0
Before u [] = Unit
Before u (v ∷ rest) = (v ≡ u) ⊎ ((v < u) × Before u rest)

abbrev pub uidnext_of : Option Mailbox → Option ℕ
uidnext_of none = none
uidnext_of (some row) = row.uidnext

-- The committed resume point of a mailbox.
abbrev pub watermark : Db → ℕ → Option ℕ
watermark db m = uidnext_of (find (at_mailbox m) db.mailboxes)

pub uidnext-update :
    (rows : List Mailbox) (m v w t x : ℕ)
    → uidnext_of (find (at_mailbox m) (update (at_mailbox m) (set_progress v w t) rows)) ≡ some x
    → x ≡ w
unfolding find update
uidnext-update [] m v w t x h = cc
uidnext-update (r ∷ rows) m v w t x h = ground (arith, uidnext-update rows m v w t x)

-- A candidate is accounted for, or above the watermark and still to come.
pub data Tracked (env : Env) (m : ℕ) (p : Pass) (rest : List ℕ) (u : ℕ) : Type 0 where
  done : AccountedIn env m p u → Tracked env m p rest u
  pending : p.highest_seen < u → Before u rest → Tracked env m p rest u

Before-tail :
    (u v : ℕ) (rest : List ℕ) → (u == v) ≡ false → Before u (v ∷ rest) → (v < u) × Before u rest
Before-tail u v rest ne (inl e) = absurd (ground arith)
Before-tail u v rest ne (inr k) = k

Tracked-step :
    (env : Env) (m : ℕ) (p p' : Pass) (v : ℕ) (rest : List ℕ) (u : ℕ)
    → Stepped env m p v p'
    → Tracked env m p (v ∷ rest) u
    → Tracked env m p' rest u
Tracked-step env m p p' v rest u s t = elim (Bool-cases (u == v)) [
  | inl same ↦
      done (subst (λ x. AccountedIn env m p' x) (sym ((==_iff u v).0 same)) s.now_accounted)
  | inr other ↦ other_step t other
]
  where
    other_step : Tracked env m p (v ∷ rest) u → (u == v) ≡ false → Tracked env m p' rest u
    other_step (done a) other = done (s.still_accounted u other a)
    other_step (pending above before) other =
        let (less, later) = Before-tail u v rest other before in
        pending (omega (arith, s.below)) later

-- What holds of the state before a batch, and of any state after it, holds of the outcome.
pub commit_or_abort-keeps :
    (P : Db → Type 0) (db : Db)
    → P db
    → (go_on : Pass → Db × Result ℕ) (r : Result Pass) → Returns (λ p. P (go_on p).0) r
    → P (commit_or_abort db go_on r).0
commit_or_abort-keeps P db h go_on (ok p) k = k
commit_or_abort-keeps P db h go_on (raise e) k = h

-- If `u` lies below the committed watermark, it is accounted for in what is committed.
abbrev pub IsSafe : Env → ℕ → ℕ → Db → Type 0
IsSafe env m u db = (w : ℕ) → watermark db m ≡ some w → u < w → Accounted env m db none u

module _ (env : Env) (m : ℕ) (recorded : IsRecorded env) (u : ℕ) where
  Tracked-run_batch :
      (chunk later : List ℕ) (p : Pass)
      → Tracked env m p (chunk ++ later) u
      → Returns
          (λ p'. Tracked env m p' later u × (p'.db.mailboxes ≡ p.db.mailboxes))
          (run_batch env m chunk p)
  unfolding run_batch
  Tracked-run_batch [] later p t = (t, refl)
  Tracked-run_batch (v ∷ chunk) later p t =
      Returns-bind (Stepped env m p v) _ (step env m p v) (run_batch env m chunk)
        (step-Stepped env m recorded p v)
        λ p' s.
          Returns-mono (run_batch env m chunk p')
            (Tracked-run_batch chunk later p' (Tracked-step env m p p' v (chunk ++ later) u s t))
            (λ q h. (h.0, h.1 ∙ s.mailboxes))

  not_waiting :
      (db : Db) (hold_at : Option ℕ)
      → ((h : ℕ) → hold_at ≡ some h → u < h)
      → Accounted env m db hold_at u
      → Accounted env m db none u
  not_waiting db hold_at k (stored e) = stored e
  not_waiting db hold_at k (failed e) = failed e
  not_waiting db hold_at k (given_up t e) = given_up t e
  not_waiting db hold_at k (expunged e) = expunged e
  not_waiting db hold_at k (waiting h e le) = absurd (omega (arith, k h e))

  resume-le-hold :
      (highest : ℕ) (hold_at : Option ℕ) (h : ℕ)
      → u < checkpoint_uidnext highest hold_at
      → hold_at ≡ some h
      → u < h
  unfolding checkpoint_uidnext
  resume-le-hold highest none h less e = cc
  resume-le-hold highest (some x) h less e = ground arith

  resume-le-next :
      (highest : ℕ) (hold_at : Option ℕ) → checkpoint_uidnext highest hold_at ≤ highest + 1
  unfolding checkpoint_uidnext
  resume-le-next highest none = omega arith
  resume-le-next highest (some x) = omega arith

  below-resume :
      (p : Pass) (rest : List ℕ)
      → Tracked env m p rest u
      → u < resume_of p
      → Accounted env m p.db none u
  below-resume p rest (done a) less =
      not_waiting p.db p.hold_at (λ h e. resume-le-hold p.highest_seen p.hold_at h less e) a
  below-resume p rest (pending above before) less =
      absurd (omega (arith, resume-le-next p.highest_seen p.hold_at))

  checkpoint-Accounted :
      (p : Pass) (hold_at : Option ℕ)
      → Accounted env m p.db hold_at u
      → Accounted env m (checkpoint env m p).db hold_at u
  unfolding checkpoint act
  checkpoint-Accounted p hold_at a =
      Accounted-mailboxes env m (record p.db { holds = reclaim_below p.db.holds m (resume_of p) })
        hold_at u _ (Accounted-act env m p.db hold_at u (reclaim m (resume_of p)) refl a)

  checkpoint-Tracked :
      (p : Pass) (rest : List ℕ)
      → Tracked env m p rest u
      → Tracked env m (checkpoint env m p) rest u
  unfolding checkpoint
  checkpoint-Tracked p rest (done a) = done (checkpoint-Accounted p p.hold_at a)
  checkpoint-Tracked p rest (pending above before) = pending above before

  -- The watermark that is committed is the resume point.
  watermark-checkpoint :
      (p : Pass) (w : ℕ) → watermark (checkpoint env m p).db m ≡ some w → w ≡ resume_of p
  unfolding checkpoint update_mailbox_progress
  watermark-checkpoint p w h =
      uidnext-update p.db.mailboxes m env.uidvalidity (resume_of p) env.synced_at w h

  checkpoint-IsSafe :
      (p : Pass) (rest : List ℕ) → Tracked env m p rest u → IsSafe env m u (checkpoint env m p).db
  checkpoint-IsSafe p rest t w e less =
      checkpoint-Accounted p none
        (below-resume p rest t (omega (arith, watermark-checkpoint p w e)))

  pub sync_batches-IsSafe :
      (chunks : List (List ℕ)) (p : Pass)
      → Tracked env m p (concat chunks) u
      → IsSafe env m u p.db
      → IsSafe env m u (sync_batches env m chunks p).0
  unfolding sync_batches concat
  sync_batches-IsSafe [] p t safe = safe
  sync_batches-IsSafe (chunk ∷ chunks) p t safe =
      commit_or_abort-keeps (IsSafe env m u) p.db safe _ (run_batch env m chunk p) (
        Returns-mono (run_batch env m chunk p) (Tracked-run_batch chunk (concat chunks) p t) λ p' k.
          sync_batches-IsSafe chunks (checkpoint env m p')
            (checkpoint-Tracked p' (concat chunks) k.0) (checkpoint-IsSafe p' (concat chunks) k.0))
