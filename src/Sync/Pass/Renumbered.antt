-- ===== src/Sync/Pass/Renumbered.antt =====
-- What a pass does with the old watermark after the server has renumbered a mailbox.
use localmail.Common.{
  str_eq, Bool-cases, ℕ, ◌+◌, ◌≤◌, ◌≡◌, inl, inr, Bool, false, none, some, List, [], ◌∷◌, arith,
  ◌==◌, ◌-◌, ◌<◌, refl, sym, ◌∙◌, ◌≢◌, Option, ap,
}
use localmail.Sync.Pass.{
  Pass, Env, finish, recover, step, run_batch, Db, checkpoint, sync_batches, poison, is_held,
  store_or_poison, update_mailbox_progress, checkpoint_uidnext, resume_of, or_one, Mailbox,
  sync_mailbox, sync_uids, at_most, batches, candidates, batch_size, start, at_mailbox,
  is_full_sync, clear_renumbered,
}
use localmail.Sync.Store.{Db, Mailbox}
use localmail.Sync.Messages.{
  Returns, Result, Returns-bind, Returns-mono, ok, raise, record_failed_message, any_value,
  contention, other,
}
use localmail.Sync.Pass.Complete.{watermark, commit_or_abort-keeps, uidnext-update, uidnext_of}
use localmail.Sync.Uids.{checkpoint_uidnext}
use localmail.Sync.Order.{batches}
use localmail.Common.Table.{find, exists}
use localmail.Sync.Pass.Whole.{renumbered-mailboxes, candidates-Ascending}
use localmail.Sync.Order.Laws.{All-entry}

-- The resume point of the pass is not below `n`.
record IsAbove (n : ℕ) (p : Pass) : Type 0 where
  high : n ≤ p.highest_seen + 1
  unheld : p.hold_at ≡ none

module _ (env : Env) (m n : ℕ) (full : (v : ℕ) → str_eq (env.body v) "" ≡ false) where
  finish-IsAbove :
      (p : Pass) (v : ℕ) (r : Result (Db × Bool))
      → IsAbove n p
      → Returns (IsAbove n) (finish env m p v r)
  unfolding finish poison
  finish-IsAbove p v (ok r) h = record { high = omega (arith, h.high); unheld = h.unheld }
  finish-IsAbove p v (raise contention) h = tt
  finish-IsAbove p v (raise other) h =
      Returns-bind (λ db. Unit {0}) (IsAbove n)
        (record_failed_message (env.log_fault v) p.db env.account_id m v (env.body v)) _
        (any_value _) λ db k. record { high = omega (arith, h.high); unheld = h.unheld }

  recover-IsAbove : (p : Pass) (v : ℕ) → IsAbove n p → IsAbove n (recover m p v)
  unfolding recover
  recover-IsAbove p v h = elim (Bool-cases (is_held p v)) [
    | inl held ↦ rw held (record { high = h.high; unheld = h.unheld })
    | inr fresh ↦ rw fresh h
  ]

  step-IsAbove : (p : Pass) (v : ℕ) → IsAbove n p → Returns (IsAbove n) (step env m p v)
  unfolding step store_or_poison
  step-IsAbove p v h = rw (full v) (finish-IsAbove (recover m p v) v _ (recover-IsAbove p v h))

  run_batch-IsAbove :
      (chunk : List ℕ) (p : Pass) → IsAbove n p → Returns (IsAbove n) (run_batch env m chunk p)
  unfolding run_batch
  run_batch-IsAbove [] p h = h
  run_batch-IsAbove (v ∷ chunk) p h =
      Returns-bind (IsAbove n) (IsAbove n) (step env m p v) (run_batch env m chunk)
        (step-IsAbove p v h) (λ p' k. run_batch-IsAbove chunk p' k)

  checkpoint-IsAbove : (p : Pass) → IsAbove n p → IsAbove n (checkpoint env m p)
  unfolding checkpoint
  checkpoint-IsAbove p h = record { high = h.high; unheld = h.unheld }

  -- The stored watermark is not below `n`.
  abbrev High : Db → Type 0
  High db = (w : ℕ) → watermark db m ≡ some w → n ≤ w

  checkpoint-High : (p : Pass) → IsAbove n p → High (checkpoint env m p).db
  unfolding checkpoint update_mailbox_progress checkpoint_uidnext
  checkpoint-High p h w e =
      let stored =
        uidnext-update p.db.mailboxes m env.uidvalidity (resume_of p) env.synced_at w e in
      ground (arith, h.high, h.unheld, stored)

  sync_batches-High :
      (chunks : List (List ℕ)) (p : Pass)
      → IsAbove n p
      → High p.db
      → High (sync_batches env m chunks p).0
  unfolding sync_batches
  sync_batches-High [] p h k = k
  sync_batches-High (chunk ∷ chunks) p h k =
      commit_or_abort-keeps High p.db k _ (run_batch env m chunk p) (
        Returns-mono (run_batch env m chunk p) (run_batch-IsAbove chunk p h) λ p' a.
          sync_batches-High chunks (checkpoint env m p') (checkpoint-IsAbove p' a)
            (checkpoint-High p' a))

abbrev stored_or_zero : Option ℕ → ℕ
stored_or_zero none = 0
stored_or_zero (some n) = n

start_high : (o : Option ℕ) → stored_or_zero o ≤ or_one o - 1 + 1
start_high none = omega arith
start_high (some n) = ground arith

stored_le : (o : Option ℕ) (w : ℕ) → o ≡ some w → stored_or_zero o ≤ w
stored_le none w e = cc
stored_le (some n) w e = ground arith

passed :
    (before after : Option ℕ) (n w u : ℕ)
    → before ≡ some n
    → after ≡ some w
    → stored_or_zero before ≤ w
    → or_one after ≤ u
    → u < n
    → ⊥
passed none after n w u e k high new less = cc
passed (some x) none n w u e k high new less = cc
passed (some x) (some y) n w u e k high new less = ground arith

module _ (env : Env) (mailbox : Mailbox) (full : (v : ℕ) → str_eq (env.body v) "" ≡ false) where
  sync_uids-High :
      (db : Db) (uids : List ℕ) (w : ℕ)
      → watermark db mailbox.id ≡ mailbox.uidnext
      → uids ≢ []
      → watermark (sync_uids env mailbox db uids).0 mailbox.id ≡ some w
      → stored_or_zero mailbox.uidnext ≤ w
  unfolding sync_uids
  sync_uids-High db [] w known some_uid e = absurd (some_uid refl)
  sync_uids-High db (u ∷ uids) w known some_uid e =
      sync_batches-High env mailbox.id (stored_or_zero mailbox.uidnext) full
        (batches (u ∷ uids) batch_size) (start mailbox db)
        (record { high = start_high mailbox.uidnext; unheld = refl })
        (λ x k. stored_le mailbox.uidnext x (sym known ∙ k)) w e

-- After a pass that met no empty body, a later pass under the UIDVALIDITY that is stored then asks
-- for no UID below the watermark of before, also where the server has renumbered the mailbox in
-- between, so that the UIDs below that watermark name other messages than they did. The row of the
-- mailbox is as it was read, with a watermark, and the pass has a UID to fetch.
pub old_watermark_skips :
    (env env' : Env) (mailbox row : Mailbox) (limit : Option ℕ) (db : Db) (n w u : ℕ)
    → ((v : ℕ) → str_eq (env.body v) "" ≡ false)
    → watermark db mailbox.id ≡ mailbox.uidnext
    → mailbox.uidnext ≡ some n
    → at_most limit (candidates env mailbox) ≢ []
    → find (at_mailbox mailbox.id) (sync_mailbox env mailbox limit db).0.mailboxes ≡ some row
    → row.uidnext ≡ some w
    → is_full_sync env' row ≡ false
    → u < n
    → exists (λ v. v == u) (candidates env' row) ≡ false
unfolding sync_mailbox
old_watermark_skips env env' mailbox row limit db n w u full known old some_uid found stored same
      less =
    elim (Bool-cases (exists (λ v. v == u) (candidates env' row))) [
      | inr absent ↦ absent
      | inl here ↦
          let db' = clear_renumbered env mailbox db in
          let known' : watermark db' mailbox.id ≡ mailbox.uidnext =
            ap (λ rows. uidnext_of (find (at_mailbox mailbox.id) rows))
              (renumbered-mailboxes env mailbox db)
            ∙ known in
          let high =
            sync_uids-High env mailbox full db' (at_most limit (candidates env mailbox)) w known'
              some_uid (ap uidnext_of found ∙ stored) in
          let new =
            All-entry (λ v. or_one row.uidnext ≤ v) u (candidates env' row)
              (candidates-Ascending env' row same).1 here in
          absurd (passed mailbox.uidnext row.uidnext n w u old stored high new less)
    ]
