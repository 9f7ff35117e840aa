-- ===== src/Sync/Pass/Whole.antt =====
-- The pass over a whole mailbox, from the watermark that is stored.
use mathlib.Core.Path.{subst}
use localmail.Common.{
  Bool-cases, ==_iff, ltb, ◌==◌, ℕ, zero, suc, ◌≤◌, ◌<◌, ◌≡◌, refl, sym, ◌≢◌, inl, inr, true, false,
  Option, none, some, List, [], ◌∷◌, arith, ap, ◌∙◌, is_some, ◌&&◌,
}
use localmail.Common.Table.{find, exists}
use localmail.Sync.Order.Laws.{Ascending, All-entry, concat-batches, filter_new_uids-Ascending}
use localmail.Sync.Pass.{
  Env, or_one, take, sync_mailbox, at_most, Mailbox, Db, sync_uids, is_full_sync, candidates,
  batches, clear_renumbered, batch_size, start, at_mailbox,
}
use localmail.Common.Lists.{take, length, All}
use localmail.Sync.Pass.Accounted.{IsRecorded, Accounted}
use localmail.Sync.Pass.Complete.{
  Before, watermark, IsSafe, sync_batches-IsSafe, pending, uidnext_of,
}
use localmail.Sync.Store.{Mailbox, Db}
use localmail.Sync.Order.{batches}

less_of : (v u : ℕ) → (v == u) ≡ false → v ≤ u → v < u
less_of v u h le = ground arith

-- Of an ascending list, any part from the front meets `u` before any larger entry.
Before-take :
    (u n : ℕ) (uids : List ℕ)
    → Ascending uids
    → exists (λ v. v == u) uids ≡ true
    → Before u (take n uids)
unfolding find
Before-take u zero uids a h = tt
Before-take u (suc n) [] a h = tt
Before-take u (suc n) (v ∷ uids) a h = elim (Bool-cases (v == u)) [
  | inl same ↦ inl ((==_iff v u).0 same)
  | inr other ↦
      let later : exists (λ v. v == u) uids ≡ true = ground arith in
      inr (
        less_of v u other (All-entry (λ w. v ≤ w) u uids a.0 later),
        Before-take u n uids a.1 later,
      )
]

take_all {ℓ} : {A : Type ℓ} (xs : List A) → take (length xs) xs ≡ xs
take_all [] = refl
take_all (x ∷ xs) = ap (◌∷◌ x) (take_all xs)

Before-at_most :
    (u : ℕ) (limit : Option ℕ) (uids : List ℕ)
    → Ascending uids
    → exists (λ v. v == u) uids ≡ true
    → Before u (at_most limit uids)
Before-at_most u none uids a h = rw (← take_all uids) (Before-take u (length uids) uids a h)
Before-at_most u (some n) uids a h = elim (Bool-cases (ltb n (length uids))) [
  | inl more ↦ rw more (Before-take u n uids a h)
  | inr fits ↦ rw fits (rw (← take_all uids) (Before-take u (length uids) uids a h))
]

or_one_pos : (o : Option ℕ) → 0 < or_one o
or_one_pos none = omega arith
or_one_pos (some n) = ground arith

below_stored : (o : Option ℕ) (w u : ℕ) → o ≡ some w → or_one o ≤ u → u < w → ⊥
below_stored none w u e le less = cc
below_stored (some n) w u e le less = ground arith

at_most-ne-nil :
    (u : ℕ) (limit : Option ℕ) (uids : List ℕ)
    → limit ≢ some 0
    → exists (λ v. v == u) uids ≡ true
    → at_most limit uids ≢ []
unfolding find
at_most-ne-nil u none [] k h = cc
at_most-ne-nil u none (v ∷ uids) k h = λ e. cc
at_most-ne-nil u (some zero) uids k h = absurd (k refl)
at_most-ne-nil u (some (suc n)) [] k h = cc
at_most-ne-nil u (some (suc n)) (v ∷ uids) k h = ground arith

module _ (env : Env) (recorded : IsRecorded env) (mailbox : Mailbox) (u : ℕ) where
  start-IsSafe :
      (db : Db)
      → watermark db mailbox.id ≡ mailbox.uidnext
      → or_one mailbox.uidnext ≤ u
      → IsSafe env mailbox.id u db
  start-IsSafe db known le w e less =
      absurd (below_stored mailbox.uidnext w u (sym known ∙ e) le less)

  sync_uids-IsSafe :
      (db : Db) (uids : List ℕ)
      → watermark db mailbox.id ≡ mailbox.uidnext
      → or_one mailbox.uidnext ≤ u
      → Before u uids
      → uids ≢ []
      → IsSafe env mailbox.id u (sync_uids env mailbox db uids).0
  unfolding sync_uids
  sync_uids-IsSafe db [] known le before some_uid = absurd (some_uid refl)
  sync_uids-IsSafe db (x ∷ uids) known le before some_uid =
      sync_batches-IsSafe env mailbox.id recorded u (batches (x ∷ uids) batch_size)
        (start mailbox db)
        (pending (omega (arith, or_one_pos mailbox.uidnext))
          (subst (Before u) (sym (concat-batches (x ∷ uids) batch_size (omega arith))) before))
        (start-IsSafe db known le)

pub renumbered-mailboxes :
    (env : Env) (mailbox : Mailbox) (db : Db)
    → (clear_renumbered env mailbox db).mailboxes ≡ db.mailboxes
renumbered-mailboxes env mailbox db =
    elim (Bool-cases (is_full_sync env mailbox && is_some mailbox.uidvalidity)) [
      | inl changed ↦ rw changed refl
      | inr same ↦ rw same refl
    ]

pub candidates-Ascending :
    (env : Env) (mailbox : Mailbox)
    → is_full_sync env mailbox ≡ false
    → Ascending (candidates env mailbox)
      × All (λ v. or_one mailbox.uidnext ≤ v) (candidates env mailbox)
unfolding candidates
candidates-Ascending env mailbox same =
    rw same (
      filter_new_uids-Ascending (env.search_from (or_one mailbox.uidnext)) (or_one mailbox.uidnext))

-- After a pass of any outcome, of a mailbox whose UIDVALIDITY is still the stored one and whose row
-- is as it was read, every UID that the server reported and that the committed watermark has passed
-- is accounted for: its message is in the archive with a label in this mailbox, its bytes are in
-- failed_messages, it has a tombstone, or the server said that it is gone. No bookkeeping statement
-- raises, and the limit on messages is not 0.
pub sync_mailbox_accounts :
    (env : Env) (mailbox : Mailbox) (limit : Option ℕ) (db : Db) (u w : ℕ)
    → IsRecorded env
    → is_full_sync env mailbox ≡ false
    → watermark db mailbox.id ≡ mailbox.uidnext
    → limit ≢ some 0
    → exists (λ v. v == u) (candidates env mailbox) ≡ true
    → watermark (sync_mailbox env mailbox limit db).0 mailbox.id ≡ some w
    → u < w
    → Accounted env mailbox.id (sync_mailbox env mailbox limit db).0 none u
unfolding sync_mailbox
sync_mailbox_accounts env mailbox limit db u w recorded same known positive here stored less =
    let (ascending, new) = candidates-Ascending env mailbox same in
    sync_uids-IsSafe env recorded mailbox u (clear_renumbered env mailbox db)
      (at_most limit (candidates env mailbox))
      (ap (λ rows. uidnext_of (find (at_mailbox mailbox.id) rows))
          (renumbered-mailboxes env mailbox db)
        ∙ known)
      (All-entry (λ v. or_one mailbox.uidnext ≤ v) u (candidates env mailbox) new here)
      (Before-at_most u limit (candidates env mailbox) ascending here)
      (at_most-ne-nil u limit (candidates env mailbox) positive here) w stored less
