-- ===== src/Sync/Holds/Scope.antt =====
-- The operator's commands on tombstones: listing, re-arming and purging them.
use localmail.Common.{
  ℕ, ◌+◌, ◌≤◌, ◌<◌, String, ◌≡◌, refl, sym, ap, ◌∙◌, true, false, Option, none, some, List, [],
  arith,
}
use localmail.Sync.Store.{Hold}
use localmail.Sync.Holds.{
  arm_for_retry, gave_up_scope, purge_gave_up, rearm, hold_expired, gave_up_rows, at_uid,
}
use localmail.Common.Int.{ℤ, pos}
use localmail.Sync.Holds.Keys.{find_hold}
use localmail.Common.Table.Laws.{
  find-update, apply_if, length-select, select-delete, length-delete, find-delete_spared,
}
use localmail.Common.Lists.{length}

-- A live hold is in the scope of no command.
live_out_of_scope :
    (account_of : ℕ → Option String) (now : ℕ) (account : Option String) (age : Option ℤ) (h : Hold)
    → h.gave_up_at ≡ none
    → gave_up_scope account_of now account age h ≡ false
unfolding gave_up_scope
live_out_of_scope account_of now account age h live = ground arith

module _ (account_of : ℕ → Option String) (now : ℕ) (account : Option String) where
  find-arm_for_retry :
      (holds : List Hold) (m u : ℕ) (h : Hold)
      → find_hold holds m u ≡ some h
      → find_hold (arm_for_retry account_of now account holds).0 m u
        ≡ apply_if (gave_up_scope account_of now account none) (rearm now) (some h)
  unfolding arm_for_retry
  find-arm_for_retry holds m u h e =
      find-update (at_uid m u) (gave_up_scope account_of now account none) (rearm now) holds
        (λ r. refl)
      ∙ ap (apply_if (gave_up_scope account_of now account none) (rearm now)) e

  -- After a re-arm, a tombstone in scope still has the moment of its give-up, its attempts count
  -- from 0, and it does not expire before the whole limit has passed again; a live hold of any UID
  -- is as it was.
  pub arm_for_retry_reopens :
      (holds : List Hold) (m u later max_hold : ℕ) (h : Hold)
      → find_hold holds m u ≡ some h
      → gave_up_scope account_of now account none h ≡ true
      → now ≤ later
      → later < now + max_hold
      → (m' u' : ℕ) (live : Hold) → find_hold holds m' u' ≡ some live
      → live.gave_up_at ≡ none
      → (h' : Hold) × (find_hold (arm_for_retry account_of now account holds).0 m u ≡ some h')
        × (h'.gave_up_at ≡ h.gave_up_at)
        × (h'.attempt_count ≡ 0)
        × (hold_expired h'.first_seen_at later (pos max_hold) ≡ false)
        × (find_hold (arm_for_retry account_of now account holds).0 m' u' ≡ some live)
  unfolding hold_expired
  arm_for_retry_reopens holds m u later max_hold h e scoped early late m' u' live e' alive = (
    rearm now h,
    find-arm_for_retry holds m u h e ∙ rw scoped refl,
    refl,
    refl,
    ground arith,
    find-arm_for_retry holds m' u' live e'
        ∙ rw (live_out_of_scope account_of now account none live alive) refl,
  )

  -- `--forget` deletes as many rows as the listing with the same scope shows, and reports that
  -- number; the listing is empty then, no other row is gone, and a live hold is found as before.
  pub purge-list :
      (age : Option ℤ) (holds : List Hold) (m u : ℕ) (h : Hold)
      → find_hold holds m u ≡ some h
      → h.gave_up_at ≡ none
      → ((purge_gave_up account_of now account age holds).1
          ≡ length (gave_up_rows account_of now account age holds))
        × (gave_up_rows account_of now account age
              (purge_gave_up account_of now account age holds).0
            ≡ [])
        × (length (purge_gave_up account_of now account age holds).0
              + (purge_gave_up account_of now account age holds).1
            ≡ length holds)
        × (find_hold (purge_gave_up account_of now account age holds).0 m u ≡ some h)
  unfolding purge_gave_up gave_up_rows
  purge-list age holds m u h e live =
      let scope = gave_up_scope account_of now account age in
      (
        sym (length-select scope holds),
        select-delete scope holds,
        length-delete scope holds,
        find-delete_spared (at_uid m u) scope holds h e
            (live_out_of_scope account_of now account age h live),
      )
