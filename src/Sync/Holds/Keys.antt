-- ===== src/Sync/Holds/Keys.antt =====
-- Which rows of transient_fetches each statement of fetch_retry.py leaves alone.
use localmail.Common.{
  ℕ, ◌≡◌, refl, Bool, true, false, ◌&&◌, Option, none, some, List, arith, ◌==◌, inl, inr, ◌∷◌, [],
  Option-cases, ◌∙◌,
}
use localmail.Common.Table.{find}
use localmail.Common.Table.Laws.{
  find-append, find-delete-none, find-delete_other, find-update_other, find-update_self,
}
use localmail.Sync.Store.{Hold}
use localmail.Sync.Holds.{
  at_uid, state_of, bump, fresh, stamp, record_attempt, clear_attempts, mark_gave_up,
}

abbrev pub find_hold : List Hold → ℕ → ℕ → Option Hold
find_hold holds mailbox_id uid = find (at_uid mailbox_id uid) holds

-- The row of a sighting, from the row before it.
abbrev pub seen : ℕ → ℕ → ℕ → Option Hold → Hold
seen m u now none = fresh m u now
seen m u now (some h) = bump now h

at_uid_ne :
    (m u m' u' : ℕ) (h : Hold)
    → (m == m' && u == u') ≡ false
    → at_uid m u h ≡ true
    → at_uid m' u' h ≡ false
at_uid_ne m u m' u' h ne k = ground arith

at_uid_refl : (m u : ℕ) → (m == m && u == u) ≡ true
at_uid_refl m u = ground arith

module _ (holds : List Hold) (m u m' u' : ℕ) (other : (m == m' && u == u') ≡ false) where
  pub find-record_attempt_ne :
      (faulted : Bool) (now : ℕ)
      → find_hold (record_attempt faulted now holds m' u').0 m u ≡ find_hold holds m u
  unfolding record_attempt find
  find-record_attempt_ne true now = refl
  find-record_attempt_ne false now = ground (
    arith,
    find-append (at_uid m u) holds (fresh m' u' now ∷ []),
    find-update_other (at_uid m u) (at_uid m' u') (bump now) holds (λ h. refl)
        (λ h. at_uid_ne m u m' u' h other),
  )

  pub find-clear_attempts_ne : find_hold (clear_attempts holds m' u') m u ≡ find_hold holds m u
  unfolding clear_attempts
  find-clear_attempts_ne = find-delete_other _ _ holds (λ h. at_uid_ne m u m' u' h other)

  pub find-mark_gave_up_ne :
      (faulted : Bool) (now : ℕ)
      → find_hold (mark_gave_up faulted now holds m' u') m u ≡ find_hold holds m u
  unfolding mark_gave_up
  find-mark_gave_up_ne true now = refl
  find-mark_gave_up_ne false now =
      find-update_other (at_uid m u) (at_uid m' u') (stamp now) holds (λ h. refl)
        (λ h. at_uid_ne m u m' u' h other)

module _ (holds : List Hold) (m u now : ℕ) where
  -- A sighting that is recorded leaves a row with the history that went before.
  pub find-record_attempt :
      find_hold (record_attempt false now holds m u).0 m u
      ≡ some (seen m u now (find_hold holds m u))
  unfolding record_attempt find
  find-record_attempt = elim (Option-cases (find_hold holds m u)) [
    | inl e ↦
        rw (e, record_attempt)
          (find-append (at_uid m u) holds (fresh m u now ∷ []) ∙ ground (arith, e, at_uid_refl m u))
    | inr (h, e) ↦
        rw (e, record_attempt) (find-update_self (at_uid m u) (bump now) holds h (λ r. refl) e)
  ]

  pub state-record_attempt :
      (record_attempt false now holds m u).1 ≡ state_of (seen m u now (find_hold holds m u))
  unfolding record_attempt
  state-record_attempt = ground arith

  pub find-mark_gave_up :
      (h : Hold)
      → find_hold holds m u ≡ some h
      → find_hold (mark_gave_up false now holds m u) m u ≡ some (stamp now h)
  unfolding mark_gave_up
  find-mark_gave_up h e = find-update_self (at_uid m u) (stamp now) holds h (λ h. refl) e

  pub find-clear_attempts : find_hold (clear_attempts holds m u) m u ≡ none
  unfolding clear_attempts
  find-clear_attempts = find-delete-none _ _ holds (λ h e. e)

pub same_uid : (m u m' u' : ℕ) → (m == m' && u == u') ≡ true → (m' ≡ m) × (u' ≡ u)
same_uid m u m' u' h = ground arith
