-- ===== src/Sync/Holds/Life.antt =====
-- The life of a hold: how long it lasts, and what becomes of a tombstone.
use localmail.Common.{
  List, Bool, ℕ, Option, ◌==◌, ◌∷◌, ◌&&◌, ◌≡◌, false, some, none, ◌+◌, ◌<◌, arith, leb, Bool-cases,
  refl, ap, ◌∙◌, inl, inr, true, [],
}
use localmail.Sync.Holds.{
  hold_expired, Hold, record_attempt, mark_gave_up, clear_attempts, reclaim_below, bump, fresh,
  at_uid, is_dead, clear_mailbox, in_mailbox,
}
use localmail.Sync.Store.{Hold}
use localmail.Sync.Holds.Keys.{
  find_hold, find-clear_attempts_ne, find-record_attempt, seen, find-mark_gave_up, same_uid,
  find-record_attempt_ne, find-mark_gave_up_ne,
}
use localmail.Common.Lists.{All, length}
use localmail.Common.Int.{pos}
use localmail.Common.Table.Laws.{find-delete_spared, find_sound}

-- One sighting of an empty body in each pass, at the moments `ts`.
unfoldable pub sightings : List ℕ → List Hold → ℕ → ℕ → List Hold
sightings [] holds m u = holds
sightings (t ∷ ts) holds m u = sightings ts (record_attempt false t holds m u).0 m u

find-sightings :
    (ts : List ℕ) (holds : List Hold) (m u : ℕ) (h : Hold)
    → find_hold holds m u ≡ some h
    → (h' : Hold) × (find_hold (sightings ts holds m u) m u ≡ some h')
      × (h'.first_seen_at ≡ h.first_seen_at)
      × (h'.attempt_count ≡ h.attempt_count + length ts)
      × (h'.gave_up_at ≡ h.gave_up_at)
unfolding sightings
find-sightings [] holds m u h e = (h, e, refl, omega arith, refl)
find-sightings (t ∷ ts) holds m u h e =
    let (h', found, first, tried, gave) =
      find-sightings ts (record_attempt false t holds m u).0 m u (bump t h)
        (find-record_attempt holds m u t ∙ ap (λ o. some (seen m u t o)) e) in
    (h', found, first, omega arith, gave)

-- However many passes see a UID with no body, and whenever they run, its hold counts them all and
-- expires exactly when the limit has passed since the first of them: the attempts in between
-- never extend the window. The UID had no hold before, the limit is positive, and no statement
-- that records a sighting raises.
pub hold_window :
    (t : ℕ) (ts : List ℕ) (holds : List Hold) (m u now max_hold : ℕ)
    → find_hold holds m u ≡ none
    → 0 < max_hold
    → (h : Hold) × (find_hold (sightings (t ∷ ts) holds m u) m u ≡ some h)
      × (h.attempt_count ≡ length ts + 1)
      × (hold_expired h.first_seen_at now (pos max_hold) ≡ leb (t + max_hold) now)
unfolding hold_expired sightings
hold_window t ts holds m u now max_hold new positive =
    let (h, found, first, tried, gave) =
      find-sightings ts (record_attempt false t holds m u).0 m u (fresh m u t)
        (find-record_attempt holds m u t ∙ ap (λ o. some (seen m u t o)) new) in
    (h, found, omega arith, rw first (ground arith))

-- The statements of sync on the rows of holds.
pub data Act : Type 0 where
  sight give_up : Bool → ℕ → ℕ → ℕ → Act
  clear reclaim : ℕ → ℕ → Act
  renumber : ℕ → Act

unfoldable pub act : Act → List Hold → List Hold
act (sight faulted now m u) holds = (record_attempt faulted now holds m u).0
act (give_up faulted now m u) holds = mark_gave_up faulted now holds m u
act (clear m u) holds = clear_attempts holds m u
act (reclaim m u) holds = reclaim_below holds m u
act (renumber m) holds = clear_mailbox holds m

unfoldable pub act_all : List Act → List Hold → List Hold
act_all [] holds = holds
act_all (a ∷ acts) holds = act_all acts (act a holds)

-- The act is a recovered fetch of the UID, or a new UIDVALIDITY of its mailbox.
abbrev pub forgets : ℕ → ℕ → Act → Bool
forgets m u (clear m' u') = m == m' && u == u'
forgets m u (sight faulted now m' u') = false
forgets m u (give_up faulted now m' u') = false
forgets m u (reclaim m' u') = false
forgets m u (renumber m') = m == m'

abbrev pub gave_up_moment : Option Hold → Option ℕ
gave_up_moment none = none
gave_up_moment (some h) = h.gave_up_at

seen_moment :
    (m u now : ℕ) (o : Option Hold) {t : ℕ}
    → gave_up_moment o ≡ some t
    → gave_up_moment (some (seen m u now o)) ≡ some t
seen_moment m u now o e = ground arith

moment_row :
    (o : Option Hold) {t : ℕ}
    → gave_up_moment o ≡ some t
    → (r : Hold) × (o ≡ some r) × (r.gave_up_at ≡ some t)
moment_row none e = cc
moment_row (some r) e = (r, refl, e)

stamped_moment :
    (holds : List Hold) (m u now : ℕ) {t : ℕ}
    → gave_up_moment (find_hold holds m u) ≡ some t
    → gave_up_moment (find_hold (mark_gave_up false now holds m u) m u) ≡ some t
stamped_moment holds m u now e =
    let (r, found, gave) = moment_row (find_hold holds m u) e in
    rw (find-mark_gave_up holds m u now r found) (ground arith)

pub tombstone_act :
    (a : Act) (holds : List Hold) (m u t : ℕ)
    → forgets m u a ≡ false
    → gave_up_moment (find_hold holds m u) ≡ some t
    → gave_up_moment (find_hold (act a holds) m u) ≡ some t
unfolding act record_attempt mark_gave_up reclaim_below clear_mailbox
tombstone_act (sight true now m' u') holds m u t h e = e
tombstone_act (sight false now m' u') holds m u t h e = elim (Bool-cases (m == m' && u == u')) [
  | inl same ↦
      let (p, q) = same_uid m u m' u' same in
      rw (p, q)
        (rw (find-record_attempt holds m u now) (seen_moment m u now (find_hold holds m u) e))
  | inr other ↦ rw (find-record_attempt_ne holds m u m' u' other false now) e
]
tombstone_act (give_up true now m' u') holds m u t h e = e
tombstone_act (give_up false now m' u') holds m u t h e = elim (Bool-cases (m == m' && u == u')) [
  | inl same ↦ let (p, q) = same_uid m u m' u' same in rw (p, q) (stamped_moment holds m u now e)
  | inr other ↦ rw (find-mark_gave_up_ne holds m u m' u' other false now) e
]
tombstone_act (clear m' u') holds m u t h e = rw (find-clear_attempts_ne holds m u m' u' h) e
tombstone_act (reclaim m' u') holds m u t h e =
    let (r, found, gave) = moment_row (find_hold holds m u) e in
    ap gave_up_moment (find-delete_spared (at_uid m u) (is_dead m' u') holds r found (ground arith))
    ∙ gave
tombstone_act (renumber m') holds m u t h e =
    let (r, found, gave) = moment_row (find_hold holds m u) e in
    ap gave_up_moment (
      find-delete_spared (at_uid m u) (in_mailbox m') holds r found
        (ground (arith, find_sound (at_uid m u) holds r found)))
    ∙ gave

-- A tombstone keeps the moment at which sync gave up, whatever statements of sync follow on any UID, as
-- long as none is the clearing of that UID after a recovered fetch, or of its mailbox after a change
-- of its UIDVALIDITY.
pub tombstone_kept :
    (acts : List Act) (holds : List Hold) (m u t : ℕ)
    → All (λ a. forgets m u a ≡ false) acts
    → gave_up_moment (find_hold holds m u) ≡ some t
    → gave_up_moment (find_hold (act_all acts holds) m u) ≡ some t
unfolding act_all
tombstone_kept [] holds m u t h e = e
tombstone_kept (a ∷ acts) holds m u t h e =
    tombstone_kept acts (act a holds) m u t h.1 (tombstone_act a holds m u t h.0 e)
