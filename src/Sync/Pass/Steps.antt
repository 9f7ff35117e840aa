-- ===== src/Sync/Pass/Steps.antt =====
-- Each branch of a step keeps the promise `Stepped`.
use localmail.Common.{
  ◌==◌, ℕ, ◌≡◌, false, str_eq, Bool-cases, ◌≤◌, refl, ap, ◌∙◌, inl, inr, Bool, ◌||◌, Option, none,
  some, List, arith,
}
use localmail.Sync.Pass.{
  Env, hold_or_give_up, without_body, recover, store_or_poison, step, Pass, settle,
  uid_still_on_server, finish, is_held, Db, Hold, lower_hold, poison,
}
use localmail.Sync.Pass.Accounted.{
  IsRecorded, Stepped, AccountedIn, expunged, Accounted-act, stored, Accounted-Grows, given_up,
  waiting, Accounted-lower, failed,
}
use localmail.Sync.Messages.{
  Returns, Result, ok, raise, Returns-bind, record_failed_message, contention, other,
}
use localmail.Sync.Holds.{coalesce, record_attempt, mark_gave_up, stamp, hold_expired}
use localmail.Sync.Holds.Life.{act, clear, gave_up_moment, give_up, sight}
use localmail.Sync.Messages.Dedup.{
  process_one_message-Archived, Archived, Recorded, record_failed_message-Recorded,
}
use localmail.Sync.Store.{Db, Hold}
use localmail.Sync.Holds.Keys.{seen, find_hold, find-mark_gave_up, find-record_attempt}

coalesce-some : (o : Option ℕ) (t : ℕ) → (s : ℕ) × (coalesce o t ≡ some s)
coalesce-some none t = (t, refl)
coalesce-some (some s) t = (s, refl)

module _ (env : Env) (m : ℕ) (recorded : IsRecorded env) where
  settle-Stepped :
      (p : Pass) (v : ℕ)
      → Stepped env m p v (settle env m p v (record_attempt false (env.stamp v) p.db.holds m v))
  unfolding settle act
  settle-Stepped p v =
      elim (Bool-cases (
        hold_expired (record_attempt false t p.db.holds m v).1.first_seen_at env.now
          env.max_hold)) [
            | inl expired ↦
                rw (expired, recorded.mark_ok v)
                  (record {
                    rises = omega arith;
                    below = omega arith;
                    now_accounted = given_up gone.0 (ap gave_up_moment marked ∙ gone.1);
                    still_accounted = λ u other h.
                        Accounted-act env m (record p.db { holds = holds1 }) p.hold_at u
                          (give_up false t m v) refl
                          (Accounted-act env m p.db p.hold_at u (sight false t m v) refl h);
                    mailboxes = refl;
                  })
            | inr waits ↦ rw waits (record {
              rises = omega arith;
              below = omega arith;
              now_accounted = waiting (lower_hold p.hold_at v) refl (lower_le p.hold_at);
              still_accounted = λ u other h.
                  Accounted-lower env m (record p.db { holds = holds1 }) p.hold_at u v
                    (Accounted-act env m p.db p.hold_at u (sight false t m v) refl h);
              mailboxes = refl;
            })
          ]
    where
      t : ℕ
      t = env.stamp v

      holds1 : List Hold
      holds1 = (record_attempt false t p.db.holds m v).0

      row : Hold
      row = seen m v t (find_hold p.db.holds m v)

      marked : find_hold (mark_gave_up false t holds1 m v) m v ≡ some (stamp t row)
      marked = find-mark_gave_up holds1 m v t row (find-record_attempt p.db.holds m v t)

      gone : (s : ℕ) × (coalesce row.gave_up_at t ≡ some s)
      gone = coalesce-some row.gave_up_at t

      lower_le : (o : Option ℕ) → lower_hold o v ≤ v
      lower_le none = omega arith
      lower_le (some h) = omega arith

  hold_or_give_up-Stepped : (p : Pass) (v : ℕ) → Stepped env m p v (hold_or_give_up env m p v)
  unfolding hold_or_give_up
  hold_or_give_up-Stepped p v = rw (recorded.record_ok v) (settle-Stepped p v)

  without_body-Stepped : (p : Pass) (v : ℕ) → Stepped env m p v (without_body env m p v)
  unfolding without_body
  without_body-Stepped p v = elim (Bool-cases (p.emptying || uid_still_on_server env v)) [
    | inl still ↦ rw still (hold_or_give_up-Stepped p v)
    | inr gone ↦ rw gone (record {
      rises = omega arith;
      below = omega arith;
      now_accounted = expunged (ground arith);
      still_accounted = λ u other h. h;
      mailboxes = refl;
    })
  ]

  -- The recovery changes the rows of holds alone.
  recover-keeps :
      (p : Pass) (v : ℕ)
      → ((recover m p v).highest_seen ≡ p.highest_seen)
        × ((recover m p v).db.mailboxes ≡ p.db.mailboxes)
        × ((u : ℕ) → (u == v) ≡ false → AccountedIn env m p u → AccountedIn env m (recover m p v) u)
  unfolding recover act
  recover-keeps p v = elim (Bool-cases (is_held p v)) [
    | inl held ↦
        rw held (
          refl,
          refl,
          λ u other h. Accounted-act env m p.db p.hold_at u (clear m v) (ground arith) h,
        )
    | inr fresh ↦ rw fresh (refl, refl, λ u other h. h)
  ]

  finish-Stepped :
      (p : Pass) (v : ℕ) (r : Result (Db × Bool))
      → Returns (Archived p.db (env.world.parse (env.body v)) env.account_id m) r
      → Returns (Stepped env m p v) (finish env m p v r)
  unfolding finish
  finish-Stepped p v (ok (db, b)) (g, e) = record {
    rises = omega arith;
    below = omega arith;
    now_accounted = stored e;
    still_accounted = λ u other h. Accounted-Grows env m p.db db p.hold_at u g h;
    mailboxes = g.mailboxes;
  }
  finish-Stepped p v (raise contention) h = unfold poison in tt
  finish-Stepped p v (raise other) h =
      unfold poison in
      (rw (recorded.log_ok v) (
        Returns-bind (Recorded p.db env.account_id m v) (Stepped env m p v)
          (record_failed_message none p.db env.account_id m v (env.body v)) _
          (record_failed_message-Recorded p.db env.account_id m v (env.body v))
          λ db r. record {
            rises = omega arith;
            below = omega arith;
            now_accounted = failed r.1;
            still_accounted = λ u other k. Accounted-Grows env m p.db db p.hold_at u r.0 k;
            mailboxes = r.0.mailboxes;
          }))

  Stepped-after :
      (p q : Pass) (v : ℕ)
      → (q.highest_seen ≡ p.highest_seen)
        × (q.db.mailboxes ≡ p.db.mailboxes)
        × ((u : ℕ) → (u == v) ≡ false → AccountedIn env m p u → AccountedIn env m q u)
      → (r : Result Pass) → Returns (Stepped env m q v) r
      → Returns (Stepped env m p v) r
  Stepped-after p q v k (ok p') s = record {
    rises = omega (arith, k.0, s.rises);
    below = omega (arith, k.0, s.below);
    now_accounted = s.now_accounted;
    still_accounted = λ u other h. s.still_accounted u other (k.2 u other h);
    mailboxes = s.mailboxes ∙ k.1;
  }
  Stepped-after p q v k (raise e) s = tt

  -- A step accounts for its UID, whatever the server answers and whatever the message does, and
  -- leaves every other account as good as it was.
  pub step-Stepped : (p : Pass) (v : ℕ) → Returns (Stepped env m p v) (step env m p v)
  unfolding step store_or_poison
  step-Stepped p v = elim (Bool-cases (str_eq (env.body v) "")) [
    | inl empty ↦ rw empty (without_body-Stepped p v)
    | inr full ↦
        let q = recover m p v in
        rw full (
          Stepped-after p q v (recover-keeps p v) _ (
            finish-Stepped q v _ (
              process_one_message-Archived env.world q.db env.account_id m v (env.body v)
                (env.flags v) (env.internal_date v))))
  ]
