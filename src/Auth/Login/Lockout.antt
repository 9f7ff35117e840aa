-- ===== src/Auth/Login/Lockout.antt =====
-- Guessing a password: a sequence of logins, and the one that is refused.
use localmail.Common.{
  ℕ, String, true, false, arith, refl, inl, inr, str_eq, if◌then◌else◌, suc, ◌+◌, ◌≤◌, ◌<◌, ◌≡◌,
  Bool, not, ◌&&◌, List, [], ◌∷◌, ◌++◌, ap,
}
use localmail.Auth.Store.{
  rate_limited, authentication_failed, unique_violation, not_found, database_error,
  session_credential_refused, invalid_token, validation_failed, value_error, ok, err, AuthConfig,
  Crypto, Worker, AuthDb, LoginAttempt, success, failure, AuthResult, LoginOutcome, with_connection,
  Cap, rollback,
}
use localmail.Auth.Login.{Request, login_route, LoginOutcome, login, with_connection}
use localmail.Common.Table.{count}
use localmail.Auth.Login.Audit.{AttemptRecorded, Audited, login_route-Audited, login_route_clean}
use localmail.Auth.Limits.Window.{is_counted, is_recent_success, check_login_rate_limits-full}
use localmail.Auth.Limits.{row_stored, is_failure, is_expired}
use localmail.Common.Lists.{All}
use localmail.Common.Table.Counts.{count-append, count-delete_other, count-delete_le}

abbrev pub is_failed : AuthResult (String × ℕ) → Bool
is_failed (err authentication_failed) = true
is_failed (err (rate_limited _ _)) = false
is_failed (err unique_violation) = false
is_failed (err session_credential_refused) = false
is_failed (err invalid_token) = false
is_failed (err validation_failed) = false
is_failed (err value_error) = false
is_failed (err not_found) = false
is_failed (err database_error) = false
is_failed (ok _) = false

-- An audited success: one with a token, or with a drawn token that is stored already.
abbrev pub is_succeeded : AuthResult (String × ℕ) → Bool
is_succeeded (ok _) = true
is_succeeded (err unique_violation) = true
is_succeeded (err authentication_failed) = false
is_succeeded (err (rate_limited _ _)) = false
is_succeeded (err session_credential_refused) = false
is_succeeded (err invalid_token) = false
is_succeeded (err validation_failed) = false
is_succeeded (err value_error) = false
is_succeeded (err not_found) = false
is_succeeded (err database_error) = false

module _ (crypto : Crypto) (cfg : AuthConfig) where
  -- The worker after a sequence of requests.
  unfoldable pub serve_all : List Request → Worker → Worker
  serve_all [] w = w
  serve_all (r ∷ requests) w = serve_all requests (login_route crypto cfg r w).0

  -- How many of the requests for the user are answered in a given way.
  unfoldable pub answers : (AuthResult (String × ℕ) → Bool) → String → List Request → Worker → ℕ
  answers p username [] w = 0
  answers p username (r ∷ requests) w =
      let rest = answers p username requests (login_route crypto cfg r w).0 in
      if str_eq r.username username && p (login_route crypto cfg r w).1 then suc rest else rest

  -- The request comes at `t0` or later, the window at `t` still covers it, its sweep is not after
  -- `t`, and its audit row is stored.
  abbrev pub IsTimely : ℕ → ℕ → Request → Type 0
  IsTimely t0 t r =
      (t0 ≤ r.checked)
      × (t < r.checked + cfg.login_per_user_window_s)
      × (r.swept ≤ t)
      × (r.write ≡ row_stored)

  module _ (username : String) (t0 t : ℕ)
      (kept : cfg.login_per_user_window_s ≤ cfg.login_attempt_retention_s) where
    -- What one audit row adds to the two counts.
    AttemptRecorded-count :
        (r : Request) (outcome : LoginOutcome) (before now : List LoginAttempt)
        → IsTimely t0 t r
        → AttemptRecorded cfg r outcome before now
        → (count (is_counted cfg username t0 t) before
              + (if str_eq r.username username && is_failure outcome then 1 else 0)
            ≤ count (is_counted cfg username t0 t) now)
          × (count (is_recent_success username t0) now
              ≤ count (is_recent_success username t0) before
                + (if str_eq r.username username && not (is_failure outcome) then 1 else 0))
    unfolding count
    AttemptRecorded-count r outcome before now (early, covered, swept, stored) h =
        let row : LoginAttempt = record {
          username = r.username;
          ip = r.client_ip;
          outcome = outcome;
          ts = r.checked;
        } in
        let rows = before ++ row ∷ [] in
        let c = is_counted cfg username t0 t in
        let s = is_recent_success username t0 in
        let old = is_expired r.swept cfg.login_attempt_retention_s in
        let one : count c rows
            ≡ count c before + (if str_eq r.username username && is_failure outcome then 1 else 0) =
          ground (arith, count-append c before (row ∷ [])) in
        let two : count s rows
            ≤ count s before
              + (if str_eq r.username username && not (is_failure outcome) then 1 else 0) =
          ground (arith, count-append s before (row ∷ [])) in
        elim h [
          | inl e ↦ rw (e, stored) (omega (arith, one), two)
          | inr e ↦
              rw (e, stored)
                (
                  omega (arith, one, count-delete_other c old rows (λ a k. ground arith)),
                  omega (arith, two, count-delete_le s old rows),
                )
        ]

    -- What a request adds, from what it leaves committed.
    Audited-count :
        (r : Request) (db : AuthDb) (x : Worker × AuthResult (String × ℕ))
        → IsTimely t0 t r
        → Audited crypto cfg r db x
        → (count (is_counted cfg username t0 t) db.api_login_attempts
              + (if str_eq r.username username && is_failed x.1 then 1 else 0)
            ≤ count (is_counted cfg username t0 t) x.0.committed.api_login_attempts)
          × (count (is_recent_success username t0) x.0.committed.api_login_attempts
              ≤ count (is_recent_success username t0) db.api_login_attempts
                + (if str_eq r.username username && is_succeeded x.1 then 1 else 0))
    Audited-count r db (w, err (rate_limited _ _)) timely e = rw e (ground arith, ground arith)
    Audited-count r db (w, err database_error) timely (e, _) = rw e (ground arith, ground arith)
    Audited-count r db (w, err authentication_failed) timely (u, k, h) =
        AttemptRecorded-count r failure db.api_login_attempts w.committed.api_login_attempts timely
          h
    Audited-count r db (w, err unique_violation) timely (u, k, v, h) =
        AttemptRecorded-count r success db.api_login_attempts w.committed.api_login_attempts timely
          h
    Audited-count r db (w, ok _) timely (u, k, h) =
        AttemptRecorded-count r success db.api_login_attempts w.committed.api_login_attempts timely
          h
    Audited-count r db (w, err session_credential_refused) timely e = absurd e
    Audited-count r db (w, err invalid_token) timely e = absurd e
    Audited-count r db (w, err validation_failed) timely e = absurd e
    Audited-count r db (w, err value_error) timely e = absurd e
    Audited-count r db (w, err not_found) timely e = absurd e

    serve_all-count :
        (requests : List Request) (w : Worker)
        → w.pending ≡ w.committed
        → All (IsTimely t0 t) requests
        → (count (is_counted cfg username t0 t) w.committed.api_login_attempts
              + answers is_failed username requests w
            ≤ count
                (is_counted cfg username t0 t)
                (serve_all requests w).committed.api_login_attempts)
          × (count
                (is_recent_success username t0)
                (serve_all requests w).committed.api_login_attempts
              ≤ count (is_recent_success username t0) w.committed.api_login_attempts
                + answers is_succeeded username requests w)
          × ((serve_all requests w).pending ≡ (serve_all requests w).committed)
    unfolding serve_all answers
    serve_all-count [] w clean timely = (omega arith, omega arith, clean)
    serve_all-count (r ∷ requests) w clean (now, later) =
        let x = login_route crypto cfg r w in
        let (a, b) = Audited-count r w.committed x now (login_route-Audited crypto cfg r w clean) in
        let (a', b', c') = serve_all-count requests x.0 (login_route_clean crypto cfg r w) later in
        (ground (arith, a, a'), ground (arith, b, b'), c')

  -- Guessing a password is cut off. Where as many logins for a username have failed as its cap, and
  -- none has succeeded since `t0`, a further login for it is refused by the rate limiter, whatever
  -- the password and the address, and leaves the worker as a rollback does. The requests, for any
  -- users, come from `t0` on, the window of the username still covers them at the further login,
  -- their sweeps come no later than it, and their audit rows are stored. Attempts are kept for at
  -- least that window, before the requests nothing is uncommitted, and the database answers the query
  -- of the further login.
  pub login_route-locks_out :
      (requests : List Request) (r : Request) (t0 : ℕ) (w : Worker)
      → w.pending ≡ w.committed
      → r.check_raises ≡ false
      → cfg.login_per_user_window_s ≤ cfg.login_attempt_retention_s
      → All (IsTimely t0 r.checked) requests
      → count (is_recent_success r.username t0) w.committed.api_login_attempts ≡ 0
      → answers is_succeeded r.username requests w ≡ 0
      → cfg.login_per_user_max ≤ answers is_failed r.username requests w
      → (cap : Cap) × (s : ℕ) × (login_route crypto cfg r (serve_all requests w)
          ≡ (rollback (serve_all requests w), err (rate_limited cap s)))
  unfolding login_route login with_connection
  login_route-locks_out requests r t0 w clean answered kept timely fresh none_succeeded full =
      let w' = serve_all requests w in
      let (a, b, c) = serve_all-count r.username t0 r.checked kept requests w clean timely in
      let rows : w'.pending.api_login_attempts ≡ w'.committed.api_login_attempts =
        ap (λ db. db.api_login_attempts) c in
      let (cap', s, e) =
        check_login_rate_limits-full cfg r.username r.client_ip t0 r.checked
          w'.pending.api_login_attempts (rw rows (omega (arith, b))) (rw rows (omega (arith, a))) in
      (cap', s, rw (answered, e) refl)
