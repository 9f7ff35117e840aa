-- ===== src/Auth/Login/Audit.antt =====
-- What a login leaves committed, on every branch.
use localmail.Common.{
  ℕ, ◌≡◌, String, true, false, refl, inl, inr, Bool, ltb, if◌then◌else◌, Bool-cases, ◌+◌, ap, ◌⊎◌,
  Option, some, List, [], ◌∷◌, ◌++◌, ◌∙◌, sym, arith, Option-cases, none,
}
use localmail.Auth.Store.{
  rate_limited, authentication_failed, unique_violation, not_found, database_error,
  session_credential_refused, invalid_token, validation_failed, value_error, ok, err, AuthConfig,
  Crypto, Worker, AuthDb, LoginAttempt, LoginOutcome, AuthResult, failure, success, ApiUser,
  with_connection, login_eligible, AuthError, Cap,
}
use localmail.Auth.Tokens.{session, has_sha, issue_token, mints_for}
use localmail.Auth.Login.{
  Request, LoginOutcome, AuthResult, failure, success, ApiUser, find, may_login, audit,
  with_connection, refuse, issue_token, login_eligible, mint, swept_after, refused, minted_after,
  login_route, login, after_lookup, AuthError, after_check,
}
use localmail.Auth.Limits.{
  AuditWrite, row_stored, row_skipped, write_raised, record_login_attempt, maybe_sweep,
  sweep_login_attempts, is_expired, check_login_rate_limits-cases, check_login_rate_limits,
}
use localmail.Common.Table.{delete, exists, find}
use localmail.Common.Table.Laws.{find_sound, find_exists}

abbrev pub is_stored : AuditWrite → Bool
is_stored row_stored = true
is_stored row_skipped = false
is_stored write_raised = false

-- The attempts with the audit row of this login, less those that a sweep finds expired.
abbrev pub AttemptRecorded :
    AuthConfig → Request → LoginOutcome → List LoginAttempt → List LoginAttempt → Type 0
AttemptRecorded cfg r outcome before now =
    let row : LoginAttempt = record {
      username = r.username;
      ip = r.client_ip;
      outcome = outcome;
      ts = r.checked;
    } in
    let rows = if is_stored r.write then before ++ row ∷ [] else before in
    (now ≡ rows) ⊎ (now ≡ delete (is_expired r.swept cfg.login_attempt_retention_s) rows)

-- What is committed after a login that answers `result`.
abbrev pub Audited :
    Crypto → AuthConfig → Request → AuthDb → Worker × AuthResult (String × ℕ) → Type 0
Audited crypto cfg r db (w, err (rate_limited _ _)) = w.committed ≡ db
Audited crypto cfg r db (w, err database_error) =
    (w.committed ≡ db)
    × (((r.check_raises ≡ true) ⊎ (r.lookup_raises ≡ true)) ⊎ (r.write ≡ write_raised))
Audited crypto cfg r db (w, err authentication_failed) =
    (w.committed.api_users ≡ db.api_users)
    × (w.committed.api_tokens ≡ db.api_tokens)
    × AttemptRecorded cfg r failure db.api_login_attempts w.committed.api_login_attempts
Audited crypto cfg r db (w, err unique_violation) =
    (w.committed.api_users ≡ db.api_users)
    × (w.committed.api_tokens ≡ db.api_tokens)
    × (exists (has_sha (crypto.sha256 r.fresh)) db.api_tokens ≡ true)
    × AttemptRecorded cfg r success db.api_login_attempts w.committed.api_login_attempts
Audited crypto cfg r db (w, ok (raw, expires_at)) =
    (w.committed.api_users ≡ db.api_users)
    × ((row : ApiUser) × (find (may_login r.username) db.api_users ≡ some row)
        × (crypto.verify r.password row.password_hash ≡ true)
        × (exists (has_sha (crypto.sha256 raw)) db.api_tokens ≡ false)
        × (w.committed.api_tokens
            ≡ db.api_tokens ++ session (crypto.sha256 raw) row.id r.minted expires_at ∷ []))
    × AttemptRecorded cfg r success db.api_login_attempts w.committed.api_login_attempts
Audited crypto cfg r db (w, err session_credential_refused) = ⊥
Audited crypto cfg r db (w, err invalid_token) = ⊥
Audited crypto cfg r db (w, err validation_failed) = ⊥
Audited crypto cfg r db (w, err value_error) = ⊥
Audited crypto cfg r db (w, err not_found) = ⊥

-- `w'` has nothing uncommitted, the users and tokens committed in `w`, and the attempts `rows`.
abbrev Leaves : List LoginAttempt → Worker → Worker → Type 0
Leaves rows w w' =
    (w'.pending ≡ w'.committed)
    × (w'.committed.api_users ≡ w.committed.api_users)
    × (w'.committed.api_tokens ≡ w.committed.api_tokens)
    × (w'.committed.api_login_attempts ≡ rows)

-- Where the audit row is not raised about.
abbrev WriteLeaves :
    AuditWrite → ℕ → String → Option String → LoginOutcome → Worker → Option Worker → Type 0
WriteLeaves write now username ip outcome w none = write ≡ write_raised
WriteLeaves write now username ip outcome w (some w') =
    Leaves
      (if is_stored write
        then w.committed.api_login_attempts
          ++ record { username = username; ip = ip; outcome = outcome; ts = now } ∷ []
        else w.committed.api_login_attempts)
      w w'

record_lem :
    (write : AuditWrite) (now : ℕ) (username : String) (ip : Option String) (outcome : LoginOutcome)
    (w : Worker)
    → w.pending ≡ w.committed
    → WriteLeaves write now username ip outcome w
        (record_login_attempt write now username ip outcome w)
unfolding record_login_attempt
record_lem write_raised now username ip outcome w clean = refl
record_lem row_skipped now username ip outcome w clean = (clean, refl, refl, refl)
record_lem row_stored now username ip outcome w clean =
    (refl, ap (λ db. db.api_users) clean, ap (λ db. db.api_tokens) clean, rw clean refl)

sweep_lem :
    (lock_free : Bool) (cfg : AuthConfig) (now monotonic : ℕ) (w : Worker)
    → w.pending ≡ w.committed
    → Leaves w.committed.api_login_attempts w (maybe_sweep lock_free cfg now monotonic w)
      ⊎ Leaves
          (delete (is_expired now cfg.login_attempt_retention_s) w.committed.api_login_attempts)
          w
          (maybe_sweep lock_free cfg now monotonic w)
unfolding maybe_sweep sweep_login_attempts
sweep_lem lock_free cfg now monotonic w clean =
    elim (Bool-cases (ltb monotonic (w.last_sweep_at + cfg.login_cleanup_interval_s))) [
      | inl e ↦ inl (rw e (clean, refl, refl, refl))
      | inr e ↦ elim (Bool-cases lock_free) [
        | inl l ↦ inr (
            rw (e, l)
              (refl, ap (λ db. db.api_users) clean, ap (λ db. db.api_tokens) clean, rw clean refl))
        | inr l ↦ inl (
            rw (e, l)
              (refl, ap (λ db. db.api_users) clean, ap (λ db. db.api_tokens) clean, rw clean refl))
      ]
    ]

pub with_connection_clean {ℓ} :
    {A : Type ℓ} (x : Worker × AuthResult A)
    → (with_connection x).0.pending ≡ (with_connection x).0.committed
unfolding with_connection
with_connection_clean (w, ok a) = refl
with_connection_clean (w, err e) = refl

module _ (crypto : Crypto) (cfg : AuthConfig) (r : Request) where
  -- The audit row is committed, whatever the rest of the request does, or its error is raised.
  abbrev AuditLeaves : LoginOutcome → Worker → Option Worker → Type 0
  AuditLeaves outcome w none = r.write ≡ write_raised
  AuditLeaves outcome w (some w') =
      (rows : List LoginAttempt) × AttemptRecorded cfg r outcome w.committed.api_login_attempts rows
      × Leaves rows w w'

  swept-AuditLeaves :
      (outcome : LoginOutcome) (w : Worker) (o : Option Worker)
      → WriteLeaves r.write r.checked r.username r.client_ip outcome w o
      → AuditLeaves outcome w (swept_after crypto cfg r o)
  swept-AuditLeaves outcome w none h = h
  swept-AuditLeaves outcome w (some w') (c, u, t, a) =
      elim (sweep_lem r.lock_free cfg r.swept r.monotonic w' c) [
        | inl (c', u', t', a') ↦ (w'.committed.api_login_attempts, inl a, (c', u' ∙ u, t' ∙ t, a'))
        | inr (c', u', t', a') ↦ (
          delete (is_expired r.swept cfg.login_attempt_retention_s) w'.committed.api_login_attempts,
          inr (rw a refl),
          (c', u' ∙ u, t' ∙ t, a'),
        )
      ]

  audit-AuditLeaves :
      (outcome : LoginOutcome) (w : Worker)
      → w.pending ≡ w.committed
      → AuditLeaves outcome w (audit crypto cfg r outcome w)
  audit-AuditLeaves outcome w clean =
      swept-AuditLeaves outcome w
        (record_login_attempt r.write r.checked r.username r.client_ip outcome w)
        (record_lem r.write r.checked r.username r.client_ip outcome w clean)

  refused-Audited :
      (w : Worker) (o : Option Worker)
      → AuditLeaves failure w o
      → Audited crypto cfg r w.committed (with_connection (refused crypto cfg r w o))
  unfolding with_connection
  refused-Audited w none h = (refl, inr h)
  refused-Audited w (some w') (rows, h, (c, u, t, a)) = (u, t, rw a h)

  refuse-Audited :
      (w : Worker)
      → w.pending ≡ w.committed
      → Audited crypto cfg r w.committed (with_connection (refuse crypto cfg r w))
  refuse-Audited w clean =
      refused-Audited w (audit crypto cfg r failure w) (audit-AuditLeaves failure w clean)

  mint-Audited :
      (row : ApiUser) (w w' : Worker) (rows : List LoginAttempt)
      → find (may_login r.username) w.committed.api_users ≡ some row
      → crypto.verify r.password row.password_hash ≡ true
      → AttemptRecorded cfg r success w.committed.api_login_attempts rows
      → Leaves rows w w'
      → Audited crypto cfg r w.committed (with_connection (mint crypto cfg r row w'))
  unfolding with_connection issue_token login_eligible
  mint-Audited row w w' rows found verified h (c, u, t, a) =
      let ok = find_sound (may_login r.username) w.committed.api_users row found in
      let e : exists (mints_for row.id) w'.pending.api_users ≡ true =
        ap (λ db. exists (mints_for row.id) db.api_users) c
        ∙ rw u (
            find_exists (may_login r.username) (mints_for row.id) w.committed.api_users row found
              (ground arith)) in
      let t' = ap (λ db. db.api_tokens) c ∙ t in
      let u' = ap (λ db. db.api_users) c ∙ u in
      let a' = ap (λ db. db.api_login_attempts) c ∙ a in
      elim (Bool-cases (exists (has_sha (crypto.sha256 r.fresh)) w'.pending.api_tokens)) [
        | inl s ↦ rw (e, s) (u, t, rw (sym t') s, rw a h)
        | inr s ↦ rw (e, s) (u', (row, found, verified, rw (sym t') s, rw t' refl), rw a' h)
      ]

  minted_after-Audited :
      (row : ApiUser) (w : Worker) (o : Option Worker)
      → find (may_login r.username) w.committed.api_users ≡ some row
      → crypto.verify r.password row.password_hash ≡ true
      → AuditLeaves success w o
      → Audited crypto cfg r w.committed (with_connection (minted_after crypto cfg r row w o))
  unfolding with_connection
  minted_after-Audited row w none found verified h = (refl, inr h)
  minted_after-Audited row w (some w') found verified (rows, h, keeps) =
      mint-Audited row w w' rows found verified h keeps

  lookup-Audited :
      (w : Worker)
      → w.pending ≡ w.committed
      → Audited crypto cfg r w.committed (
          with_connection
            (after_lookup crypto cfg r (find (may_login r.username) w.pending.api_users) w))
  lookup-Audited w clean = elim (Option-cases (find (may_login r.username) w.pending.api_users)) [
    | inl e ↦ rw e (refuse-Audited w clean)
    | inr (row, e) ↦ elim (Bool-cases (crypto.verify r.password row.password_hash)) [
      | inl v ↦
          let e' = sym (ap (λ db. find (may_login r.username) db.api_users) clean) ∙ e in
          rw (e, v)
            (minted_after-Audited row w (audit crypto cfg r success w) e' v
              (audit-AuditLeaves success w clean))
      | inr v ↦ rw (e, v) (refuse-Audited w clean)
    ]
  ]

  -- Where a query raises, nothing is left.
  or_raises-Audited :
      (raises : Bool) (w : Worker) (x : Worker × AuthResult (String × ℕ))
      → (raises ≡ true → (r.check_raises ≡ true) ⊎ (r.lookup_raises ≡ true))
      → Audited crypto cfg r w.committed (with_connection x)
      → Audited crypto cfg r w.committed
          (with_connection (if raises then (w, err database_error) else x))
  unfolding with_connection
  or_raises-Audited true w x which h = (refl, inl (which refl))
  or_raises-Audited false w x which h = h

  check-Audited :
      (w : Worker) (o : Option AuthError)
      → ((o ≡ none) ⊎ ((cap : Cap) × (s : ℕ) × (o ≡ some (rate_limited cap s))))
      → w.pending ≡ w.committed
      → Audited crypto cfg r w.committed (with_connection (after_check crypto cfg r o w))
  unfolding with_connection
  check-Audited w o (inl e) clean = rw e (
      or_raises-Audited r.lookup_raises w
        (after_lookup crypto cfg r (find (may_login r.username) w.pending.api_users) w)
        (λ raises. inr raises) (lookup-Audited w clean))
  check-Audited w o (inr (_, _, e)) clean = rw e refl

  -- What a login leaves committed once its request is over, whatever the attempts of others. A
  -- refusal by the rate limiter leaves nothing, and neither does an error of one of the two queries or
  -- of the audit row that is raised. Any other login leaves its audit row, which is the success or
  -- the failure that the client is told of, unless the database skips it, less the rows that a sweep
  -- finds expired; the users stay. A failure mints nothing. A success means that the user may log in
  -- and that the password is theirs, and leaves one new token, a session of that user with a hash that
  -- was not stored; only where the hash of the drawn token is stored already is there an audited
  -- success with no token. Before the request nothing is uncommitted, the sweep raises nothing, and
  -- the INSERT of the token only the UniqueViolation.
  pub login_route-Audited :
      (w : Worker)
      → w.pending ≡ w.committed
      → Audited crypto cfg r w.committed (login_route crypto cfg r w)
  unfolding login_route login with_connection
  login_route-Audited w clean =
      let o =
        check_login_rate_limits cfg r.checked r.username r.client_ip w.pending.api_login_attempts in
      or_raises-Audited r.check_raises w (after_check crypto cfg r o w) (λ raises. inl raises)
        (check-Audited w o
          (check_login_rate_limits-cases cfg r.checked r.username r.client_ip
            w.pending.api_login_attempts)
          clean)

  pub login_route_clean :
      (w : Worker)
      → (login_route crypto cfg r w).0.pending ≡ (login_route crypto cfg r w).0.committed
  unfolding login_route
  login_route_clean w = with_connection_clean (login crypto cfg r w)
