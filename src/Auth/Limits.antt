-- ===== src/Auth/Limits.antt =====
-- The login rate limiter of src/localmail/api/auth.py: the audit rows, their sweep, and the caps.
pub mod Window
use localmail.Common.{
  ℕ, leb, ltb, ◌==◌, String, str_eq, Bool, true, false, ◌&&◌, Option, none, some, List, [], ◌∷◌,
  max, is_some, if◌then◌else◌, ◌+◌, Bool-cases, ◌≡◌, refl, ◌⊎◌, inl, inr,
}
use localmail.Common.Table.{count, delete, insert, select}
use localmail.Auth.Store.{
  LoginAttempt, LoginOutcome, success, failure, AuthConfig, AuthError, rate_limited, global_cap,
  ip_cap, user_cap, Worker, commit, AuthDb, Cap,
}

abbrev pub is_failure : LoginOutcome → Bool
is_failure failure = true
is_failure success = false

-- ts > now() - make_interval(secs => window)
abbrev pub within : ℕ → ℕ → LoginAttempt → Bool
within now window a = ltb now (a.ts + window)

-- ip = %s, which no NULL satisfies
abbrev pub same_ip : Option String → Option String → Bool
same_ip (some s) (some t) = str_eq s t
same_ip _ none = false
same_ip none (some t) = false

abbrev pub success_of : String → LoginAttempt → Bool
success_of username a =
    str_eq a.username username && elim (is_failure a.outcome) [ true ↦ false | false ↦ true ]

abbrev pub later : ℕ → Option ℕ → Option ℕ
later t none = some t
later t (some u) = some (max t u)

-- SELECT MAX(ts) FROM api_login_attempts WHERE username = %s AND outcome = 'success'
unfoldable pub last_success : String → List LoginAttempt → Option ℕ
last_success username [] = none
last_success username (a ∷ rows) =
    let rest = last_success username rows in if success_of username a then later a.ts rest else rest

-- ts > COALESCE(%s, '-infinity')
abbrev pub after : Option ℕ → ℕ → Bool
after none ts = true
after (some t) ts = ltb t ts

abbrev pub failure_from : ℕ → ℕ → Option String → LoginAttempt → Bool
failure_from now window ip a = same_ip a.ip ip && is_failure a.outcome && within now window a

abbrev pub failure_of : ℕ → ℕ → String → Option ℕ → LoginAttempt → Bool
failure_of now window username last a =
    str_eq a.username username && is_failure a.outcome && within now window a && after last a.ts

abbrev pub widest_window_s : AuthConfig → ℕ
widest_window_s cfg =
    max cfg.login_global_window_s (max cfg.login_per_ip_window_s cfg.login_per_user_window_s)

-- The cap that refuses a login, from the three counts of the query.
abbrev pub exceeded : AuthConfig → Option String → ℕ → ℕ → ℕ → Option AuthError
exceeded cfg client_ip global_attempts ip_failures user_failures =
    if leb cfg.login_global_max global_attempts
    then some (rate_limited global_cap cfg.login_global_window_s)
    else if is_some client_ip && leb cfg.login_per_ip_max ip_failures
    then some (rate_limited ip_cap cfg.login_per_ip_window_s)
    else if leb cfg.login_per_user_max user_failures
    then some (rate_limited user_cap cfg.login_per_user_window_s)
    else none

unfoldable pub check_login_rate_limits :
    AuthConfig → ℕ → String → Option String → List LoginAttempt → Option AuthError
check_login_rate_limits cfg now username client_ip rows =
    let recent = select (within now (widest_window_s cfg)) rows in
    exceeded cfg client_ip (count (within now cfg.login_global_window_s) recent)
      (count (failure_from now cfg.login_per_ip_window_s client_ip) recent)
      (count (failure_of now cfg.login_per_user_window_s username (last_success username rows))
        recent)

-- The check raises RateLimited, or nothing.
pub check_login_rate_limits-cases :
    (cfg : AuthConfig) (now : ℕ) (username : String) (ip : Option String) (rows : List LoginAttempt)
    → (check_login_rate_limits cfg now username ip rows ≡ none)
      ⊎ ((cap : Cap) × (s : ℕ) × (check_login_rate_limits cfg now username ip rows
            ≡ some (rate_limited cap s)))
unfolding check_login_rate_limits
check_login_rate_limits-cases cfg now username ip rows =
    let recent = select (within now (widest_window_s cfg)) rows in
    elim (Bool-cases
      (leb cfg.login_global_max (count (within now cfg.login_global_window_s) recent))) [
        | inl e ↦ inr (global_cap, cfg.login_global_window_s, rw e refl)
        | inr e ↦
            elim (Bool-cases (
              is_some ip
              && leb cfg.login_per_ip_max
                  (count (failure_from now cfg.login_per_ip_window_s ip) recent))) [
                    | inl f ↦ inr (ip_cap, cfg.login_per_ip_window_s, rw (e, f) refl)
                    | inr f ↦
                        elim (Bool-cases (
                          leb cfg.login_per_user_max (
                            count
                              (failure_of now cfg.login_per_user_window_s username
                                (last_success username rows))
                              recent))) [
                                | inl g ↦
                                    inr (user_cap, cfg.login_per_user_window_s, rw (e, f, g) refl)
                                | inr g ↦ inl (rw (e, f, g) refl)
                              ]
                  ]
      ]

-- What the INSERT of an audit row comes to: a row; UndefinedTable or OperationalError, which is
-- reported by a warning; or any other error.
pub data AuditWrite : Type 0 where
  row_stored row_skipped write_raised : AuditWrite

-- The audit row, committed; none is the error that is raised again. The savepoint rolls back what
-- fails.
unfoldable pub record_login_attempt :
    AuditWrite → ℕ → String → Option String → LoginOutcome → Worker → Option Worker
record_login_attempt write_raised now username client_ip outcome w = none
record_login_attempt row_skipped now username client_ip outcome w = some w
record_login_attempt row_stored now username client_ip outcome w = some (
    commit (record w {
      pending = record w.pending {
        api_login_attempts =
            insert (record { username = username; ip = client_ip; outcome = outcome; ts = now })
              w.pending.api_login_attempts;
      };
    }))

-- ts < now() - make_interval(secs => retention_s)
abbrev pub is_expired : ℕ → ℕ → LoginAttempt → Bool
is_expired now retention_s a = ltb (a.ts + retention_s) now

-- `lock_free` is what pg_try_advisory_lock answers. The count of rows is read by no caller.
unfoldable pub sweep_login_attempts : Bool → ℕ → ℕ → AuthDb → AuthDb
sweep_login_attempts false now retention_s db = db
sweep_login_attempts true now retention_s db = record db {
  api_login_attempts = delete (is_expired now retention_s) db.api_login_attempts;
}

unfoldable pub maybe_sweep : Bool → AuthConfig → ℕ → ℕ → Worker → Worker
maybe_sweep lock_free cfg now monotonic w =
    if ltb monotonic (w.last_sweep_at + cfg.login_cleanup_interval_s)
    then w
    else commit (record w {
      last_sweep_at = monotonic;
      pending = sweep_login_attempts lock_free now cfg.login_attempt_retention_s w.pending;
    })
