-- ===== src/Auth/Login.antt =====
-- `login` of src/localmail/api/auth.py, and its route, which rolls back what `login` has not
-- committed when it raises. Other workers do not commit in between.
pub mod Audit
pub mod Lockout
use localmail.Common.{ℕ, String, str_eq, Bool, Option, none, some, ◌&&◌, if◌then◌else◌, true}
use localmail.Common.Table.{find}
use localmail.Auth.Store.{
  ApiUser, AuthDb, Worker, AuthConfig, Crypto, AuthError, AuthResult, ok, err,
  authentication_failed, database_error, LoginOutcome, success, failure, login_eligible,
  with_connection,
}
use localmail.Auth.Limits.{AuditWrite, check_login_rate_limits, record_login_attempt, maybe_sweep}
use localmail.Auth.Tokens.{issue_token}

-- One request: what the client sends, the moments of the three transactions and of the two clocks
-- of the process, what is drawn, and what Postgres answers: whether one of the two
-- queries raises (such as DataError on a username with a NUL), what becomes of the audit row, and
-- whether the lock of the sweep is free. The sweep raises nothing, and the INSERT of the token nothing
-- but a UniqueViolation.
pub record Request : Type 0 where
  pub username : String
  pub password : String
  pub client_ip : Option String
  pub checked : ℕ
  pub swept : ℕ
  pub minted : ℕ
  pub clock : ℕ
  pub monotonic : ℕ
  pub fresh : String
  pub check_raises : Bool
  pub lookup_raises : Bool
  pub write : AuditWrite
  pub lock_free : Bool

-- WHERE username = %s AND the user may identify a password
abbrev pub may_login : String → ApiUser → Bool
may_login username u = str_eq u.username username && login_eligible u

module _ (crypto : Crypto) (cfg : AuthConfig) (r : Request) where
  -- The audit row and the sweep.
  abbrev pub swept_after : Option Worker → Option Worker
  swept_after none = none
  swept_after (some w) = some (maybe_sweep r.lock_free cfg r.swept r.monotonic w)

  abbrev pub audit : LoginOutcome → Worker → Option Worker
  audit outcome w =
      swept_after (record_login_attempt r.write r.checked r.username r.client_ip outcome w)

  abbrev pub store_token :
      Worker → AuthDb × AuthResult (String × ℕ) → Worker × AuthResult (String × ℕ)
  store_token w (db, result) = (record w { pending = db }, result)

  abbrev pub mint : ApiUser → Worker → Worker × AuthResult (String × ℕ)
  mint row w = store_token w (issue_token crypto r.minted r.clock r.fresh row.id w.pending)

  -- `w` is the worker before the audit row.
  abbrev pub refused : Worker → Option Worker → Worker × AuthResult (String × ℕ)
  refused w none = (w, err database_error)
  refused w (some w') = (w', err authentication_failed)

  abbrev pub minted_after : ApiUser → Worker → Option Worker → Worker × AuthResult (String × ℕ)
  minted_after row w none = (w, err database_error)
  minted_after row w (some w') = mint row w'

  abbrev pub refuse : Worker → Worker × AuthResult (String × ℕ)
  refuse w = refused w (audit failure w)

  abbrev pub after_lookup : Option ApiUser → Worker → Worker × AuthResult (String × ℕ)
  after_lookup none w = refuse w
  after_lookup (some row) w =
      if crypto.verify r.password row.password_hash
      then minted_after row w (audit success w)
      else refuse w

  abbrev pub after_check : Option AuthError → Worker → Worker × AuthResult (String × ℕ)
  after_check (some e) w = (w, err e)
  after_check none w =
      if r.lookup_raises
      then (w, err database_error)
      else after_lookup (find (may_login r.username) w.pending.api_users) w

  unfoldable pub login : Worker → Worker × AuthResult (String × ℕ)
  login w =
      if r.check_raises
      then (w, err database_error)
      else after_check
          (check_login_rate_limits cfg r.checked r.username r.client_ip
            w.pending.api_login_attempts)
          w

  -- The route POST /v1/auth/login
  unfoldable pub login_route : Worker → Worker × AuthResult (String × ℕ)
  login_route w = with_connection (login w)
