-- ===== src/Auth/Store.antt =====
-- The tables api_users, api_tokens and api_login_attempts, a worker's connection to them, the
-- settings of AuthConfig (0 or more), and the errors of src/localmail/api/errors.py that logins
-- and tokens raise, with UniqueViolation of Postgres. Moments and durations are in seconds.
use localmail.Common.{ℕ, String, Bool, Option, List, ◌&&◌, not, is_none}
use localmail.Oauth.Store.{User}

-- PRIMARY KEY (id), UNIQUE (username)
pub record ApiUser : Type 0 where
  pub id : ℕ
  pub username : String
  pub password_hash : String
  pub is_admin : Bool
  pub is_service : Bool
  pub disabled_at : Option ℕ
  pub sessions_invalidated_at : Option ℕ

-- PRIMARY KEY (token_sha256)
pub record ApiToken : Type 0 where
  pub token_sha256 : String
  pub user_id : ℕ
  pub created_at : ℕ
  pub last_used_at : Option ℕ
  pub expires_at : Option ℕ
  pub api_key_name : Option String

pub data LoginOutcome : Type 0 where
  success failure : LoginOutcome

pub record LoginAttempt : Type 0 where
  pub username : String
  pub ip : Option String
  pub outcome : LoginOutcome
  pub ts : ℕ

pub record AuthDb : Type 0 where
  pub api_users : List ApiUser
  pub api_tokens : List ApiToken
  pub api_login_attempts : List LoginAttempt

-- What is committed, what the open transaction sees, and `_LAST_SWEEP_AT_MONOTONIC`.
pub record Worker : Type 0 where
  pub committed : AuthDb
  pub pending : AuthDb
  pub last_sweep_at : ℕ

pub record AuthConfig : Type 0 where
  pub login_per_user_max : ℕ
  pub login_per_user_window_s : ℕ
  pub login_per_ip_max : ℕ
  pub login_per_ip_window_s : ℕ
  pub login_global_max : ℕ
  pub login_global_window_s : ℕ
  pub login_attempt_retention_s : ℕ
  pub login_cleanup_interval_s : ℕ

-- argon2 and SHA-256: `hash` is what the hasher answers for a password with the salt it draws.
pub record Crypto : Type 0 where
  pub hash : String → String
  pub verify : String → String → Bool
  pub sha256 : String → String
  pub dummy_password_hash : String

pub data Cap : Type 0 where
  global_cap ip_cap user_cap : Cap

pub data AuthError : Type 0 where
  rate_limited : Cap → ℕ → AuthError
  authentication_failed : AuthError
  invalid_token : AuthError
  session_credential_refused : AuthError
  validation_failed : AuthError
  value_error : AuthError
  unique_violation : AuthError
  database_error : AuthError
  not_found : AuthError

pub data AuthResult {ℓ} (A : Type ℓ) : Type ℓ where
  ok : A → AuthResult A
  err : AuthError → AuthResult A

-- The columns that `credential_valid_sql` reads.
abbrev pub principal : ApiUser → User
principal u = record {
  id = u.id;
  disabled_at = u.disabled_at;
  sessions_invalidated_at = u.sessions_invalidated_at;
}

-- `login_eligible_sql`
unfoldable pub login_eligible : ApiUser → Bool
login_eligible u = is_none u.disabled_at && not u.is_service

abbrev pub commit : Worker → Worker
commit w = record w { committed = w.pending }

abbrev pub rollback : Worker → Worker
rollback w = record w { pending = w.committed }

-- `with pool.connection()`: an exception rolls back, and the routes commit at the end of the body.
unfoldable pub with_connection {ℓ} : {A : Type ℓ} → Worker × AuthResult A → Worker × AuthResult A
with_connection (w, ok a) = (commit w, ok a)
with_connection (w, err e) = (rollback w, err e)
