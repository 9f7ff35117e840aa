-- ===== src/Auth/Examples.antt =====
-- Logins, a refresh and a sequence of requests on a small database.
use mathlib.Core.Path.{subst}
use localmail.Common.{
  ℕ, String, ◌≡◌, refl, true, false, none, some, [], ◌∷◌, arith, str_eq, ◌≤◌, ◌<◌, str_eq_iff,
  Bool-cases, inl, inr, ◌⊎◌,
}
use localmail.Auth.Store.{
  err, authentication_failed, rate_limited, ok, rollback, with_connection, Cap, login_eligible,
  ApiUser, ApiToken, AuthDb, Worker, AuthConfig, Crypto,
}
use localmail.Oauth.Store.{credential_valid}
use localmail.Common.Table.{select, find, delete, update, count}
use localmail.Auth.Limits.{
  row_stored, last_success, check_login_rate_limits, record_login_attempt, sweep_login_attempts,
  maybe_sweep,
}
use localmail.Auth.Tokens.{
  issue_token, verify_token, whoami, logout, refresh_token, has_id, AuthenticatedUser, has_sha,
  is_key,
}
use localmail.Auth.Login.{login, login_route, Request}
use localmail.Auth.Login.Lockout.{serve_all, answers, login_route-locks_out, IsTimely}
use localmail.Auth.Login.Audit.{Audited, login_route-Audited}
use localmail.Auth.Keys.Sequence.{on_db, Reach-IsSound, more, start, refreshed, Reach, WasRevoked}
use localmail.Auth.Keys.{IsSound, is_orphan}
use localmail.Auth.Tokens.Refresh.{refresh_token-verify_token}

program : Unit {0}
unfolding select find delete update count login_eligible with_connection last_success
    check_login_rate_limits record_login_attempt sweep_login_attempts maybe_sweep issue_token
    verify_token whoami logout refresh_token login login_route serve_all answers credential_valid
program = tt

-- A hasher that gives back the text.
abbrev crypto : Crypto
crypto = record {
  hash = λ password. password;
  verify = λ password stored. str_eq password stored;
  sha256 = λ token. token;
  dummy_password_hash = "none";
}

abbrev cfg : AuthConfig
cfg = record {
  login_per_user_max = 2;
  login_per_user_window_s = 60;
  login_per_ip_max = 20;
  login_per_ip_window_s = 60;
  login_global_max = 30;
  login_global_window_s = 60;
  login_attempt_retention_s = 100;
  login_cleanup_interval_s = 10;
}

abbrev ann : ApiUser
ann = record {
  id = 1;
  username = "ann";
  password_hash = "secret";
  is_admin = false;
  is_service = false;
  disabled_at = none;
  sessions_invalidated_at = none;
}

abbrev bot : ApiUser
bot = record ann { id = 2; username = "bot"; is_service = true }

abbrev held : ApiToken
held = record {
  token_sha256 = "held";
  user_id = 1;
  created_at = 10;
  last_used_at = none;
  expires_at = some 5000;
  api_key_name = none;
}

abbrev key : ApiToken
key = record held {
  token_sha256 = "key";
  user_id = 2;
  expires_at = none;
  api_key_name = some "bot";
}

abbrev db : AuthDb
db = record { api_users = ann ∷ bot ∷ []; api_tokens = held ∷ key ∷ []; api_login_attempts = [] }

abbrev worker : Worker
worker = record { committed = db; pending = db; last_sweep_at = 0 }

abbrev request : Request
request = record {
  username = "ann";
  password = "guess";
  client_ip = none;
  checked = 1000;
  swept = 1001;
  minted = 1001;
  clock = 1001;
  monotonic = 50;
  fresh = "new";
  check_raises = false;
  lookup_raises = false;
  write = row_stored;
  lock_free = true;
}

abbrev right : Request
right = record request { password = "secret"; checked = 1005; swept = 1005 }

wrong_password : (login_route crypto cfg request worker).1 ≡ err authentication_failed
unfolding program
wrong_password = refl

login_route-Audited_example : Audited crypto cfg right db (login_route crypto cfg right worker)
unfolding program
login_route-Audited_example = login_route-Audited crypto cfg right worker refl

timely : IsTimely crypto cfg 900 right.checked request
timely = (omega arith, omega arith, omega arith, refl)

login_route-locks_out_example :
    (cap : Cap) × (s : ℕ) × (login_route crypto cfg right
        (serve_all crypto cfg (request ∷ request ∷ []) worker)
      ≡ (rollback (serve_all crypto cfg (request ∷ request ∷ []) worker), err (rate_limited cap s)))
unfolding program
login_route-locks_out_example =
    login_route-locks_out crypto cfg (request ∷ request ∷ []) right 900 worker refl refl
      (omega arith) (timely, (timely, tt)) refl refl (omega arith)

ids : (id : ℕ) → count (has_id id) db.api_users ≤ 1
unfolding program
ids id = ground arith

refresh_token-verify_token_example :
    (db' : AuthDb) × (user : AuthenticatedUser) × (refresh_token crypto 20 20 "new" "held" db
      ≡ (db', ok ("new", 2592020)))
    × ((verify_token crypto 20 "held" db).1 ≡ some user)
    × ((later : ℕ) → later < 2592020 → (verify_token crypto later "new" db').1 ≡ some user)
    × ((later : ℕ) → (verify_token crypto later "held" db').1 ≡ none)
unfolding program
refresh_token-verify_token_example =
    refresh_token-verify_token crypto 20 20 "new" "held" db held ids refl refl refl refl
      (omega arith)

shas : (sha : String) → count (has_sha sha) db.api_tokens ≤ 1
unfolding program
shas sha = elim (Bool-cases (str_eq "held" sha)) [
  | inl e ↦
      subst (λ x. count (has_sha x) db.api_tokens ≤ 1) ((str_eq_iff "held" sha).0 e) (omega arith)
  | inr e ↦ ground (arith, e)
]

orphans : count (is_orphan db.api_users) db.api_tokens ≡ 0
unfolding program
orphans = refl

abbrev after_refresh : Worker
after_refresh = (with_connection (on_db (refresh_token crypto 20 20 "new" "held") worker)).0

abbrev one_refresh : Reach crypto cfg worker after_refresh
one_refresh = more worker after_refresh start (refreshed 20 20 "new" "held" refl)

Reach-IsSound_example :
    IsSound after_refresh.committed
    × ((sha : String)
        → (count (is_key sha) after_refresh.committed.api_tokens ≡ count (is_key sha) db.api_tokens)
          ⊎ WasRevoked crypto cfg worker after_refresh one_refresh sha)
Reach-IsSound_example =
    Reach-IsSound crypto cfg worker after_refresh one_refresh refl (shas, orphans, ids)
