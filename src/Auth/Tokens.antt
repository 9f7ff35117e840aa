-- ===== src/Auth/Tokens.antt =====
-- The session tokens and API keys of src/localmail/api/auth.py, with the access tokens of
-- src/localmail/mcp/oauth/access.py and the revocation of src/localmail/api/admin/api_keys.py. `fresh`
-- is what `generate_token`
-- draws; the clock of the process, which sets `expires_at`, and the moment `now` of the transaction
-- are two arguments.
pub mod Refresh
use localmail.Common.{
  ℕ, ltb, ◌==◌, String, str_eq, Bool, true, false, ◌&&◌, ◌||◌, not, Option, none, some, List, ◌+◌,
  ◌*◌, is_none, is_some, if◌then◌else◌,
}
use localmail.Common.Table.{find, exists, delete, update, insert, select}
use localmail.Oauth.Store.{credential_valid}
use localmail.Auth.Store.{
  ApiUser, ApiToken, AuthDb, Crypto, AuthError, AuthResult, ok, err, invalid_token,
  session_credential_refused, validation_failed, value_error, authentication_failed, principal,
  login_eligible, unique_violation, not_found,
}

pub record AuthenticatedUser : Type 0 where
  pub id : ℕ
  pub username : String
  pub is_admin : Bool
  pub is_api_key : Bool

abbrev pub token_ttl_days : ℕ
token_ttl_days = 30

abbrev pub last_used_refresh_seconds : ℕ
last_used_refresh_seconds = 60

abbrev pub has_id : ℕ → ApiUser → Bool
has_id user_id u = u.id == user_id

abbrev pub has_username : String → ApiUser → Bool
has_username username u = str_eq u.username username

abbrev pub has_sha : String → ApiToken → Bool
has_sha sha t = str_eq t.token_sha256 sha

-- WHERE id = %s AND is_service IS FALSE
abbrev pub mints_for : ℕ → ApiUser → Bool
mints_for user_id u = has_id user_id u && not u.is_service

abbrev pub session : String → ℕ → ℕ → ℕ → ApiToken
session sha user_id now expires_at = record {
  token_sha256 = sha;
  user_id = user_id;
  created_at = now;
  last_used_at = none;
  expires_at = some expires_at;
  api_key_name = none;
}

-- The rows of the INSERT are those of the SELECT, one at most since `id` is the primary key.
unfoldable pub issue_token : Crypto → ℕ → ℕ → String → ℕ → AuthDb → AuthDb × AuthResult (String × ℕ)
issue_token crypto now clock fresh user_id db =
    let expires_at = clock + token_ttl_days * 86400 in
    if not (exists (mints_for user_id) db.api_users)
    then (db, err session_credential_refused)
    else if exists (has_sha (crypto.sha256 fresh)) db.api_tokens
    then (db, err unique_violation)
    else (
      record db {
        api_tokens = insert (session (crypto.sha256 fresh) user_id now expires_at) db.api_tokens;
      },
      ok (fresh, expires_at),
    )

abbrev pub unexpired : ℕ → Option ℕ → Bool
unexpired now none = true
unexpired now (some t) = ltb now t

-- The owner of a token that the JOIN finds.
abbrev pub honours : ApiToken → ApiUser → Bool
honours t u = u.id == t.user_id && credential_valid (principal u) t.created_at

abbrev pub is_current : List ApiUser → String → ℕ → ApiToken → Bool
is_current users sha now t = has_sha sha t && unexpired now t.expires_at && exists (honours t) users

abbrev pub is_stale : ℕ → Option ℕ → Bool
is_stale now none = true
is_stale now (some t) = ltb (t + last_used_refresh_seconds) now

abbrev pub touches : String → ℕ → ApiToken → Bool
touches sha now t = has_sha sha t && is_stale now t.last_used_at

abbrev pub touch : ℕ → ApiToken → ApiToken
touch now t = record t { last_used_at = some now }

abbrev pub identity : ApiToken → ApiUser → AuthenticatedUser
identity t u = record {
  id = u.id;
  username = u.username;
  is_admin = u.is_admin;
  is_api_key = is_some t.api_key_name;
}

abbrev pub identified : ApiToken → Option ApiUser → Option AuthenticatedUser
identified t none = none
identified t (some u) = some (identity t u)

-- The user that `row` names: the columns of the JOIN.
abbrev pub joined : List ApiUser → Option ApiToken → Option AuthenticatedUser
joined users none = none
joined users (some t) = identified t (find (honours t) users)

abbrev pub touched : String → ℕ → Option AuthenticatedUser → AuthDb → AuthDb
touched sha now none db = db
touched sha now (some user) db = record db {
  api_tokens = update (touches sha now) (touch now) db.api_tokens;
}

unfoldable pub verify_token : Crypto → ℕ → String → AuthDb → AuthDb × Option AuthenticatedUser
verify_token crypto now raw db =
    let sha = crypto.sha256 raw in
    let user = joined db.api_users (find (is_current db.api_users sha now) db.api_tokens) in
    (touched sha now user db, user)

abbrev pub identify : AuthDb × Option AuthenticatedUser → AuthDb × AuthResult AuthenticatedUser
identify (db, none) = (db, err invalid_token)
identify (db, some user) = (db, ok user)

unfoldable pub whoami : Crypto → ℕ → String → AuthDb → AuthDb × AuthResult AuthenticatedUser
whoami crypto now raw db = identify (verify_token crypto now raw db)

abbrev pub is_session : String → ApiToken → Bool
is_session sha t = has_sha sha t && is_none t.api_key_name

abbrev pub is_key : String → ApiToken → Bool
is_key sha t = has_sha sha t && is_some t.api_key_name

unfoldable pub logout : Crypto → String → AuthDb → AuthDb × AuthResult (Unit {0})
logout crypto raw db =
    let sha = crypto.sha256 raw in
    if exists (is_session sha) db.api_tokens
    then (record db { api_tokens = delete (is_session sha) db.api_tokens }, ok tt)
    else if exists (is_key sha) db.api_tokens
    then (db, err session_credential_refused)
    else (db, ok tt)

-- The DELETE after the mint.
abbrev pub replace : String → AuthDb × AuthResult (String × ℕ) → AuthDb × AuthResult (String × ℕ)
replace sha (db, err e) = (db, err e)
replace sha (db, ok minted) =
    (record db { api_tokens = delete (has_sha sha) db.api_tokens }, ok minted)

module _ (crypto : Crypto) (now clock : ℕ) (fresh raw : String) where
  abbrev pub renew : AuthDb × Option AuthenticatedUser → AuthDb × AuthResult (String × ℕ)
  renew (db, none) = (db, err invalid_token)
  renew (db, some user) =
      if user.is_api_key
      then (db, err session_credential_refused)
      else replace (crypto.sha256 raw) (issue_token crypto now clock fresh user.id db)

  unfoldable pub refresh_token : AuthDb → AuthDb × AuthResult (String × ℕ)
  refresh_token db = renew (verify_token crypto now raw db)

-- WHERE id = %s AND the user may identify a password
abbrev pub may_change : ℕ → ApiUser → Bool
may_change user_id u = has_id user_id u && login_eligible u

abbrev pub set_password : String → ApiUser → ApiUser
set_password password_hash u = record u { password_hash = password_hash }

module _ (crypto : Crypto) where
  abbrev pub changed :
      ℕ → String → String → Option ApiUser → AuthDb → AuthDb × AuthResult (Unit {0})
  changed user_id old_password new_password none db = (db, err authentication_failed)
  changed user_id old_password new_password (some row) db =
      if crypto.verify old_password row.password_hash
      then (
        record db {
          api_users =
              update (has_id user_id) (set_password (crypto.hash new_password)) db.api_users;
        },
        ok tt,
      )
      else (db, err authentication_failed)

  unfoldable pub change_password : ℕ → String → String → AuthDb → AuthDb × AuthResult (Unit {0})
  change_password user_id old_password new_password db =
      if str_eq new_password ""
      then (db, err validation_failed)
      else changed user_id old_password new_password (find (may_change user_id) db.api_users) db

  -- `fresh_id` is what the sequence of `id` draws, and the columns not given have their defaults.
  unfoldable pub create_user : ℕ → String → String → AuthDb → AuthDb × AuthResult ℕ
  create_user fresh_id username password db =
      if str_eq password ""
      then (db, err value_error)
      else if exists (has_username username) db.api_users
      then (db, err unique_violation)
      else (
        record db {
          api_users =
              insert
                (record {
                  id = fresh_id;
                  username = username;
                  password_hash = crypto.hash password;
                  is_admin = false;
                  is_service = false;
                  disabled_at = none;
                  sessions_invalidated_at = none;
                })
                db.api_users;
        },
        ok fresh_id,
      )

  -- `mint_access` of src/localmail/mcp/oauth/access.py, less the columns of OAuth
  unfoldable pub mint_access : ℕ → String → ℕ → ℕ → AuthDb → AuthDb × AuthResult String
  mint_access now fresh user_id ttl_s db =
      if not (exists (mints_for user_id) db.api_users)
      then (db, err session_credential_refused)
      else if exists (has_sha (crypto.sha256 fresh)) db.api_tokens
      then (db, err unique_violation)
      else (
        record db {
          api_tokens =
              insert (session (crypto.sha256 fresh) user_id now (now + ttl_s)) db.api_tokens;
        },
        ok fresh,
      )

-- WHERE t.user_id = %s AND EXISTS (SELECT ... WHERE u.id = t.user_id AND u.is_service IS TRUE)
abbrev pub is_service_token : List ApiUser → ℕ → ApiToken → Bool
is_service_token users user_id t =
    t.user_id == user_id && exists (λ u. has_id user_id u && u.is_service) users

-- `revoke_key` of src/localmail/api/admin/api_keys.py
unfoldable pub revoke_key : ℕ → AuthDb → AuthDb × AuthResult (Unit {0})
revoke_key user_id db =
    if exists (is_service_token db.api_users user_id) db.api_tokens
    then (
      record db { api_tokens = delete (is_service_token db.api_users user_id) db.api_tokens },
      ok tt,
    )
    else (db, err not_found)
