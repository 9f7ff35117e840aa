-- ===== src/Oauth/Codes.antt =====
-- src/localmail/mcp/oauth/codes.py. `hash` is `hash_token`, and `now` the moment of the transaction.

pub mod SingleUse
use localmail.Common.{
  ℕ, if◌then◌else◌, str_eq, ltb, ◌+◌, String, Bool, true, false, ◌&&◌, Option, none, some, List,
}
use localmail.Oauth.Store.{Code, OauthDb, User, owner_valid}
use localmail.Common.Table.{exists, find, delete, insert}

pub record ConsumeResult : Type 0 where
  pub burned : Bool
  pub still_valid : Bool

abbrev pub has_code : String → Code → Bool
has_code sha c = str_eq c.code_sha256 sha

-- `none` is the violation of the primary key.
unfoldable pub mint_code :
    String
    → String
    → ℕ
    → String
    → Bool
    → String
    → List String
    → ℕ
    → ℕ
    → Option String
    → OauthDb
    → Option OauthDb
mint_code sha client_id user_id redirect_uri explicit challenge scopes now ttl_s resource db =
    if exists (has_code sha) db.codes
    then none
    else some (record db {
      codes =
          insert
            (record {
              code_sha256 = sha;
              client_id = client_id;
              user_id = user_id;
              redirect_uri = redirect_uri;
              redirect_uri_provided_explicitly = explicit;
              code_challenge = challenge;
              scopes = scopes;
              created_at = now;
              expires_at = now + ttl_s;
              resource = resource;
            })
            db.codes;
    })

-- WHERE code_sha256 = %s AND expires_at > now() AND the owner is valid
abbrev pub is_honoured : List User → String → ℕ → Code → Bool
is_honoured users sha now c =
    has_code sha c && ltb now c.expires_at && owner_valid users c.user_id c.created_at

unfoldable pub load_code : (String → String) → ℕ → OauthDb → String → Option Code
load_code hash now db raw = find (is_honoured db.users (hash raw) now) db.codes

-- The row that the CTE returns: the code is unexpired, and its owner is there and valid.
abbrev pub burn_result : List User → ℕ → Option Code → ConsumeResult
burn_result users now none = record { burned = false; still_valid = false }
burn_result users now (some c) = record {
  burned = true;
  still_valid = ltb now c.expires_at && owner_valid users c.user_id c.created_at;
}

unfoldable pub consume_code : (String → String) → ℕ → OauthDb → String → OauthDb × ConsumeResult
consume_code hash now db raw = (
  record db { codes = delete (has_code (hash raw)) db.codes },
  burn_result db.users now (find (has_code (hash raw)) db.codes),
)
