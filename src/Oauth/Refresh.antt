-- ===== src/Oauth/Refresh.antt =====
-- src/localmail/mcp/oauth/refresh.py. `hash` is `hash_token` of src/localmail/api/auth.py, the raw
-- text of a new token is what `generate_token` draws, and `now` is the moment of the transaction.

pub mod Rotation
pub mod Replay
pub mod Successor
use localmail.Common.{
  ℕ, is_some, if◌then◌else◌, str_eq, ltb, ◌==◌, is_none, ◌+◌, String, Bool, true, false, ◌&&◌,
  Option, none, some, List,
}
use localmail.Oauth.Store.{OauthDb, RefreshToken, User, owner_valid}
use localmail.Common.Table.{exists, find, delete, update, insert, count}

pub data RotateResult : Type 0 where
  rotated : String → RotateResult
  reuse : ℕ → RotateResult
  unknown : RotateResult

-- What the other sessions commit between the statements of one rotation.
pub record Gaps : Type 0 where
  pub before_load : OauthDb → OauthDb
  pub before_claim : OauthDb → OauthDb
  pub before_reread : OauthDb → OauthDb

abbrev pub has_token : String → RefreshToken → Bool
has_token sha r = str_eq r.token_sha256 sha

abbrev pub in_family : ℕ → RefreshToken → Bool
in_family family_id r = r.family_id == family_id

-- `family_id` is the one that the caller gives, or else `fresh_family`, which the database draws;
-- `none` is the violation of the primary key.
unfoldable pub mint_refresh :
    String
    → String
    → ℕ
    → List String
    → ℕ
    → ℕ
    → Option ℕ
    → ℕ
    → Option String
    → OauthDb
    → Option OauthDb
mint_refresh sha client_id user_id scopes now ttl_s family_id fresh_family resource db =
    if exists (has_token sha) db.tokens
    then none
    else some (record db {
      tokens =
          insert
            (record {
              token_sha256 = sha;
              client_id = client_id;
              user_id = user_id;
              scopes = scopes;
              created_at = now;
              expires_at = now + ttl_s;
              family_id = elim family_id [ none ↦ fresh_family | some f ↦ f ];
              consumed_at = none;
              resource = resource;
            })
            db.tokens;
    })

-- WHERE token_sha256 = %s AND expires_at > now() AND consumed_at IS NULL AND the owner is valid
abbrev pub is_live : List User → String → ℕ → RefreshToken → Bool
is_live users sha now r =
    has_token sha r
    && ltb now r.expires_at
    && is_none r.consumed_at
    && owner_valid users r.user_id r.created_at

unfoldable pub load_refresh : (String → String) → ℕ → OauthDb → String → Option RefreshToken
load_refresh hash now db raw = find (is_live db.users (hash raw) now) db.tokens

unfoldable pub revoke_refresh : (String → String) → OauthDb → String → OauthDb × Bool
revoke_refresh hash db raw = (
  record db { tokens = delete (has_token (hash raw)) db.tokens },
  ltb 0 (count (has_token (hash raw)) db.tokens),
)

unfoldable pub raw_state : (String → String) → OauthDb → String → Option (ℕ × Bool)
raw_state hash db raw = elim (find (has_token (hash raw)) db.tokens) [
  | none ↦ none
  | some r ↦ some (r.family_id, is_some r.consumed_at)
]

-- The count that `_delete_family` and `sweep_consumed` return is read by no caller.
unfoldable pub delete_family : OauthDb → ℕ → OauthDb
delete_family db family_id = record db { tokens = delete (in_family family_id) db.tokens }

abbrev pub is_spent : ℕ → RefreshToken → Bool
is_spent now r = is_some r.consumed_at && ltb r.expires_at now

unfoldable pub sweep_consumed : ℕ → OauthDb → OauthDb
sweep_consumed now db = record db { tokens = delete (is_spent now) db.tokens }

-- WHERE token_sha256 = %s AND consumed_at IS NULL AND EXISTS a valid owner
abbrev pub is_claimable : List User → String → RefreshToken → Bool
is_claimable users sha r =
    has_token sha r && is_none r.consumed_at && owner_valid users r.user_id r.created_at

abbrev pub consume : ℕ → RefreshToken → RefreshToken
consume now r = record r { consumed_at = some now }

-- The claim, and whether its rowcount is 1.
unfoldable pub claim : String → ℕ → OauthDb → OauthDb × Bool
claim sha now db = (
  record db { tokens = update (is_claimable db.users sha) (consume now) db.tokens },
  count (is_claimable db.users sha) db.tokens == 1,
)

-- The claim missed: consumed by another session, or revoked.
abbrev pub after_miss : OauthDb → ℕ → Option (ℕ × Bool) → OauthDb × RotateResult
after_miss db family_id (some (f, true)) = (delete_family db family_id, reuse family_id)
after_miss db family_id (some (f, false)) = (db, unknown)
after_miss db family_id none = (db, unknown)

abbrev pub swept : ℕ → String → Option OauthDb → Option (OauthDb × RotateResult)
swept now new none = none
swept now new (some db) = some (sweep_consumed now db, rotated new)

module _ (hash : String → String) (gaps : Gaps) (now : ℕ) (raw new : String) (ttl_s : ℕ) where
  abbrev pub after_claim : RefreshToken → OauthDb × Bool → Option (OauthDb × RotateResult)
  after_claim row (db, true) = swept now new (
      mint_refresh (hash new) row.client_id row.user_id row.scopes now ttl_s (some row.family_id)
        row.family_id row.resource db)
  after_claim row (db, false) =
      let db' = gaps.before_reread db in
      some (after_miss db' row.family_id (raw_state hash db' raw))

  abbrev pub after_load : OauthDb → Option RefreshToken → Option (OauthDb × RotateResult)
  after_load db none = some (db, unknown)
  after_load db (some row) = after_claim row (claim (hash raw) now (gaps.before_claim db))

  abbrev pub after_state : OauthDb → Option (ℕ × Bool) → Option (OauthDb × RotateResult)
  after_state db none = some (db, unknown)
  after_state db (some (family_id, true)) = some (delete_family db family_id, reuse family_id)
  after_state db (some (family_id, false)) =
      let db' = gaps.before_load db in after_load db' (load_refresh hash now db' raw)

  -- `none` where the new token has the hash of a stored one, so that its INSERT raises.
  unfoldable pub rotate_refresh : OauthDb → Option (OauthDb × RotateResult)
  rotate_refresh db = after_state db (raw_state hash db raw)
