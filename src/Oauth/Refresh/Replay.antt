-- ===== src/Oauth/Refresh/Replay.antt =====
-- What a replay of a rotated refresh token does.
use localmail.Common.{ℕ, ◌==◌, String, ◌≡◌, true, false, Option, none, some, List}
use localmail.Oauth.Refresh.{
  RotateResult, rotated, reuse, unknown, OauthDb, count, User, RefreshToken, is_claimable, is_spent,
  has_token, consume,
}
use localmail.Oauth.Store.{OauthDb, User, RefreshToken}
use localmail.Common.Table.{count, exists, delete, insert, update}

-- The rows of a rotation that minted `s`, from those at its claim.
abbrev pub rotated_rows :
    List User → String → ℕ → RefreshToken → List RefreshToken → List RefreshToken
rotated_rows users sha now s rows =
    delete (is_spent now) (insert s (update (is_claimable users sha) (consume now) rows))

-- What an outcome says of the state `c` at the claim: a new token means that exactly one row was
-- claimed, and it is the only row that is new.
abbrev Claimed : String → ℕ → OauthDb → Option (OauthDb × RotateResult) → Type 0
Claimed sha now c none = Unit
Claimed sha now c (some (db, reuse f)) = Unit
Claimed sha now c (some (db, unknown)) = Unit
Claimed sha now c (some (db, rotated t)) =
    ((count (is_claimable c.users sha) c.tokens == 1) ≡ true)
    × (s : RefreshToken) × (exists (has_token s.token_sha256) c.tokens ≡ false)
    × (db.tokens ≡ rotated_rows c.users sha now s c.tokens)
