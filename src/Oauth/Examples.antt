-- ===== src/Oauth/Examples.antt =====
-- Rotations and burns on a small store.
use localmail.Common.{is_some, String, ◌≡◌, refl, true, false, none, some, [], ◌∷◌, arith}
use localmail.Oauth.Store.{OauthDb, User, RefreshToken, Code, credential_valid, owner_valid}
use localmail.Common.Table.{select, find, delete, update, count}
use localmail.Oauth.Refresh.{
  Gaps, rotate_refresh, rotated, delete_family, load_refresh, mint_refresh, raw_state,
  sweep_consumed, claim,
}
use localmail.Oauth.Codes.{consume_code, load_code, has_code}
use localmail.Oauth.Refresh.Successor.{quiet, successor, rotate_refresh-load_refresh}
use localmail.Oauth.Codes.SingleUse.{consume_code-load_code}
use localmail.Oauth.Refresh.Rotation.{mints, rotate_refresh-revoked}
use localmail.Oauth.Refresh.Replay.{rotated_rows}

program : Unit {0}
unfolding select find delete update count credential_valid owner_valid mint_refresh load_refresh
    raw_state delete_family sweep_consumed claim rotate_refresh load_code consume_code
program = tt

abbrev hash : String → String
hash s = s

abbrev user : User
user = record { id = 1; disabled_at = none; sessions_invalidated_at = none }

abbrev token : RefreshToken
token = record {
  token_sha256 = "a";
  client_id = "app";
  user_id = 1;
  scopes = [];
  created_at = 10;
  expires_at = 100;
  family_id = 7;
  consumed_at = none;
  resource = none;
}

abbrev unrelated : RefreshToken
unrelated = record token { token_sha256 = "z"; family_id = 8 }

abbrev code : Code
code = record {
  code_sha256 = "c";
  client_id = "app";
  user_id = 1;
  redirect_uri = "http://localhost";
  redirect_uri_provided_explicitly = true;
  code_challenge = "x";
  scopes = [];
  created_at = 10;
  expires_at = 70;
  resource = none;
}

abbrev store : OauthDb
store = record { users = user ∷ []; tokens = token ∷ unrelated ∷ []; codes = code ∷ [] }

-- The operator revokes the user's sessions between the load and the claim.
abbrev revoking : Gaps
revoking = record quiet {
  before_claim = λ db. record db { users = record user { sessions_invalidated_at = some 20 } ∷ [] };
}

rotate_refresh-revoked_example : mints (rotate_refresh hash revoking 30 "a" "b" 50 store) ≡ false
unfolding program
rotate_refresh-revoked_example =
    rotate_refresh-revoked hash revoking 30 "a" "b" 50 store (omega arith) refl

abbrev rotated_store : OauthDb
rotated_store = record store {
  tokens = rotated_rows store.users "a" 30 (successor hash 30 "a" "b" 50 token) store.tokens;
}

rotate_refresh-load_refresh_example :
    (db' : OauthDb) × (rotate_refresh hash quiet 30 "a" "b" 50 store ≡ some (db', rotated "b"))
    × (load_refresh hash 30 db' "b" ≡ some (successor hash 30 "a" "b" 50 token))
unfolding program
rotate_refresh-load_refresh_example =
    rotate_refresh-load_refresh hash 30 "a" "b" 50 store token refl refl refl (omega arith)
      (omega arith)

consume_code-load_code_example :
    ((consume_code hash 30 store "c").1.still_valid ≡ is_some (load_code hash 30 store "c"))
    × (load_code hash 40 (consume_code hash 30 store "c").0 "c" ≡ none)
    × ((consume_code hash 40 (consume_code hash 30 store "c").0 "c").1
        ≡ record { burned = false; still_valid = false })
    × (find (has_code "e") (consume_code hash 30 store "c").0.codes
        ≡ find (has_code "e") store.codes)
unfolding program
consume_code-load_code_example = consume_code-load_code hash 30 40 store "c" "e" (omega arith) refl
