-- ===== src/Oauth/Store.antt =====
-- The tables api_users, oauth_refresh_tokens and oauth_authorization_codes, with the columns that
-- the statements read, and `credential_valid_sql` of src/localmail/api/revocation_sql.py. Moments
-- and lifetimes are in seconds.
use localmail.Common.{
  ℕ, leb, is_none, ◌==◌, String, Bool, true, ◌&&◌, Option, none, some, List, Option-cases, ◌≤◌, ◌≡◌,
  inl, inr, arith,
}
use localmail.Common.Table.{exists}

pub record User : Type 0 where
  pub id : ℕ
  pub disabled_at : Option ℕ
  pub sessions_invalidated_at : Option ℕ

-- PRIMARY KEY (token_sha256)
pub record RefreshToken : Type 0 where
  pub token_sha256 : String
  pub client_id : String
  pub user_id : ℕ
  pub scopes : List String
  pub created_at : ℕ
  pub expires_at : ℕ
  pub family_id : ℕ
  pub consumed_at : Option ℕ
  pub resource : Option String

-- PRIMARY KEY (code_sha256)
pub record Code : Type 0 where
  pub code_sha256 : String
  pub client_id : String
  pub user_id : ℕ
  pub redirect_uri : String
  pub redirect_uri_provided_explicitly : Bool
  pub code_challenge : String
  pub scopes : List String
  pub created_at : ℕ
  pub expires_at : ℕ
  pub resource : Option String

pub record OauthDb : Type 0 where
  pub users : List User
  pub tokens : List RefreshToken
  pub codes : List Code

-- `credential_valid_sql` for a user and the `created_at` of a credential
unfoldable pub credential_valid : User → ℕ → Bool
credential_valid user created_at =
    is_none user.disabled_at
    && elim user.sessions_invalidated_at [ none ↦ true | some cutoff ↦ leb cutoff created_at ]

-- JOIN api_users u ON u.id = user_id, with `credential_valid_sql`
unfoldable pub owner_valid : List User → ℕ → ℕ → Bool
owner_valid users user_id created_at =
    exists (λ u. u.id == user_id && credential_valid u created_at) users

-- A later credential is honoured where an earlier one of the same user is.
pub credential_valid_later :
    (u : User) (t t' : ℕ) → t ≤ t' → credential_valid u t ≡ true → credential_valid u t' ≡ true
unfolding credential_valid
credential_valid_later u t t' le h = elim (Option-cases u.sessions_invalidated_at) [
  | inl e ↦ ground (arith, e)
  | inr (cutoff, e) ↦ ground (arith, e)
]
