-- ===== src/Auth/Tokens/Refresh.antt =====
-- What a token is good for after it is exchanged.
use text.Mathlib.TextPositions.{eq_refl}
use localmail.Common.{
  ℕ, String, true, false, arith, none, some, refl, inl, inr, ◌≡◌, Option-cases, Option, List,
  is_some, ap, ◌+◌, ◌*◌, ◌≤◌, ◌<◌, Bool, [], ◌∷◌, str_eq_iff, Bool-cases, str_eq, ◌∙◌,
}
use localmail.Auth.Store.{ApiUser, ApiToken, Crypto, AuthDb, ok, principal}
use localmail.Auth.Tokens.{
  AuthenticatedUser, joined, find, honours, identity, identified, is_current, is_session, delete,
  exists, has_sha, insert, token_ttl_days, session, update, touches, touch, refresh_token,
  verify_token, has_id, issue_token, mints_for,
}
use localmail.Common.Table.{find, count, delete, exists, insert, update}
use localmail.Common.Table.Laws.{
  find_sound, find_exists, find-delete_spared, find-append, find_narrower, exists-update,
  find-delete-none,
}
use localmail.Common.Table.Counts.{count-exists}
use localmail.Oauth.Store.{credential_valid_later}

-- The rows behind a user that `verify_token` gives.
pub joined-some :
    (users : List ApiUser) (o : Option ApiToken) (user : AuthenticatedUser)
    → joined users o ≡ some user
    → (t : ApiToken) × (u : ApiUser) × (o ≡ some t)
      × (find (honours t) users ≡ some u)
      × (user ≡ identity t u)
joined-some users none user h = ground arith
joined-some users (some t) user h = elim (Option-cases (find (honours t) users)) [
  | inl e ↦ ground (arith, e)
  | inr (u, e) ↦ (t, u, refl, e, cc (ap (identified t) e, h))
]

-- A user who is not an API key has presented a session token.
pub live-session :
    (users : List ApiUser) (sha : String) (now : ℕ) (t : ApiToken) (u : ApiUser)
    (user : AuthenticatedUser)
    → is_current users sha now t ≡ true
    → user ≡ identity t u
    → user.is_api_key ≡ false
    → is_session sha t ≡ true
live-session users sha now t u user live e k = elim (Option-cases t.api_key_name) [
  | inl n ↦ ground (arith, n)
  | inr (name, n) ↦ ground (arith, ap (λ x. x.is_api_key) e, ap is_some n)
]

-- Under a unique key, the row found by one condition is found by another that it has.
find_same {ℓ} :
    {A : Type ℓ} (key p q : A → Bool) (rows : List A) (r : A)
    → ((x : A) → p x ≡ true → key x ≡ true)
    → ((x : A) → q x ≡ true → key x ≡ true)
    → count key rows ≤ 1
    → find p rows ≡ some r
    → q r ≡ true
    → find q rows ≡ some r
unfolding find count
find_same key p q [] r hp hq one h k = ground arith
find_same key p q (x ∷ rows) r hp hq one h k = ground (
  arith,
  hp x,
  hq x,
  hp r,
  find_sound p rows r,
  count-exists key rows,
  find_exists p key rows r,
  find_same key p q rows r hp hq,
)

module _ (crypto : Crypto) (now clock : ℕ) (fresh raw : String) where
  -- The store after a refresh by a session token.
  abbrev pub exchanged : List ApiToken → ApiUser → List ApiToken
  exchanged rows u = delete (has_sha (crypto.sha256 raw)) (
      insert (session (crypto.sha256 fresh) u.id now (clock + token_ttl_days * 86400))
        (update (touches (crypto.sha256 raw) now) (touch now) rows))

  -- The new token is found.
  find-exchanged :
      (users : List ApiUser) (rows : List ApiToken) (t : ApiToken) (u : ApiUser) (later : ℕ)
      → find (is_current users (crypto.sha256 raw) now) rows ≡ some t
      → exists (has_sha (crypto.sha256 fresh)) rows ≡ false
      → later < clock + token_ttl_days * 86400
      → find
          (honours (session (crypto.sha256 fresh) u.id now (clock + token_ttl_days * 86400)))
          users
        ≡ some u
      → find (is_current users (crypto.sha256 fresh) later) (exchanged rows u)
        ≡ some (session (crypto.sha256 fresh) u.id now (clock + token_ttl_days * 86400))
  unfolding find
  find-exchanged users rows t u later found free alive owner =
      let s = session (crypto.sha256 fresh) u.id now (clock + token_ttl_days * 86400) in
      let rows' = update (touches (crypto.sha256 raw) now) (touch now) rows in
      find-delete_spared (is_current users (crypto.sha256 fresh) later)
        (has_sha (crypto.sha256 raw)) (insert s rows') s
        (rw
          (
            find-append (is_current users (crypto.sha256 fresh) later) rows' (s ∷ []),
            find_narrower (has_sha (crypto.sha256 fresh))
                (is_current users (crypto.sha256 fresh) later) rows' (λ x k. ground arith)
                (exists-update (has_sha (crypto.sha256 fresh)) (touches (crypto.sha256 raw) now)
                    (touch now) rows (λ x. refl)
                  ∙ free),
          )
          (ground (arith, eq_refl (crypto.sha256 fresh), owner)))
        (elim (Bool-cases (str_eq (crypto.sha256 fresh) (crypto.sha256 raw))) [
          | inl e ↦
              let same : exists (has_sha (crypto.sha256 raw)) rows ≡ true =
                find_exists (is_current users (crypto.sha256 raw) now) (has_sha (crypto.sha256 raw))
                  rows t found
                  (let live = find_sound (is_current users (crypto.sha256 raw) now) rows t found in
                    ground arith) in
              absurd (
                cc (
                  ap (λ x. exists (has_sha x) rows)
                      ((str_eq_iff (crypto.sha256 fresh) (crypto.sha256 raw)).0 e),
                  same,
                  free,
                ))
          | inr e ↦ e
        ])

  -- The refresh of a session token that is honoured succeeds: it gives a new token, which stands
  -- for the same user until it expires, and from then on the old one stands for nobody at any
  -- moment, as long as nothing else changes. The token's owner is not the principal of an API key,
  -- the hash of the new token is not stored, ids are unique, and the token was not created after
  -- now.
  pub refresh_token-verify_token :
      (db : AuthDb) (t : ApiToken)
      → ((id : ℕ) → count (has_id id) db.api_users ≤ 1)
      → find (is_current db.api_users (crypto.sha256 raw) now) db.api_tokens ≡ some t
      → t.api_key_name ≡ none
      → exists (mints_for t.user_id) db.api_users ≡ true
      → exists (has_sha (crypto.sha256 fresh)) db.api_tokens ≡ false
      → t.created_at ≤ now
      → (db' : AuthDb) × (user : AuthenticatedUser) × (refresh_token crypto now clock fresh raw db
          ≡ (db', ok (fresh, clock + token_ttl_days * 86400)))
        × ((verify_token crypto now raw db).1 ≡ some user)
        × ((later : ℕ)
            → later < clock + token_ttl_days * 86400
            → (verify_token crypto later fresh db').1 ≡ some user)
        × ((later : ℕ) → (verify_token crypto later raw db').1 ≡ none)
  unfolding refresh_token verify_token issue_token
  refresh_token-verify_token db t ids found session_token person free old =
      let sha = crypto.sha256 raw in
      let live = find_sound (is_current db.api_users sha now) db.api_tokens t found in
      elim (Option-cases (find (honours t) db.api_users)) [
        | inl e ↦ ground (arith, e)
        | inr (u, e) ↦
            let valid = find_sound (honours t) db.api_users u e in
            let same : u.id ≡ t.user_id = ground arith in
            let expires_at = clock + token_ttl_days * 86400 in
            let s = session (crypto.sha256 fresh) u.id now expires_at in
            let owner : find (honours s) db.api_users ≡ some u =
              find_same (has_id t.user_id) (honours t) (honours s) db.api_users u
                (λ x k. ground arith) (λ x k. ground arith) (ids t.user_id) e
                (ground
                  (arith, credential_valid_later (principal u) t.created_at now old, valid)) in
            (
              record db { api_tokens = exchanged db.api_tokens u },
              identity t u,
              rw
                  (
                    found,
                    e,
                    session_token,
                    ap (λ i. exists (mints_for i) db.api_users) same ∙ person,
                    exists-update (has_sha (crypto.sha256 fresh)) (touches sha now) (touch now)
                          db.api_tokens (λ x. refl)
                        ∙ free,
                  )
                  refl,
              rw (found, e) refl,
              (λ later alive.
                  rw
                    (
                      find-exchanged db.api_users db.api_tokens t u later found free alive owner,
                      owner,
                      session_token,
                    )
                    refl),
              λ later.
                  rw
                    (find-delete-none (is_current db.api_users sha later) (has_sha sha)
                      (insert s (update (touches sha now) (touch now) db.api_tokens))
                      (λ x k. ground arith))
                    refl,
            )
      ]
