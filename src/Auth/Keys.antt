-- ===== src/Auth/Keys.antt =====
-- API keys beside session tokens, under every operation of src/localmail/api/auth.py.
pub mod Steps
pub mod Sequence
use localmail.Common.{
  ◌⊎◌, ℕ, String, true, false, arith, none, some, refl, inl, inr, ◌≡◌, Bool-cases, str_eq, is_none,
  ◌≤◌, ◌∙◌, Bool, not, ◌&&◌, Option, List, [], ◌∷◌, str_eq_iff, ◌+◌, ◌*◌, sym, ap,
}
use localmail.Auth.Store.{Crypto, AuthDb, ApiUser, ApiToken}
use localmail.Common.Table.{count, delete, exists, update, insert, find}
use localmail.Auth.Tokens.{
  AuthenticatedUser, has_sha, is_key, touched, is_session, mints_for, touch, touches, session,
  issue_token, logout, identify, whoami, joined, token_ttl_days, verify_token, is_current, has_id,
  mint_access, is_service_token, revoke_key,
}
use localmail.Common.Table.Counts.{
  count-delete_le, count-delete_other, count-update, count-append, count-absent, count_add,
  count-delete_unmet,
}
use localmail.Auth.Tokens.Refresh.{joined-some, live-session}
use localmail.Common.Table.Laws.{find_exists, find_sound}

-- A session token whose owner is gone or is the principal of an API key.
abbrev pub is_orphan : List ApiUser → ApiToken → Bool
is_orphan users t = is_none t.api_key_name && not (exists (mints_for t.user_id) users)

-- No two tokens have one hash, every session token belongs to a person, and no two users have one id.
abbrev pub IsSound : AuthDb → Type 0
IsSound db =
    ((sha : String) → count (has_sha sha) db.api_tokens ≤ 1)
    × (count (is_orphan db.api_users) db.api_tokens ≡ 0)
    × ((id : ℕ) → count (has_id id) db.api_users ≤ 1)

-- What an operation keeps: soundness, and every API key.
abbrev pub Keeps : AuthDb → AuthDb → Type 0
Keeps db db' =
    IsSound db
    → IsSound db'
      × ((sha : String) → count (is_key sha) db'.api_tokens ≡ count (is_key sha) db.api_tokens)

kept_refl : (db : AuthDb) → Keeps db db
kept_refl db sound = (sound, λ sha. refl)

kept_trans : (a b c : AuthDb) → Keeps a b → Keeps b c → Keeps a c
kept_trans a b c h k sound =
    let (s, e) = h sound in let (s', e') = k s in (s', λ sha. e' sha ∙ e sha)

touched-Keeps :
    (sha : String) (now : ℕ) (user : Option AuthenticatedUser) (db : AuthDb)
    → Keeps db (touched sha now user db)
touched-Keeps sha now none db sound = kept_refl db sound
touched-Keeps sha now (some user) db (unique, owned, ids) =
    let upd : (p : ApiToken → Bool)
        → ((t : ApiToken) → p (touch now t) ≡ p t)
        → count p (update (touches sha now) (touch now) db.api_tokens) ≡ count p db.api_tokens =
      λ p h. count-update p (touches sha now) (touch now) db.api_tokens h in
    (
      (
        λ s. rw (upd (has_sha s) (λ t. refl)) (unique s),
        upd (is_orphan db.api_users) (λ t. refl) ∙ owned,
        ids,
      ),
      λ s. upd (is_key s) (λ t. refl),
    )

-- An INSERT of a session of a person, whose hash is not stored.
inserted-Keeps :
    (sha : String) (user_id now expires_at : ℕ) (db : AuthDb)
    → exists (mints_for user_id) db.api_users ≡ true
    → exists (has_sha sha) db.api_tokens ≡ false
    → Keeps db
        (record db { api_tokens = insert (session sha user_id now expires_at) db.api_tokens })
unfolding count
inserted-Keeps sha user_id now expires_at db person free (unique, owned, ids) =
    let t = session sha user_id now expires_at in
    (
      (
        λ s. elim (Bool-cases (str_eq sha s)) [
          | inl e ↦ ground (
            arith,
            count-append (has_sha s) db.api_tokens (t ∷ []),
            count-absent (has_sha s) db.api_tokens
                (ap (λ x. exists (has_sha x) db.api_tokens) (sym ((str_eq_iff sha s).0 e)) ∙ free),
          )
          | inr e ↦ ground (arith, count-append (has_sha s) db.api_tokens (t ∷ []), unique s)
        ],
        ground (arith, count-append (is_orphan db.api_users) db.api_tokens (t ∷ [])),
        ids,
      ),
      λ s. ground (arith, count-append (is_key s) db.api_tokens (t ∷ [])),
    )

-- A DELETE of session tokens only.
deleted-Keeps :
    (sha : String) (db : AuthDb)
    → Keeps db (record db { api_tokens = delete (is_session sha) db.api_tokens })
deleted-Keeps sha db (unique, owned, ids) = (
  (
    λ s. omega (arith, unique s, count-delete_le (has_sha s) (is_session sha) db.api_tokens),
    omega (arith, owned, count-delete_le (is_orphan db.api_users) (is_session sha) db.api_tokens),
    ids,
  ),
  λ s. count-delete_other (is_key s) (is_session sha) db.api_tokens (λ t h. ground arith),
)

other_sha :
    (s sha : String) (t : ApiToken)
    → str_eq s sha ≡ false
    → has_sha s t ≡ true
    → has_sha sha t ≡ false
other_sha s sha t e h = rw ((str_eq_iff t.token_sha256 s).0 h) e

-- The DELETE of a refresh, by the hash alone: it is that of a session token.
replaced-Keeps :
    (sha : String) (db : AuthDb)
    → 1 ≤ count (is_session sha) db.api_tokens
    → Keeps db (record db { api_tokens = delete (has_sha sha) db.api_tokens })
replaced-Keeps sha db presented (unique, owned, ids) = (
  (
    λ s. omega (arith, unique s, count-delete_le (has_sha s) (has_sha sha) db.api_tokens),
    omega (arith, owned, count-delete_le (is_orphan db.api_users) (has_sha sha) db.api_tokens),
    ids,
  ),
  λ s. elim (Bool-cases (str_eq s sha)) [
    | inl e ↦ rw ((str_eq_iff s sha).0 e) (
        omega (
          arith,
          unique sha,
          count_add (has_sha sha) (is_key sha) (is_session sha) db.api_tokens (λ t. ground arith)
              (λ t. ground arith),
          count-delete_le (is_key sha) (has_sha sha) db.api_tokens,
        ))
    | inr e ↦
        count-delete_other (is_key s) (has_sha sha) db.api_tokens
          (λ t h. other_sha s sha t e (ground arith))
  ],
)

issue_token-Keeps :
    (crypto : Crypto) (now clock : ℕ) (fresh : String) (user_id : ℕ) (db : AuthDb)
    → Keeps db (issue_token crypto now clock fresh user_id db).0
unfolding issue_token
issue_token-Keeps crypto now clock fresh user_id db =
    elim (Bool-cases (exists (mints_for user_id) db.api_users)) [
      | inl e ↦ elim (Bool-cases (exists (has_sha (crypto.sha256 fresh)) db.api_tokens)) [
        | inl f ↦ rw (e, f) (kept_refl db)
        | inr f ↦
            rw (e, f)
              (inserted-Keeps (crypto.sha256 fresh) user_id now (clock + token_ttl_days * 86400) db
                e f)
      ]
      | inr e ↦ rw e (kept_refl db)
    ]

logout-Keeps : (crypto : Crypto) (raw : String) (db : AuthDb) → Keeps db (logout crypto raw db).0
unfolding logout
logout-Keeps crypto raw db =
    let sha = crypto.sha256 raw in
    elim (Bool-cases (exists (is_session sha) db.api_tokens)) [
      | inl e ↦ rw e (deleted-Keeps sha db)
      | inr e ↦ elim (Bool-cases (exists (is_key sha) db.api_tokens)) [
        | inl f ↦ rw (e, f) (kept_refl db)
        | inr f ↦ rw (e, f) (kept_refl db)
      ]
    ]

identify_lem : (db : AuthDb) (user : Option AuthenticatedUser) → (identify (db, user)).0 ≡ db
identify_lem db none = refl
identify_lem db (some user) = refl

whoami-Keeps :
    (crypto : Crypto) (now : ℕ) (raw : String) (db : AuthDb) → Keeps db (whoami crypto now raw db).0
unfolding whoami verify_token
whoami-Keeps crypto now raw db =
    let sha = crypto.sha256 raw in
    let user = joined db.api_users (find (is_current db.api_users sha now) db.api_tokens) in
    rw (identify_lem (touched sha now user db) user) (touched-Keeps sha now user db)

-- The user of a session token that is honoured: its row is stored.
joined-session :
    (sha : String) (now : ℕ) (db : AuthDb) (user : AuthenticatedUser)
    → joined db.api_users (find (is_current db.api_users sha now) db.api_tokens) ≡ some user
    → user.is_api_key ≡ false
    → exists (is_session sha) db.api_tokens ≡ true
joined-session sha now db user h k =
    let (t, u, e, f, g) =
      joined-some db.api_users (find (is_current db.api_users sha now) db.api_tokens) user h in
    find_exists (is_current db.api_users sha now) (is_session sha) db.api_tokens t e (
      live-session db.api_users sha now t u user
        (find_sound (is_current db.api_users sha now) db.api_tokens t e) g k)

mint_access-Keeps :
    (crypto : Crypto) (now : ℕ) (fresh : String) (user_id ttl_s : ℕ) (db : AuthDb)
    → Keeps db (mint_access crypto now fresh user_id ttl_s db).0
unfolding mint_access
mint_access-Keeps crypto now fresh user_id ttl_s db =
    elim (Bool-cases (exists (mints_for user_id) db.api_users)) [
      | inl e ↦ elim (Bool-cases (exists (has_sha (crypto.sha256 fresh)) db.api_tokens)) [
        | inl f ↦ rw (e, f) (kept_refl db)
        | inr f ↦ rw (e, f) (inserted-Keeps (crypto.sha256 fresh) user_id now (now + ttl_s) db e f)
      ]
      | inr e ↦ rw e (kept_refl db)
    ]

-- What a revocation keeps: a key that is not is one that it finds.
abbrev pub RevokeKeeps : ℕ → AuthDb → AuthDb → Type 0
RevokeKeeps user_id db db' =
    IsSound db
    → IsSound db'
      × ((sha : String)
          → (count (is_key sha) db'.api_tokens ≡ count (is_key sha) db.api_tokens)
            ⊎ (exists (λ t. is_key sha t && is_service_token db.api_users user_id t) db.api_tokens
                ≡ true))

revoke_key-RevokeKeeps :
    (user_id : ℕ) (db : AuthDb) → RevokeKeeps user_id db (revoke_key user_id db).0
unfolding revoke_key
revoke_key-RevokeKeeps user_id db (unique, owned, ids) =
    let q = is_service_token db.api_users user_id in
    elim (Bool-cases (exists q db.api_tokens)) [
      | inr e ↦ rw e ((unique, owned, ids), λ sha. inl refl)
      | inl e ↦ rw e (
        (
          λ s. omega (arith, unique s, count-delete_le (has_sha s) q db.api_tokens),
          omega (arith, owned, count-delete_le (is_orphan db.api_users) q db.api_tokens),
          ids,
        ),
        λ sha. elim (Bool-cases (exists (λ t. is_key sha t && q t) db.api_tokens)) [
          | inl found ↦ inr found
          | inr unmet ↦ inl (count-delete_unmet (is_key sha) q db.api_tokens unmet)
        ],
      )
    ]
