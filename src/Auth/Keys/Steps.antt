-- ===== src/Auth/Keys/Steps.antt =====
-- What each operation on the tables keeps.
use localmail.Common.{
  ℕ, String, true, false, arith, none, some, refl, inl, inr, ◌≡◌, Bool-cases, str_eq, ◌+◌, ◌*◌, ◌≤◌,
  ◌∙◌, Bool, Option, List, [], ◌∷◌, ◌==◌, sym, ap,
}
use localmail.Auth.Store.{ok, err, Crypto, AuthDb, ApiUser, AuthResult, ApiToken}
use localmail.Auth.Tokens.{
  create_user, change_password, issue_token, AuthenticatedUser, refresh_token, verify_token,
  changed, mints_for, is_session, joined, has_username, replace, renew, session, touched, has_id,
  may_change, token_ttl_days, is_current, set_password, touches, touch,
}
use localmail.Common.Table.{exists, count, find, insert}
use localmail.Auth.Keys.{
  Keeps, mints_for, kept_refl, is_session, count-append, joined, find, session, touched, is_orphan,
  replaced-Keeps, token_ttl_days, kept_trans, count-update, is_current, issue_token-Keeps, touches,
  touched-Keeps, touch, joined-session, ApiToken, insert, count-absent,
}
use localmail.Common.Table.Counts.{
  count-append, count_mono, count-update, count-exists, count-absent,
}
use localmail.Common.Table.Laws.{exists-update, exists-append}

-- A new set of users keeps every person.
users-Keeps :
    (users : List ApiUser) (db : AuthDb)
    → ((id : ℕ) → exists (mints_for id) db.api_users ≡ true → exists (mints_for id) users ≡ true)
    → ((id : ℕ) → count (has_id id) db.api_users ≤ 1 → count (has_id id) users ≤ 1)
    → Keeps db (record db { api_users = users })
users-Keeps users db h same (unique, owned, ids) = (
  (
    unique,
    omega (
      arith,
      owned,
      count_mono (is_orphan db.api_users) (is_orphan users) db.api_tokens (λ t k.
          elim (Bool-cases (exists (mints_for t.user_id) db.api_users)) [
            | inl e ↦ ground (arith, h t.user_id e)
            | inr e ↦ ground (arith, e)
          ]),
    ),
    λ id. same id (ids id),
  ),
  λ sha. refl,
)

-- A new user with an id that is not stored.
count-insert_id :
    (id i : ℕ) (u : ApiUser) (users : List ApiUser)
    → exists (has_id id) users ≡ false
    → u.id ≡ id
    → count (has_id i) users ≤ 1
    → count (has_id i) (insert u users) ≤ 1
unfolding count
count-insert_id id i u users fresh e h = elim (Bool-cases (id == i)) [
  | inl k ↦
      let same : id ≡ i = ground arith in
      let none_stored =
        count-absent (has_id i) users (ap (λ j. exists (has_id j) users) (sym same) ∙ fresh) in
      ground (arith, count-append (has_id i) users (u ∷ []), none_stored)
  | inr k ↦ ground (arith, count-append (has_id i) users (u ∷ []), e)
]

pub create_user-Keeps :
    (crypto : Crypto) (id : ℕ) (username password : String) (db : AuthDb)
    → exists (has_id id) db.api_users ≡ false
    → Keeps db (create_user crypto id username password db).0
unfolding create_user
create_user-Keeps crypto id username password db fresh = elim (Bool-cases (str_eq password "")) [
  | inl e ↦ rw e (kept_refl db)
  | inr e ↦ elim (Bool-cases (exists (has_username username) db.api_users)) [
    | inl f ↦ rw (e, f) (kept_refl db)
    | inr f ↦
        rw (e, f)
          (users-Keeps _ db (λ i h. exists-append (mints_for i) db.api_users _ h)
            (λ i h. count-insert_id id i _ db.api_users fresh refl h))
  ]
]

changed-Keeps :
    (crypto : Crypto) (id : ℕ) (old new : String) (row : Option ApiUser) (db : AuthDb)
    → Keeps db (changed crypto id old new row db).0
changed-Keeps crypto id old new none db sound = kept_refl db sound
changed-Keeps crypto id old new (some row) db sound =
    elim (Bool-cases (crypto.verify old row.password_hash)) [
      | inl e ↦ rw e (
          users-Keeps _ db
            (λ i h.
              exists-update (mints_for i) (has_id id) (set_password (crypto.hash new)) db.api_users
                (λ u. refl)
              ∙ h)
            (λ i h.
              let same =
                count-update (has_id i) (has_id id) (set_password (crypto.hash new)) db.api_users
                  (λ u. refl) in
              omega (arith, same, h))
            sound)
      | inr e ↦ rw e (kept_refl db sound)
    ]

pub change_password-Keeps :
    (crypto : Crypto) (id : ℕ) (old new : String) (db : AuthDb)
    → Keeps db (change_password crypto id old new db).0
unfolding change_password
change_password-Keeps crypto id old new db = elim (Bool-cases (str_eq new "")) [
  | inl e ↦ rw e (kept_refl db)
  | inr e ↦ rw e (changed-Keeps crypto id old new (find (may_change id) db.api_users) db)
]

replace-Keeps :
    (sha : String) (x : AuthDb × AuthResult (String × ℕ))
    → 1 ≤ count (is_session sha) x.0.api_tokens
    → Keeps x.0 (replace sha x).0
replace-Keeps sha (db, err e) h = kept_refl db
replace-Keeps sha (db, ok minted) h = replaced-Keeps sha db h

issue_token-count :
    (crypto : Crypto) (now clock : ℕ) (fresh : String) (user_id : ℕ) (db : AuthDb)
    (p : ApiToken → Bool)
    → count p db.api_tokens ≤ count p (issue_token crypto now clock fresh user_id db).0.api_tokens
unfolding issue_token
issue_token-count crypto now clock fresh user_id db p = ground (
  arith,
  count-append p db.api_tokens
      (session (crypto.sha256 fresh) user_id now (clock + token_ttl_days * 86400) ∷ []),
)

module _ (crypto : Crypto) (now clock : ℕ) (fresh raw : String) where
  renew-Keeps :
      (db : AuthDb) (user : Option AuthenticatedUser)
      → ((u : AuthenticatedUser)
          → user ≡ some u
          → u.is_api_key ≡ false
          → 1 ≤ count (is_session (crypto.sha256 raw)) db.api_tokens)
      → Keeps db (renew crypto now clock fresh raw (db, user)).0
  renew-Keeps db none h = kept_refl db
  renew-Keeps db (some user) h = elim (Bool-cases user.is_api_key) [
    | inl e ↦ rw e (kept_refl db)
    | inr e ↦
        let x = issue_token crypto now clock fresh user.id db in
        rw e (
          kept_trans db x.0 (replace (crypto.sha256 raw) x).0
            (issue_token-Keeps crypto now clock fresh user.id db)
            (replace-Keeps (crypto.sha256 raw) x (
              omega (
                arith,
                h user refl e,
                issue_token-count crypto now clock fresh user.id db
                    (is_session (crypto.sha256 raw)),
              ))))
  ]

  touched-count :
      (sha : String) (user : Option AuthenticatedUser) (db : AuthDb)
      → count (is_session sha) (touched sha now user db).api_tokens
        ≡ count (is_session sha) db.api_tokens
  touched-count sha none db = refl
  touched-count sha (some user) db =
      count-update (is_session sha) (touches sha now) (touch now) db.api_tokens (λ t. refl)

  pub refresh_token-Keeps : (db : AuthDb) → Keeps db (refresh_token crypto now clock fresh raw db).0
  unfolding refresh_token verify_token
  refresh_token-Keeps db =
      let sha = crypto.sha256 raw in
      let user = joined db.api_users (find (is_current db.api_users sha now) db.api_tokens) in
      let db' = touched sha now user db in
      kept_trans db db' (renew crypto now clock fresh raw (db', user)).0
        (touched-Keeps sha now user db)
        (renew-Keeps db' user (λ u e k.
          rw (touched-count sha user db)
            (count-exists (is_session sha) db.api_tokens (joined-session sha now db u e k))))
