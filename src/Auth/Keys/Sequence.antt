-- ===== src/Auth/Keys/Sequence.antt =====
-- The requests that a worker serves in a sequence, and what they keep.
use mathlib.Core.Path.{subst}
use localmail.Auth.Tokens.{
  has_id, create_user, change_password, refresh_token, mints_for, whoami, logout, is_key,
  revoke_key, mint_access, is_service_token,
}
use localmail.Common.{◌⊎◌, inl, inr, refl, ap, ◌∙◌, true, false, ◌&&◌, ℕ, String, arith, ◌≡◌, sym}
use localmail.Auth.Store.{
  rate_limited, authentication_failed, unique_violation, not_found, database_error,
  session_credential_refused, invalid_token, validation_failed, value_error, ok, err, AuthConfig,
  Crypto, Worker, AuthDb, AuthResult, with_connection, login_eligible,
}
use localmail.Common.Table.{count, exists}
use localmail.Auth.Keys.{
  Keeps, mints_for, kept_refl, whoami, logout, find_exists, find_sound, inserted-Keeps, IsSound,
  is_key, whoami-Keeps, logout-Keeps, exists, mint_access, mint_access-Keeps, RevokeKeeps,
  revoke_key-RevokeKeeps,
}
use localmail.Common.Table.Laws.{find_exists, find_sound}
use localmail.Auth.Login.{Request, login_route, may_login}
use localmail.Auth.Login.Audit.{
  Audited, login_route_clean, login_route-Audited, with_connection_clean,
}
use localmail.Auth.Keys.Steps.{refresh_token-Keeps, change_password-Keeps, create_user-Keeps}

-- A request served in a transaction of its own.
abbrev pub on_db {ℓ} :
    {A : Type ℓ} → (AuthDb → AuthDb × AuthResult A) → Worker → Worker × AuthResult A
on_db f w = let (db, result) = f w.pending in (record w { pending = db }, result)

module _ (crypto : Crypto) (cfg : AuthConfig) where
  -- `w'` is the worker after one of the requests of src/localmail/api/auth.py, a code or refresh
  -- exchange of OAuth that mints an access token, or a revocation of API keys.
  pub data Step (w w' : Worker) : Type 0 where
    logged_in : (r : Request) → w' ≡ (login_route crypto cfg r w).0 → Step w w'
    identified_by :
        (now : ℕ) (raw : String)
        → w' ≡ (with_connection (on_db (whoami crypto now raw) w)).0
        → Step w w'
    logged_out : (raw : String) → w' ≡ (with_connection (on_db (logout crypto raw) w)).0 → Step w w'
    refreshed :
        (now clock : ℕ) (fresh raw : String)
        → w' ≡ (with_connection (on_db (refresh_token crypto now clock fresh raw) w)).0
        → Step w w'
    password_changed :
        (id : ℕ) (old new : String)
        → w' ≡ (with_connection (on_db (change_password crypto id old new) w)).0
        → Step w w'
    user_created :
        (id : ℕ) (username password : String)
        → exists (has_id id) w.pending.api_users ≡ false
        → w' ≡ (with_connection (on_db (create_user crypto id username password) w)).0
        → Step w w'
    access_minted :
        (now : ℕ) (fresh : String) (user_id ttl_s : ℕ)
        → w' ≡ (with_connection (on_db (mint_access crypto now fresh user_id ttl_s) w)).0
        → Step w w'
    key_revoked :
        (user_id : ℕ) → w' ≡ (with_connection (on_db (revoke_key user_id) w)).0 → Step w w'

  -- `w'` is reached from `w` by requests in a sequence.
  pub data Reach (w : Worker) : Worker → Type 0 where
    start : Reach w w
    more : (v v' : Worker) → Reach w v → Step v v' → Reach w v'

  -- The step is a revocation that finds the key.
  abbrev pub Revokes : (w w' : Worker) → Step w w' → String → Type 0
  Revokes w w' (logged_in r e) sha = ⊥
  Revokes w w' (identified_by now raw e) sha = ⊥
  Revokes w w' (logged_out raw e) sha = ⊥
  Revokes w w' (refreshed now clock fresh raw e) sha = ⊥
  Revokes w w' (password_changed id old new e) sha = ⊥
  Revokes w w' (user_created id username password fresh e) sha = ⊥
  Revokes w w' (access_minted now fresh user_id ttl_s e) sha = ⊥
  Revokes w w' (key_revoked user_id e) sha =
      exists (λ t. is_key sha t && is_service_token w.committed.api_users user_id t)
        w.committed.api_tokens
      ≡ true

  -- One of the requests is.
  abbrev pub WasRevoked : (w w' : Worker) → Reach w w' → String → Type 0
  WasRevoked w _ start sha = ⊥
  WasRevoked w _ (more v v' steps step) sha = WasRevoked w v steps sha ⊎ Revokes v v' step sha

  login_route-Keeps :
      (r : Request) (db : AuthDb) (x : Worker × AuthResult (String × ℕ))
      → Audited crypto cfg r db x
      → Keeps db x.0.committed
  unfolding login_eligible
  login_route-Keeps r db (w, err (rate_limited _ _)) e sound = rw e (kept_refl db sound)
  login_route-Keeps r db (w, err database_error) (e, _) sound = rw e (kept_refl db sound)
  login_route-Keeps r db (w, err authentication_failed) (u, k, h) sound =
      rw (u, k) (kept_refl db sound)
  login_route-Keeps r db (w, err unique_violation) (u, k, v, h) sound =
      rw (u, k) (kept_refl db sound)
  login_route-Keeps r db (w, ok (raw, expires_at)) (u, (row, found, verified, free, k), h) sound =
      let person =
        find_exists (may_login r.username) (mints_for row.id) db.api_users row found (
          let allowed = find_sound (may_login r.username) db.api_users row found in ground arith) in
      rw (u, k) (inserted-Keeps (crypto.sha256 raw) row.id r.minted expires_at db person free sound)
  login_route-Keeps r db (w, err session_credential_refused) e sound = absurd e
  login_route-Keeps r db (w, err invalid_token) e sound = absurd e
  login_route-Keeps r db (w, err validation_failed) e sound = absurd e
  login_route-Keeps r db (w, err value_error) e sound = absurd e
  login_route-Keeps r db (w, err not_found) e sound = absurd e

  settled-Keeps {ℓ} :
      {A : Type ℓ} (w : Worker) (x : AuthDb × AuthResult A)
      → Keeps w.committed x.0
      → Keeps w.committed (with_connection (record w { pending = x.0 }, x.1)).0.committed
  unfolding with_connection
  settled-Keeps w (db, ok a) h = h
  settled-Keeps w (db, err e) h = kept_refl w.committed

  route-Keeps {ℓ} :
      {A : Type ℓ} (f : AuthDb → AuthDb × AuthResult A) (w : Worker)
      → w.pending ≡ w.committed
      → Keeps w.pending (f w.pending).0
      → Keeps w.committed (with_connection (on_db f w)).0.committed
  route-Keeps f w clean h =
      settled-Keeps w (f w.pending) (subst (λ db. Keeps db (f w.pending).0) clean h)

  -- What a request keeps; a key that is not is revoked.
  abbrev StepKeeps : (w w' : Worker) → Step w w' → Type 0
  StepKeeps w w' step =
      (w'.pending ≡ w'.committed)
      × (IsSound w.committed
          → IsSound w'.committed
            × ((sha : String)
                → (count (is_key sha) w'.committed.api_tokens
                    ≡ count (is_key sha) w.committed.api_tokens)
                  ⊎ Revokes w w' step sha))

  plainly :
      (w w' : Worker) (step : Step w w') (x : Worker)
      → w' ≡ x
      → x.pending ≡ x.committed
      → Keeps w.committed x.committed
      → StepKeeps w w' step
  plainly w w' step x e clean h = (
    subst (λ y. y.pending ≡ y.committed) (sym e) clean,
    λ sound.
        let (s, k) = h sound in
        (
          subst (λ y. IsSound y.committed) (sym e) s,
          λ sha. inl (ap (λ y. count (is_key sha) y.committed.api_tokens) e ∙ k sha),
        ),
  )

  settled-RevokeKeeps :
      (user_id : ℕ) (w : Worker) (x : AuthDb × AuthResult (Unit {0}))
      → RevokeKeeps user_id w.committed x.0
      → RevokeKeeps user_id w.committed
          (with_connection (record w { pending = x.0 }, x.1)).0.committed
  unfolding with_connection
  settled-RevokeKeeps user_id w (db, ok a) h = h
  settled-RevokeKeeps user_id w (db, err e) h = λ sound. (sound, λ sha. inl refl)

  revoked-StepKeeps :
      (w w' : Worker) (user_id : ℕ) (e : w' ≡ (with_connection (on_db (revoke_key user_id) w)).0)
      → w.pending ≡ w.committed
      → StepKeeps w w' (key_revoked user_id e)
  revoked-StepKeeps w w' user_id e clean = (
    subst (λ y. y.pending ≡ y.committed) (sym e)
        (with_connection_clean (on_db (revoke_key user_id) w)),
    subst (λ y. RevokeKeeps user_id w.committed y.committed) (sym e)
        (settled-RevokeKeeps user_id w (revoke_key user_id w.pending) (
          subst (λ db. RevokeKeeps user_id db (revoke_key user_id w.pending).0) clean
            (revoke_key-RevokeKeeps user_id w.pending))),
  )

  routed :
      {A : Type 0} (f : AuthDb → AuthDb × AuthResult A) (w w' : Worker) (step : Step w w')
      → w' ≡ (with_connection (on_db f w)).0
      → w.pending ≡ w.committed
      → Keeps w.pending (f w.pending).0
      → StepKeeps w w' step
  routed f w w' step e clean h =
      plainly w w' step (with_connection (on_db f w)).0 e (with_connection_clean (on_db f w))
        (route-Keeps f w clean h)

  Step-Keeps : (w w' : Worker) (step : Step w w') → w.pending ≡ w.committed → StepKeeps w w' step
  Step-Keeps w w' (logged_in r e) clean =
      plainly w w' (logged_in r e) (login_route crypto cfg r w).0 e
        (login_route_clean crypto cfg r w)
        (login_route-Keeps r w.committed (login_route crypto cfg r w)
          (login_route-Audited crypto cfg r w clean))
  Step-Keeps w w' (identified_by now raw e) clean =
      routed (whoami crypto now raw) w w' (identified_by now raw e) e clean
        (whoami-Keeps crypto now raw w.pending)
  Step-Keeps w w' (logged_out raw e) clean =
      routed (logout crypto raw) w w' (logged_out raw e) e clean (logout-Keeps crypto raw w.pending)
  Step-Keeps w w' (refreshed now clock fresh raw e) clean =
      routed (refresh_token crypto now clock fresh raw) w w' (refreshed now clock fresh raw e) e
        clean (refresh_token-Keeps crypto now clock fresh raw w.pending)
  Step-Keeps w w' (password_changed id old new e) clean =
      routed (change_password crypto id old new) w w' (password_changed id old new e) e clean
        (change_password-Keeps crypto id old new w.pending)
  Step-Keeps w w' (user_created id username password fresh e) clean =
      routed (create_user crypto id username password) w w'
        (user_created id username password fresh e) e clean
        (create_user-Keeps crypto id username password w.pending fresh)
  Step-Keeps w w' (access_minted now fresh user_id ttl_s e) clean =
      routed (mint_access crypto now fresh user_id ttl_s) w w'
        (access_minted now fresh user_id ttl_s e) e clean
        (mint_access-Keeps crypto now fresh user_id ttl_s w.pending)
  Step-Keeps w w' (key_revoked user_id e) clean = revoked-StepKeeps w w' user_id e clean

  reached :
      (w w' : Worker) (steps : Reach w w')
      → w.pending ≡ w.committed
      → IsSound w.committed
      → (w'.pending ≡ w'.committed)
        × IsSound w'.committed
        × ((sha : String)
            → (count (is_key sha) w'.committed.api_tokens
                ≡ count (is_key sha) w.committed.api_tokens)
              ⊎ WasRevoked w w' steps sha)
  reached w _ start clean sound = (clean, sound, λ sha. inl refl)
  reached w _ (more v v' steps step) clean sound =
      let (c, s, k) = reached w v steps clean sound in
      let (c', h) = Step-Keeps v v' step c in
      let (s', k') = h s in
      (
        c',
        s',
        λ sha. elim (k' sha) [
          | inr revoked ↦ inr (inr revoked)
          | inl e' ↦ elim (k sha) [ inl e ↦ inl (e' ∙ e) | inr revoked ↦ inr (inl revoked) ]
        ],
      )

  -- However logins, refreshes, logouts, lookups, changes of password, new users, OAuth access tokens and
  -- revocations of API keys follow one another at a worker, what is committed keeps that no two tokens
  -- have one hash, that no two users have one id, and that every session token belongs to a person,
  -- never to the principal of an API key; and every API key stays stored, unless one of the
  -- revocations finds it: none is turned into a session, or deleted by the other requests. This
  -- holds of the state before them, in which nothing is uncommitted. A new user's id is not
  -- stored yet. The requests that mint keys, or delete or change users as an administrator, and what
  -- other workers commit are not among them.
  pub Reach-IsSound :
      (w w' : Worker) (steps : Reach w w')
      → w.pending ≡ w.committed
      → IsSound w.committed
      → IsSound w'.committed
        × ((sha : String)
            → (count (is_key sha) w'.committed.api_tokens
                ≡ count (is_key sha) w.committed.api_tokens)
              ⊎ WasRevoked w w' steps sha)
  Reach-IsSound w w' steps clean sound = let (c, s, k) = reached w w' steps clean sound in (s, k)
