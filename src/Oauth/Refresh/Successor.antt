-- ===== src/Oauth/Refresh/Successor.antt =====
-- What a client gets from a rotation with which no other session interferes.
use text.Mathlib.TextPositions.{eq_refl}
use localmail.Common.{
  ℕ, ◌==◌, ◌≤◌, ◌<◌, ◌≡◌, refl, Bool, true, false, none, some, List, [], ◌∷◌, arith, ◌+◌, String,
  ◌&&◌, is_some, ◌∙◌,
}
use localmail.Oauth.Refresh.{
  Gaps, rotated, rotate_refresh, has_token, is_claimable, find, owner_valid, is_live, mint_refresh,
  claim, sweep_consumed, load_refresh, raw_state, consume, is_spent,
}
use localmail.Oauth.Store.{
  OauthDb, User, RefreshToken, owner_valid, credential_valid, credential_valid_later,
}
use localmail.Common.Table.{find, count, exists, update, insert}
use localmail.Common.Table.Laws.{
  exists_mono, find_sound, exists-update, find-delete_spared, find-append, find_narrower,
}
use localmail.Oauth.Refresh.Replay.{rotated_rows}
use localmail.Common.Table.Counts.{count_mono}

-- No other session commits in between.
abbrev pub quiet : Gaps
quiet = record { before_load = λ db. db; before_claim = λ db. db; before_reread = λ db. db }

found_counts {ℓ} :
    {A : Type ℓ} (p q : A → Bool) (rows : List A) (r : A)
    → ((x : A) → q x ≡ true → p x ≡ true)
    → find q rows ≡ some r
    → 0 < count p rows
unfolding find count
found_counts p q [] r h e = ground arith
found_counts p q (x ∷ rows) r h e = ground (arith, h x, found_counts p q rows r h)

find_wider {ℓ} :
    {A : Type ℓ} (p q : A → Bool) (rows : List A) (r : A)
    → ((x : A) → q x ≡ true → p x ≡ true)
    → find q rows ≡ some r
    → count p rows ≡ 1
    → find p rows ≡ some r
unfolding find count
find_wider p q [] r h e one = ground arith
find_wider p q (x ∷ rows) r h e one =
    ground (arith, h x, find_wider p q rows r h, found_counts p q rows r h)

count_one {ℓ} :
    {A : Type ℓ} (p q : A → Bool) (rows : List A) (r : A)
    → ((x : A) → q x ≡ true → p x ≡ true)
    → find p rows ≡ some r
    → q r ≡ true
    → count p rows ≡ 1
    → (count q rows == 1) ≡ true
unfolding find count
count_one p q [] r h e k one = ground arith
count_one p q (x ∷ rows) r h e k one =
    ground (arith, h x, count_one p q rows r h, count_mono p q rows h)

owner_valid_later :
    (users : List User) (id t t' : ℕ)
    → t ≤ t'
    → owner_valid users id t ≡ true
    → owner_valid users id t' ≡ true
unfolding owner_valid
owner_valid_later users id t t' le h =
    exists_mono (λ u. u.id == id && credential_valid u t') (λ u. u.id == id && credential_valid u t)
      users (λ u k. ground (arith, credential_valid_later u t t' le)) h

module _ (hash : String → String) (now : ℕ) (raw new : String) (ttl_s : ℕ) where
  -- The successor that a rotation of `row` mints.
  abbrev pub successor : RefreshToken → RefreshToken
  successor row = record row {
    token_sha256 = hash new;
    created_at = now;
    expires_at = now + ttl_s;
    consumed_at = none;
  }

  found_self :
      (db : OauthDb) (row : RefreshToken)
      → owner_valid db.users row.user_id row.created_at ≡ true
      → row.created_at ≤ now
      → 0 < ttl_s
      → find (is_live db.users (hash new) now) (successor row ∷ []) ≡ some (successor row)
  unfolding find
  found_self db row valid old positive = ground (
    arith,
    eq_refl (hash new),
    owner_valid_later db.users row.user_id row.created_at now old valid,
  )

  load-successor :
      (db : OauthDb) (row : RefreshToken)
      → exists (has_token (hash new)) db.tokens ≡ false
      → owner_valid db.users row.user_id row.created_at ≡ true
      → row.created_at ≤ now
      → 0 < ttl_s
      → find
          (is_live db.users (hash new) now)
          (rotated_rows db.users (hash raw) now (successor row) db.tokens)
        ≡ some (successor row)
  load-successor db row free valid old positive =
      let sha = hash new in
      let rows = update (is_claimable db.users (hash raw)) (consume now) db.tokens in
      find-delete_spared (is_live db.users sha now) (is_spent now) (insert (successor row) rows)
        (successor row)
        (rw
          (
            find-append (is_live db.users sha now) rows (successor row ∷ []),
            find_narrower (has_token sha) (is_live db.users sha now) rows (λ r k. ground arith)
                (exists-update (has_token sha) (is_claimable db.users (hash raw)) (consume now)
                    db.tokens (λ r. refl)
                  ∙ free),
          )
          (found_self db row valid old positive))
        refl

  -- With no other session in between, the rotation of a live token gives a new token that is live
  -- at once, with the client, the user, the scopes, the family and the resource of the one
  -- presented, and a lifetime from now. The hash of the new token is not stored yet, that of the
  -- presented one is stored once and was created no later than now, and the lifetime is positive.
  pub rotate_refresh-load_refresh :
      (db : OauthDb) (row : RefreshToken)
      → load_refresh hash now db raw ≡ some row
      → count (has_token (hash raw)) db.tokens ≡ 1
      → exists (has_token (hash new)) db.tokens ≡ false
      → row.created_at ≤ now
      → 0 < ttl_s
      → (db' : OauthDb) × (rotate_refresh hash quiet now raw new ttl_s db ≡ some (db', rotated new))
        × (load_refresh hash now db' new ≡ some (successor row))
  unfolding rotate_refresh mint_refresh claim sweep_consumed load_refresh raw_state
  rotate_refresh-load_refresh db row live key free old positive =
      let sha = hash raw in
      let ok = find_sound (is_live db.users sha now) db.tokens row live in
      let valid : owner_valid db.users row.user_id row.created_at ≡ true = ground arith in
      let unspent : is_some row.consumed_at ≡ false = ground arith in
      let stored =
        find_wider (has_token sha) (is_live db.users sha now) db.tokens row (λ r k. ground arith)
          live key in
      let one =
        count_one (has_token sha) (is_claimable db.users sha) db.tokens row (λ r k. ground arith)
          stored (ground arith) key in
      (
        record db { tokens = rotated_rows db.users sha now (successor row) db.tokens },
        rw
            (
              stored,
              raw_state,
              unspent,
              live,
              one,
              exists-update (has_token (hash new)) (is_claimable db.users sha) (consume now)
                    db.tokens (λ r. refl)
                  ∙ free,
            )
            refl,
        load-successor db row free valid old positive,
      )
