-- ===== src/Oauth/Refresh/Rotation.antt =====
-- The rotation of a refresh token among other sessions: what it takes to mint a successor.
use localmail.Common.{
  ℕ, ◌==◌, Option-cases, Bool-cases, String, ◌≡◌, refl, inl, inr, Bool, true, false, Option, none,
  some, List, [], ◌∷◌, arith, ◌≤◌, ◌∙◌, is_none, ◌&&◌,
}
use localmail.Oauth.Refresh.{
  Gaps, RotateResult, rotated, reuse, unknown, OauthDb, count, User, rotate_refresh, after_miss,
  RefreshToken, is_claimable, claim, has_token, raw_state, load_refresh, owner_valid,
}
use localmail.Oauth.Store.{OauthDb, User, RefreshToken, owner_valid}
use localmail.Common.Table.{count, find, exists}
use localmail.Common.Table.Laws.{exists_at_key, found_and}

-- The outcome is a new token.
abbrev pub mints : Option (OauthDb × RotateResult) → Bool
mints none = false
mints (some (db, rotated t)) = true
mints (some (db, reuse f)) = false
mints (some (db, unknown)) = false

count-absent {ℓ} :
    {A : Type ℓ} (p : A → Bool) (rows : List A)
    → exists p rows ≡ false
    → (count p rows == 1) ≡ false
unfolding count find
count-absent p [] h = refl
count-absent p (r ∷ rows) h = elim (Bool-cases (p r)) [
  | inl e ↦ ground (arith, e)
  | inr e ↦ rw e (count-absent p rows (ground (arith, e)))
]

pub claimable_has_token :
    (users : List User) (sha : String) (r : RefreshToken)
    → is_claimable users sha r ≡ true
    → has_token sha r ≡ true
claimable_has_token users sha r h = ground arith

after_miss-mints :
    (db : OauthDb) (f : ℕ) (o : Option (ℕ × Bool)) → mints (some (after_miss db f o)) ≡ false
after_miss-mints db f none = refl
after_miss-mints db f (some (g, true)) = refl
after_miss-mints db f (some (g, false)) = refl

module _ (hash : String → String) (gaps : Gaps) (now : ℕ) (raw new : String) (ttl_s : ℕ) where
  abbrev at_claim : OauthDb → OauthDb
  at_claim db = gaps.before_claim (gaps.before_load db)

  unclaimed-mints :
      (db : OauthDb)
      → exists (is_claimable (at_claim db).users (hash raw)) (at_claim db).tokens ≡ false
      → mints (rotate_refresh hash gaps now raw new ttl_s db) ≡ false
  unfolding rotate_refresh claim
  unclaimed-mints db h = elim (Option-cases (raw_state hash db raw)) [
    | inl e ↦ rw e refl
    | inr ((f, true), e) ↦ rw e refl
    | inr ((f, false), e) ↦ elim (Option-cases (load_refresh hash now (gaps.before_load db) raw)) [
      | inl gone ↦ rw (e, gone) refl
      | inr (row, live) ↦
          rw
            (
              e,
              live,
              count-absent (is_claimable (at_claim db).users (hash raw)) (at_claim db).tokens h,
            )
            (after_miss-mints _ row.family_id (raw_state hash _ raw))
    ]
  ]

  -- No successor is minted for a token that, when it is claimed, is not stored, is consumed, or
  -- has an owner who is disabled, gone, or has revoked his sessions since, whatever other sessions
  -- commit between the statements. The token is stored once at most.
  pub rotate_refresh-revoked :
      (db : OauthDb)
      → count (has_token (hash raw)) (at_claim db).tokens ≤ 1
      → found_and
          (λ r. is_none r.consumed_at && owner_valid (at_claim db).users r.user_id r.created_at)
          (find (has_token (hash raw)) (at_claim db).tokens)
        ≡ false
      → mints (rotate_refresh hash gaps now raw new ttl_s db) ≡ false
  rotate_refresh-revoked db key dead = unclaimed-mints db (
      exists_at_key (has_token (hash raw)) (is_claimable (at_claim db).users (hash raw))
        (at_claim db).tokens (claimable_has_token (at_claim db).users (hash raw)) key
      ∙ elim (Option-cases (find (has_token (hash raw)) (at_claim db).tokens)) [
        | inl e ↦ rw e refl
        | inr (r, e) ↦ ground (arith, e, dead)
      ])
