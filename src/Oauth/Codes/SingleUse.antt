-- ===== src/Oauth/Codes/SingleUse.antt =====
-- An authorization code is honoured once at most.
use localmail.Common.{
  ℕ, str_eq, is_some, ◌≤◌, String, ◌≡◌, ap, false, none, arith, Option-cases, str_eq_iff, ◌∙◌, inl,
  inr,
}
use localmail.Oauth.Codes.{load_code, consume_code, has_code, is_honoured, burn_result}
use localmail.Oauth.Store.{OauthDb}
use localmail.Common.Table.{count, find, exists}
use localmail.Common.Table.Laws.{find-delete-none, find-delete_other, find_sound, exists_at_key}

burned-honoured :
    (db : OauthDb) (sha : String) (now : ℕ)
    → count (has_code sha) db.codes ≤ 1
    → (burn_result db.users now (find (has_code sha) db.codes)).still_valid
      ≡ exists (is_honoured db.users sha now) db.codes
burned-honoured db sha now key =
    let same =
      exists_at_key (has_code sha) (is_honoured db.users sha now) db.codes (λ c h. ground arith)
        key in
    elim (Option-cases (find (has_code sha) db.codes)) [
      | inl e ↦ ground (arith, same, e)
      | inr (c, e) ↦ ground (arith, same, e, find_sound (has_code sha) db.codes c e)
    ]

-- The burn reports a code as valid exactly where it could be loaded at that moment. Afterwards the
-- code cannot be loaded at any moment, a second burn reports that there was none, and a code with
-- another hash is there as before, also where the burn found the code invalid. The code is stored
-- once at most.
pub consume_code-load_code :
    (hash : String → String) (now later : ℕ) (db : OauthDb) (raw sha : String)
    → count (has_code (hash raw)) db.codes ≤ 1
    → str_eq sha (hash raw) ≡ false
    → ((consume_code hash now db raw).1.still_valid ≡ is_some (load_code hash now db raw))
      × (load_code hash later (consume_code hash now db raw).0 raw ≡ none)
      × ((consume_code hash later (consume_code hash now db raw).0 raw).1
          ≡ record { burned = false; still_valid = false })
      × (find (has_code sha) (consume_code hash now db raw).0.codes ≡ find (has_code sha) db.codes)
unfolding consume_code load_code
consume_code-load_code hash now later db raw sha key apart = (
  burned-honoured db (hash raw) now key,
  find-delete-none (is_honoured db.users (hash raw) later) (has_code (hash raw)) db.codes
      (λ c h. ground arith),
  ap (burn_result db.users later)
      (find-delete-none (has_code (hash raw)) (has_code (hash raw)) db.codes (λ c h. h)),
  find-delete_other (has_code sha) (has_code (hash raw)) db.codes
      (λ c h. ap (λ s. str_eq s (hash raw)) ((str_eq_iff c.code_sha256 sha).0 h) ∙ apart),
)
