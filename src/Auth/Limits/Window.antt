-- ===== src/Auth/Limits/Window.antt =====
-- The failures of one user that a later login will count.
use localmail.Common.{
  ℕ, String, true, arith, none, some, refl, leb, ltb, str_eq, ◌≤◌, ◌≡◌, inl, inr, Bool, ◌&&◌,
  Option, List, [], ◌∷◌, ◌<◌,
}
use localmail.Auth.Store.{AuthConfig, LoginAttempt, Cap, rate_limited}
use localmail.Auth.Limits.{
  after, last_success, check_login_rate_limits, is_failure, success_of, later, count, within, Cap,
  rate_limited, widest_window_s, failure_of, check_login_rate_limits-cases, exceeded, select,
  failure_from,
}
use localmail.Common.Table.{count, select}
use localmail.Common.Table.Counts.{count-select_le}

-- A failure of the user from the moment `t0` on, that the window at the moment `t` still covers.
abbrev pub is_counted : AuthConfig → String → ℕ → ℕ → LoginAttempt → Bool
is_counted cfg username t0 t a =
    str_eq a.username username
    && is_failure a.outcome
    && leb t0 a.ts
    && within t cfg.login_per_user_window_s a

abbrev pub is_recent_success : String → ℕ → LoginAttempt → Bool
is_recent_success username t0 a = success_of username a && leb t0 a.ts

after-later : (t : ℕ) (o : Option ℕ) (ts : ℕ) → after (later t o) ts ≡ ltb t ts && after o ts
after-later t none ts = ground arith
after-later t (some u) ts = ground arith

-- With no success from `t0` on, whatever comes from `t0` on is after the last success.
after-last_success :
    (username : String) (t0 ts : ℕ) (rows : List LoginAttempt)
    → count (is_recent_success username t0) rows ≡ 0
    → t0 ≤ ts
    → after (last_success username rows) ts ≡ true
unfolding last_success count
after-last_success username t0 ts [] h le = refl
after-last_success username t0 ts (a ∷ rows) h le = ground (
  arith,
  after-last_success username t0 ts rows,
  after-later a.ts (last_success username rows) ts,
)

exceeded-none :
    (cfg : AuthConfig) (ip : Option String) (m n k : ℕ)
    → exceeded cfg ip m n k ≡ none
    → k < cfg.login_per_user_max
exceeded-none cfg ip m n k h = ground arith

-- As many failures as the cap of the user refuse a login.
pub check_login_rate_limits-full :
    (cfg : AuthConfig) (username : String) (ip : Option String) (t0 t : ℕ)
    (rows : List LoginAttempt)
    → count (is_recent_success username t0) rows ≡ 0
    → cfg.login_per_user_max ≤ count (is_counted cfg username t0 t) rows
    → (cap : Cap) × (s : ℕ) × (check_login_rate_limits cfg t username ip rows
        ≡ some (rate_limited cap s))
unfolding check_login_rate_limits
check_login_rate_limits-full cfg username ip t0 t rows fresh full =
    let recent = within t (widest_window_s cfg) in
    let rows' = select recent rows in
    let p = failure_of t cfg.login_per_user_window_s username (last_success username rows) in
    let le =
      count-select_le p recent (is_counted cfg username t0 t) rows
        (λ a k. ground (arith, after-last_success username t0 a.ts rows)) (λ a k. ground arith) in
    elim (check_login_rate_limits-cases cfg t username ip rows) [
      | inl e ↦ absurd (
          omega (
            arith,
            exceeded-none cfg ip (count (within t cfg.login_global_window_s) rows')
                (count (failure_from t cfg.login_per_ip_window_s ip) rows') (count p rows') e,
          ))
      | inr found ↦ found
    ]
