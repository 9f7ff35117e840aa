-- ===== src/Search/Sweep.antt =====
-- src/localmail/search/sweep_pacing.py. The poll interval is in milliseconds.
use localmail.Common.{
  ℕ, if◌then◌else◌, ltb, ◌+◌, ◌*◌, ◌≤◌, min, ◌≡◌, refl, ap, ◌∙◌, Bool, true, false, ◌||◌, List, [],
  ◌∷◌, ◌++◌, arith,
}
use localmail.Common.Int.{ℤ, to_nat}
use localmail.Common.Lists.{All, length}

pub record SweepOutcome : Type 0 where
  pub embedded : ℕ
  pub lang_visited : ℕ

unfoldable pub made_progress : SweepOutcome → Bool
made_progress o = ltb 0 o.embedded || ltb 0 o.lang_visited

-- max(0, min(streak + 1, max_steps)); a negative ceiling counts as 0.
unfoldable pub next_idle_streak : ℕ → Bool → ℤ → ℕ
next_idle_streak streak progress max_steps =
    if progress then 0 else min (streak + 1) (to_nat max_steps)

unfoldable pub sweep_sleep_seconds : ℕ → ℕ → ℕ
sweep_sleep_seconds streak poll_interval = poll_interval * (1 + streak)

-- The streak after a run of sweeps, as the loop of the worker keeps it.
unfoldable pub streak_after : ℤ → ℕ → List SweepOutcome → ℕ
streak_after max_steps streak [] = streak
streak_after max_steps streak (o ∷ outcomes) =
    streak_after max_steps (next_idle_streak streak (made_progress o) max_steps) outcomes

abbrev pub AllIdle : List SweepOutcome → Type 0
AllIdle outcomes = All (λ o. made_progress o ≡ false) outcomes

streak_idle :
    (max_steps : ℤ) (streak : ℕ) (idle : List SweepOutcome)
    → AllIdle idle
    → streak ≤ to_nat max_steps
    → streak_after max_steps streak idle ≡ min (streak + length idle) (to_nat max_steps)
unfolding streak_after next_idle_streak
streak_idle max_steps streak [] all le = omega arith
streak_idle max_steps streak (o ∷ idle) all le = rw (all.0) (
    streak_idle max_steps (min (streak + 1) (to_nat max_steps)) idle all.1 (omega arith)
    ∙ omega arith)

streak-append :
    (max_steps : ℤ) (streak : ℕ) (before after : List SweepOutcome)
    → streak_after max_steps streak (before ++ after)
      ≡ streak_after max_steps (streak_after max_steps streak before) after
unfolding streak_after
streak-append max_steps streak [] after = refl
streak-append max_steps streak (o ∷ before) after =
    streak-append max_steps (next_idle_streak streak (made_progress o) max_steps) before after

-- Whatever happened before a sweep that made progress, on either queue, the sleep after the idle
-- sweeps that follow is one poll interval more than as many as there were of them, up to the
-- ceiling.
pub sweep_sleep_seconds-streak_after :
    (max_steps : ℤ) (streak poll_interval : ℕ) (before idle : List SweepOutcome)
    (busy : SweepOutcome)
    → made_progress busy ≡ true
    → AllIdle idle
    → sweep_sleep_seconds (streak_after max_steps streak (before ++ busy ∷ idle)) poll_interval
      ≡ poll_interval * (1 + min (length idle) (to_nat max_steps))
unfolding sweep_sleep_seconds streak_after next_idle_streak
sweep_sleep_seconds-streak_after max_steps streak poll_interval before idle busy progress all =
    ap (λ n. poll_interval * (1 + n))
      (streak-append max_steps streak before (busy ∷ idle)
        ∙ rw progress (streak_idle max_steps 0 idle all (omega arith) ∙ omega arith))
