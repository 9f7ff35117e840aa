-- ===== src/Daemon/Examples.antt =====
-- A start that succeeds at the third attempt, a stop before it, the end of two threads, and the
-- reconcile of two accounts.
use localmail.Common.{
  ℕ, ◌==◌, if◌then◌else◌, ◌+◌, ◌≤◌, ◌<◌, max, ◌≡◌, refl, false, [], ◌∷◌, arith, List,
}
use localmail.Daemon.Retry.{
  Surroundings, Attempt, returns, fails, result, aborted, retry_with_backoff,
  retry_with_backoff-returns, retry_with_backoff-stops, next_backoff, retry_from, delays,
}
use localmail.Daemon.Shutdown.{
  wind_down_threads-slowest, wind_down_threads, supervisor_kill_after, remaining_seconds, join_all,
}
use localmail.Common.Lists.{length, All}
use localmail.Common.Table.{find, delete, select}
use localmail.Sync.Order.{sorted, insert_sorted}
use localmail.Daemon.Reconcile.{
  keys, plan_reconcile, teardown_each, spawn_each, respawn_each, reconcile, Fingerprint,
  fingerprint_of, reconcile-fingerprint_of,
}

program : Unit {0}
unfolding next_backoff retry_from retry_with_backoff remaining_seconds supervisor_kill_after
    join_all wind_down_threads find delete select keys plan_reconcile teardown_each spawn_each
    respawn_each reconcile sorted insert_sorted
program = tt

abbrev third : ℕ → Attempt ℕ
third n = if n == 2 then returns 9 else fails

abbrev start : Surroundings ℕ
start = record { operation = third; is_set = λ n. false; set_in_wait = λ n. false }

retry_with_backoff-returns_example :
    (retry_with_backoff start 2 1500 5 1000 ≡ (result 9, 1000 ∷ 1500 ∷ [], 3))
    × (length (delays start 2 1500 2 1000) ≡ 2)
    × All (λ d. d ≤ max 1000 1500) (delays start 2 1500 2 1000)
unfolding program
retry_with_backoff-returns_example =
    retry_with_backoff-returns start 2 1500 2 5 1000 9 (refl, refl, refl, (refl, refl, refl, tt))
      refl refl (omega arith)

abbrev stopping : Surroundings ℕ
stopping = record start { is_set = λ n. n == 1 }

retry_with_backoff-stops_example :
    retry_with_backoff stopping 2 1500 5 1000 ≡ (aborted, 1000 ∷ [], 1)
unfolding program
retry_with_backoff-stops_example =
    retry_with_backoff-stops stopping 2 1500 1 5 1000 (refl, refl, refl, tt) refl (omega arith)

wind_down_threads-slowest_example :
    ((wind_down_threads (130 ∷ 500 ∷ 120 ∷ []) 100 100).0 ≡ 200)
    × ((wind_down_threads (130 ∷ 500 ∷ 120 ∷ []) 100 100).0
          + (wind_down_threads (130 ∷ 500 ∷ 120 ∷ []) 100 100).1
        ≡ 200)
    × ((wind_down_threads (130 ∷ 500 ∷ 120 ∷ []) 100 100).0 < 90 + supervisor_kill_after 100)
unfolding program
wind_down_threads-slowest_example =
    wind_down_threads-slowest (130 ∷ 500 ∷ 120 ∷ []) 100 90 100 (omega arith)

abbrev fingerprint : ℕ → ℕ → Fingerprint
fingerprint account_id updated_at = record { account_id = account_id; updated_at = updated_at }

abbrev threads : List Fingerprint
threads = fingerprint 1 5 ∷ fingerprint 2 5 ∷ []

abbrev accounts : List Fingerprint
accounts = fingerprint 2 8 ∷ fingerprint 3 9 ∷ []

plan_of_three :
    plan_reconcile threads accounts
    ≡ record { to_spawn = 3 ∷ []; to_teardown = 1 ∷ []; to_respawn = 2 ∷ [] }
unfolding program
plan_of_three = refl

reconcile-fingerprint_of_example :
    fingerprint_of 2 (reconcile threads accounts) ≡ fingerprint_of 2 accounts
unfolding program
reconcile-fingerprint_of_example = reconcile-fingerprint_of threads accounts 2
