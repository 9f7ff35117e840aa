-- ===== src/Daemon/Shutdown.antt =====
-- src/localmail/shutdown_budget.py. Moments and durations are in milliseconds of one monotonic
-- clock. A thread is the moment at which it ends once it is signalled.
use localmail.Common.{ℕ, ◌+◌, ◌-◌, ◌≤◌, ◌<◌, min, max, ◌≡◌, ◌∙◌, List, [], ◌∷◌, arith}

abbrev pub supervisor_kill_margin : ℕ
supervisor_kill_margin = 5000

unfoldable pub remaining_seconds : ℕ → ℕ → ℕ
remaining_seconds deadline now = deadline - now

unfoldable pub supervisor_kill_after : ℕ → ℕ
supervisor_kill_after child_grace = child_grace + supervisor_kill_margin

-- `Thread.join(timeout)` at the moment `now`: it returns when the thread ends, or when the timeout
-- has passed.
abbrev pub join : ℕ → ℕ → ℕ → ℕ
join ends timeout now = max now (min ends (now + timeout))

-- The joins, from `now` on, against the deadline.
unfoldable pub join_all : ℕ → List ℕ → ℕ → ℕ
unfolding remaining_seconds
join_all deadline [] now = now
join_all deadline (thread ∷ threads) now =
    join_all deadline threads (join thread (remaining_seconds deadline now) now)

-- Every stop event is set at the moment `now`, before the first join. The results are the moment of
-- the return and the budget that is left.
unfoldable pub wind_down_threads : List ℕ → ℕ → ℕ → ℕ × ℕ
unfolding remaining_seconds
wind_down_threads threads grace now =
    let finished = join_all (now + grace) threads now in
    (finished, remaining_seconds (now + grace) finished)

-- The moment at which the last of the threads ends.
abbrev pub slowest : List ℕ → ℕ
slowest [] = 0
slowest (thread ∷ threads) = max thread (slowest threads)

join_all-slowest :
    (deadline : ℕ) (threads : List ℕ) (now : ℕ)
    → now ≤ deadline
    → join_all deadline threads now ≡ max now (min (slowest threads) deadline)
unfolding join_all remaining_seconds
join_all-slowest deadline [] now le = omega arith
join_all-slowest deadline (t ∷ threads) now le =
    join_all-slowest deadline threads (join t (deadline - now) now) (omega arith) ∙ omega arith

-- The joins return when the slowest thread ends or the one deadline comes, whichever is first: the
-- budget bounds the slowest thread, not the sum. What is left of it is reported. The supervisor waits
-- for its child from the moment `signalled` of its SIGTERM on, and kills it later than the return
-- where less than its margin passes from there until the child sets its stop events.
pub wind_down_threads-slowest :
    (threads : List ℕ) (grace signalled now : ℕ)
    → now < signalled + supervisor_kill_margin
    → ((wind_down_threads threads grace now).0 ≡ max now (min (slowest threads) (now + grace)))
      × ((wind_down_threads threads grace now).0 + (wind_down_threads threads grace now).1
          ≡ now + grace)
      × ((wind_down_threads threads grace now).0 < signalled + supervisor_kill_after grace)
unfolding wind_down_threads remaining_seconds supervisor_kill_after
wind_down_threads-slowest threads grace signalled now prompt =
    let e = join_all-slowest (now + grace) threads now (omega arith) in
    (e, omega arith, omega arith)
