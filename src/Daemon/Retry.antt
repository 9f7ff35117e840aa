-- ===== src/Daemon/Retry.antt =====
-- src/localmail/retry.py. Durations are in milliseconds, the factor is a whole number (the default
-- is 2), and log lines are left out.
use mathlib.Core.Path.{subst}
use localmail.Common.{
  ℕ, zero, suc, ◌+◌, ◌*◌, ◌<◌, min, ◌≡◌, Bool, true, false, List, [], ◌∷◌, arith, ◌≤◌, max, refl,
  ap, ◌∙◌,
}
use localmail.Common.Lists.{length, All}

unfoldable pub next_backoff : ℕ → ℕ → ℕ → ℕ
next_backoff current factor max_delay = min (current * factor) max_delay

-- What an attempt does: it returns, raises RetryAborted itself, or raises any other exception.
pub data Attempt {ℓ} (T : Type ℓ) : Type ℓ where
  returns : T → Attempt T
  aborts : Attempt T
  fails : Attempt T

-- What happens around the call: attempt `n`, whether the stop event is set before it, and whether it
-- is set during the wait that follows it.
pub record Surroundings {ℓ} (T : Type ℓ) : Type ℓ where
  pub operation : ℕ → Attempt T
  pub is_set : ℕ → Bool
  pub set_in_wait : ℕ → Bool

pub data Outcome {ℓ} (T : Type ℓ) : Type ℓ where
  result : T → Outcome T
  aborted : Outcome T
  out_of_fuel : Outcome T

module _ {ℓ} {T : Type ℓ} (env : Surroundings T) (factor max_delay : ℕ) where
  abbrev pub waited : ℕ → Outcome T × List ℕ × ℕ → Outcome T × List ℕ × ℕ
  waited backoff (o, waits, calls) = (o, backoff ∷ waits, calls)

  -- One more call of the operation.
  abbrev pub called : Outcome T × List ℕ × ℕ → Outcome T × List ℕ × ℕ
  called (o, waits, calls) = (o, waits, suc calls)

  -- `rest` is what the next turns of the loop give.
  abbrev pub on_wait : ℕ → Outcome T × List ℕ × ℕ → Bool → Outcome T × List ℕ × ℕ
  on_wait backoff rest true = (aborted, backoff ∷ [], 0)
  on_wait backoff rest false = waited backoff rest

  abbrev pub on_attempt : ℕ → ℕ → Outcome T × List ℕ × ℕ → Attempt T → Outcome T × List ℕ × ℕ
  on_attempt n backoff rest (returns x) = (result x, [], 0)
  on_attempt n backoff rest aborts = (aborted, [], 0)
  on_attempt n backoff rest fails = on_wait backoff rest (env.set_in_wait n)

  abbrev pub on_stop : ℕ → ℕ → Outcome T × List ℕ × ℕ → Bool → Outcome T × List ℕ × ℕ
  on_stop n backoff rest true = (aborted, [], 0)
  on_stop n backoff rest false = called (on_attempt n backoff rest (env.operation n))

  -- The loop from attempt `n` on, with the waits and the number of calls that it makes. Fuel bounds the attempts.
  unfoldable pub retry_from : ℕ → ℕ → ℕ → Outcome T × List ℕ × ℕ
  unfolding next_backoff
  retry_from zero n backoff = (out_of_fuel, [], 0)
  retry_from (suc fuel) n backoff =
      on_stop n backoff (retry_from fuel (n + 1) (next_backoff backoff factor max_delay))
        (env.is_set n)

  unfoldable pub retry_with_backoff : ℕ → ℕ → Outcome T × List ℕ × ℕ
  retry_with_backoff fuel initial = retry_from fuel 0 initial

  -- `k` attempts from `n` on fail with no stop signal.
  abbrev pub AllFail : ℕ → ℕ → Type ℓ
  AllFail zero n = Unit
  AllFail (suc k) n =
      (env.is_set n ≡ false)
      × (env.operation n ≡ fails)
      × (env.set_in_wait n ≡ false)
      × AllFail k (n + 1)

  -- The delays of `k` waits, the first of them `backoff`.
  abbrev pub delays : ℕ → ℕ → List ℕ
  delays zero backoff = []
  delays (suc k) backoff = backoff ∷ delays k (min (backoff * factor) max_delay)

  ends_at :
      (k fuel n m backoff last_calls : ℕ) (o : Outcome T)
      → m ≡ n + k
      → AllFail k n
      → ((f b : ℕ) → retry_from (suc f) m b ≡ (o, [], last_calls))
      → k < fuel
      → retry_from fuel n backoff ≡ (o, delays k backoff, k + last_calls)
  unfolding retry_from next_backoff
  ends_at k zero n m backoff last_calls o e all last enough = absurd (omega arith)
  ends_at zero (suc fuel) n m backoff last_calls o e all last enough =
      let same : m ≡ n = omega arith in
      let none_more : last_calls ≡ 0 + last_calls = omega arith in
      subst (λ i. retry_from (suc fuel) i backoff ≡ (o, [], last_calls)) same (last fuel backoff)
      ∙ (λ i. (o, [], none_more i))
  ends_at (suc k) (suc fuel) n m backoff last_calls o e all last enough =
      let (quiet, failed, calm, later) = all in
      let next = min (backoff * factor) max_delay in
      let rest =
        ends_at k fuel (n + 1) m next last_calls o (omega arith) later last (omega arith) in
      let one_more : suc (k + last_calls) ≡ suc k + last_calls = omega arith in
      rw (quiet, failed, calm)
        (ap (λ x. called (waited backoff x)) rest ∙ (λ i. (o, backoff ∷ delays k next, one_more i)))

  length-delays : (k backoff : ℕ) → length (delays k backoff) ≡ k
  length-delays zero backoff = refl
  length-delays (suc k) backoff = omega (arith, length-delays k (min (backoff * factor) max_delay))

  delays_bounded :
      (bound k backoff : ℕ)
      → backoff ≤ bound
      → max_delay ≤ bound
      → All (λ d. d ≤ bound) (delays k backoff)
  delays_bounded bound zero backoff le cap = tt
  delays_bounded bound (suc k) backoff le cap =
      (le, delays_bounded bound k (min (backoff * factor) max_delay) (ground arith) cap)

  -- The call returns the result of the first attempt that succeeds, after one wait for each
  -- failure before it, none of them longer than the greater of the first delay and the cap, and no
  -- further attempt. No stop signal comes before it, and the fuel is more than the failures.
  pub retry_with_backoff-returns :
      (k fuel initial : ℕ) (x : T)
      → AllFail k 0
      → env.is_set k ≡ false
      → env.operation k ≡ returns x
      → k < fuel
      → (retry_with_backoff fuel initial ≡ (result x, delays k initial, k + 1))
        × (length (delays k initial) ≡ k)
        × All (λ d. d ≤ max initial max_delay) (delays k initial)
  unfolding retry_with_backoff retry_from
  retry_with_backoff-returns k fuel initial x all quiet done enough = (
    ends_at k fuel 0 k initial 1 (result x) (omega arith) all (λ f b. rw (quiet, done) refl) enough,
    length-delays k initial,
    delays_bounded (max initial max_delay) k initial (omega arith) (omega arith),
  )

  -- A stop signal wins: where it is set before an attempt, that attempt is not made, whatever it
  -- would give: the operation is called for the `k` attempts before it only. These fail with no stop
  -- signal, and the fuel is more than they are.
  pub retry_with_backoff-stops :
      (k fuel initial : ℕ)
      → AllFail k 0
      → env.is_set k ≡ true
      → k < fuel
      → retry_with_backoff fuel initial ≡ (aborted, delays k initial, k)
  unfolding retry_with_backoff retry_from
  retry_with_backoff-stops k fuel initial all stop enough =
      let none_more : k + 0 ≡ k = omega arith in
      ends_at k fuel 0 k initial 0 aborted (omega arith) all (λ f b. rw stop refl) enough
      ∙ (λ i. (aborted, delays k initial, none_more i))
