-- ===== src/Jobs/Backoff.antt =====
-- The backoff of a failed job (jobs.py).
use Prim.Native.Nat.{min}
use native.Mathlib.Nat.{one-le-pow, pow-le-pow_right, mul-le-mul_left}
use lode.Prelude.{ℕ, ◌+◌, ◌-◌, ◌*◌, ◌^◌, ◌≤◌, ◌<◌, ◌≡◌, ◌⊎◌, inl, inr, ltb, Bool-cases, arith}
use lode.Jobs.{RetrySettings, iso, backoff_next_attempt_at}

minus : (a : ℕ) → a + 1 - 1 ≡ a
minus a = omega arith

-- The delay before the cap, after the failure of the attempt `n + 1`.
raw_delay : RetrySettings → ℕ → ℕ
raw_delay settings n = settings.retry_backoff_base * 2 ^ n

raw_delay-grows :
    (settings : RetrySettings) (a b : ℕ) → a ≤ b → raw_delay settings a ≤ raw_delay settings b
unfolding raw_delay
raw_delay-grows settings a b h =
    mul-le-mul_left settings.retry_backoff_base (pow-le-pow_right (omega arith) h)

raw_delay-base :
    (settings : RetrySettings) (a : ℕ) → settings.retry_backoff_base ≤ raw_delay settings a
unfolding raw_delay
raw_delay-base settings a =
    let step : settings.retry_backoff_base * 1 ≤ settings.retry_backoff_base * 2 ^ a =
      mul-le-mul_left settings.retry_backoff_base (one-le-pow a 2 (omega arith)) in
    omega arith

-- A job that failed at `now` is due again no earlier than the lesser of base and cap after it, and no
-- later than the cap after it; the time grows with the attempts, and with the time of the failure;
-- and it is strictly later than `now`, so that the retry sweep of that very moment leaves the job,
-- unless base or cap is less than a millisecond.
pub backoff_lem :
    (settings : RetrySettings) (now later a b : ℕ)
    → now ≤ later
    → a ≤ b
    → (iso (now + min settings.retry_backoff_base settings.retry_backoff_cap)
        ≤ backoff_next_attempt_at settings now (a + 1))
      × (backoff_next_attempt_at settings now (a + 1) ≤ iso (now + settings.retry_backoff_cap))
      × (backoff_next_attempt_at settings now (a + 1)
          ≤ backoff_next_attempt_at settings later (b + 1))
      × ((min settings.retry_backoff_base settings.retry_backoff_cap < 1000)
          ⊎ (iso now < backoff_next_attempt_at settings now (a + 1)))
unfolding backoff_next_attempt_at iso raw_delay
backoff_lem settings now later a b h k =
    let low : settings.retry_backoff_base ≤ settings.retry_backoff_base * 2 ^ a =
      raw_delay-base settings a in
    let grows : settings.retry_backoff_base * 2 ^ a ≤ settings.retry_backoff_base * 2 ^ b =
      raw_delay-grows settings a b k in
    rw (minus a, minus b)
      (
        omega arith,
        omega arith,
        omega arith,
        elim (Bool-cases (ltb (min settings.retry_backoff_base settings.retry_backoff_cap) 1000)) [
          | inl small ↦ inl (ground (arith, small))
          | inr large ↦ inr (ground (arith, large, low))
        ],
      )
