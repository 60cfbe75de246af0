-- ===== src/Scheduler/Laws.antt =====
-- The delays of the scheduler, and how often it tries.
use tarvaultsync.Prelude.{
  ℕ, zero, suc, ◌+◌, ◌*◌, ◌%◌, ◌^◌, ◌≤◌, ◌<◌, min, ltb, ◌≡◌, refl, ◌∙◌, ap, subst, inl, inr, some,
  true, arith, Bool-cases,
}
use native.Mathlib.Nat.{one-le-pow, pow-le-pow_right}
use tarvaultsync.Prelude.Text.{Text}
use tarvaultsync.Core.{SyncOutcome}
use tarvaultsync.Core.Engine.{Parts, Engine, sync}
use tarvaultsync.Scheduler.{retry_delay, interval_delay, is_retryable, retry_loop, run_once}

-- 2 ^ k for a k up to 8 is at least 1 and at most 256.
small_power : (k : ℕ) → k ≤ 8 → (1 ≤ 2 ^ k) × (2 ^ k ≤ 256)
small_power k h = (one-le-pow k 2 (omega arith), pow-le-pow_right {n = 2} (omega arith) h)

-- The delay doubles up to 2 ^ 8 seconds, with up to half a second on top: the cap of 300 seconds
-- and the saturation are never reached.
pub retry_delay_lem :
    (attempt seed : ℕ) → retry_delay attempt seed ≡ 1000 * 2 ^ min attempt 8 + seed % 501
unfolding retry_delay
retry_delay_lem attempt seed = omega (arith, small_power (min attempt 8))

-- Every delay lies between one second and 256.5 seconds.
pub retry_delay_bounds :
    (attempt seed : ℕ) → (1000 ≤ retry_delay attempt seed) × (retry_delay attempt seed ≤ 256500)
retry_delay_bounds attempt seed =
    let b = small_power (min attempt 8) (omega arith) in
    rw retry_delay_lem (omega arith, omega arith)

module _ {W : Type 0} (p : Parts W) (sleep : ℕ → W → W) (id : Text) (seed : ℕ) where
  -- The engine after a pause
  abbrev pub after_sleep : ℕ → Engine W → Engine W
  after_sleep delay e = record e { world = sleep delay e.world }

  -- The run with number `n`, counted from 0, when the first one starts at this engine: each next one
  -- starts where the one before ended, after the delay of its number.
  unfoldable pub run_at : ℕ → Engine W → SyncOutcome × Engine W
  run_at zero e = sync p id e
  run_at (suc n) e = sync p id (after_sleep (retry_delay (n + 1) seed) (run_at n e).1)

  -- The outcomes before number `n` are to be retried.
  abbrev pub AllRetried : ℕ → Engine W → Type 0
  AllRetried n e = (k : ℕ) → k < n → is_retryable (run_at k e).0 ≡ true

  one_retried :
      (n : ℕ) (e : Engine W)
      → AllRetried n e
      → is_retryable (run_at n e).0 ≡ true
      → AllRetried (n + 1) e
  one_retried n e before h k q = elim (Bool-cases (ltb k n)) [
    | inl l ↦ before k (ground arith)
    | inr l ↦ subst (λ j. is_retryable (run_at j e).0 ≡ true) (ground arith) h
  ]

  -- From the attempt that was reached, fuel for the attempts left and one more is enough.
  retry_loop_lem :
      (left attempt : ℕ) (start : Engine W) (e : Engine W)
      → attempt + left ≡ 3
      → sync p id e ≡ run_at attempt start
      → AllRetried attempt start
      → (n : ℕ) × (retry_loop p sleep id seed (suc left) attempt e ≡ some (run_at n start))
        × (n ≤ 3)
        × AllRetried n start
        × (is_retryable (run_at n start).0 ≡ true → n ≡ 3)
  unfolding retry_loop run_at
  retry_loop_lem zero attempt start e h s before =
      (attempt, ground arith, omega arith, before, λ _. omega arith)
  retry_loop_lem (suc left) attempt start e h s before =
      elim (Bool-cases (is_retryable (sync p id e).0)) [
        | inr final ↦ (attempt, ground arith, omega arith, before, λ r. ground arith)
        | inl again ↦
            let one_more : suc attempt ≡ attempt + 1 = omega arith in
            let (n, q, bound, all, last) =
              retry_loop_lem left (attempt + 1) start
                (after_sleep (retry_delay (attempt + 1) seed) (sync p id e).1) (omega arith)
                (ap (λ r. sync p id (after_sleep (retry_delay (attempt + 1) seed) r.1)) s
                  ∙ ap (λ k. run_at k start) one_more)
                (one_retried attempt start before (subst (λ r. is_retryable r.0 ≡ true) s again)) in
            (n, ground arith, bound, all, last)
      ]

  -- One turn of the scheduler ends with fuel for four attempts: after a pause of the interval, `sync`
  -- runs once and at most three times more, each time after the delay of its number and on the engine
  -- that the run before left; every run but the last had an outcome that is to be retried, and the last
  -- one only when it was the fourth.
  pub run_once_lem :
      (interval_seconds : ℕ) (e : Engine W)
      → let start = after_sleep (interval_delay interval_seconds seed * 1000) e in
        (n : ℕ) × (run_once p sleep id seed 4 interval_seconds e ≡ some (run_at n start))
        × (n ≤ 3)
        × AllRetried n start
        × (is_retryable (run_at n start).0 ≡ true → n ≡ 3)
  unfolding run_once run_at
  run_once_lem interval_seconds e =
      retry_loop_lem 3 0 _ _ (omega arith) refl (λ k h. absurd (omega arith))
