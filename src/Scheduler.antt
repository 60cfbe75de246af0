-- ===== src/Scheduler.antt =====
-- `retry_delay` of src/core.rs, and src/scheduler.rs.
pub mod Laws
pub mod Saved
use tarvaultsync.Prelude.{
  ℕ, zero, suc, ◌+◌, ◌*◌, ◌-◌, ◌%◌, ◌^◌, min, Option, none, some, Bool, true, false, ◌&&◌, ltb,
  if◌then◌else◌,
}
use tarvaultsync.Prelude.Text.{Text}
use tarvaultsync.Core.{SyncOutcome, failed, source_error, version_conflict, target_error}
use tarvaultsync.Core.Engine.{Parts, Engine, sync}

-- The largest `u64`, where the saturating operations stop.
abbrev pub u64_max : ℕ
u64_max = 2 ^ 64 - 1

-- In milliseconds
unfoldable pub retry_delay : ℕ → ℕ → ℕ
retry_delay attempt seed =
    let base = min (min (2 ^ min attempt 8) u64_max) 300 in base * 1000 + seed % 501

-- In seconds
unfoldable pub interval_delay : ℕ → ℕ → ℕ
interval_delay interval_seconds seed = min (interval_seconds + seed % 3) u64_max

-- The failures after which `run_binding` tries again
abbrev pub is_retryable : SyncOutcome → Bool
is_retryable (failed source_error) = true
is_retryable (failed version_conflict) = true
is_retryable (failed target_error) = true
is_retryable _ = false

module _ {W : Type 0} (p : Parts W) (sleep : ℕ → W → W) (id : Text) (seed : ℕ) where
  -- The inner loop of `run_binding`, with its last outcome; `none` is the end of the fuel.
  unfoldable pub retry_loop : ℕ → ℕ → Engine W → Option (SyncOutcome × Engine W)
  retry_loop zero attempt e = none
  retry_loop (suc fuel) attempt e =
      let (o, e') = sync p id e in
      let again =
        retry_loop fuel (attempt + 1)
          (record e' { world = sleep (retry_delay (attempt + 1) seed) e'.world }) in
      if is_retryable o && ltb attempt 3 then again else some (o, e')

  -- One turn of the outer loop: the interval, and then the attempts.
  unfoldable pub run_once : ℕ → ℕ → Engine W → Option (SyncOutcome × Engine W)
  run_once fuel interval_seconds e =
      retry_loop fuel 0
        (record e { world = sleep (interval_delay interval_seconds seed * 1000) e.world })
