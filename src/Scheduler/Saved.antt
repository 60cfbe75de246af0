-- ===== src/Scheduler/Saved.antt =====
-- The state file of src/core.rs through a turn of src/scheduler.rs.
use tarvaultsync.Prelude.{ℕ, zero, suc, ◌+◌, ◌*◌, ◌≡◌, refl, some, true, All}
use tarvaultsync.Prelude.Text.{Text}
use tarvaultsync.Core.{SyncOutcome}
use tarvaultsync.Core.Labels.{safe_label}
use tarvaultsync.Core.Engine.{Parts, Engine}
use tarvaultsync.Core.Engine.Saved.{SameFile, Spares, IsReliable, IsSaved}
use tarvaultsync.Core.Engine.Durable.{IsSaved-SameFile, sync-IsSaved}
use tarvaultsync.Scheduler.{retry_delay, interval_delay, run_once}
use tarvaultsync.Scheduler.Laws.{after_sleep, run_at, run_once_lem}

module _ {W : Type 0} (p : Parts W) (sleep : ℕ → W → W) (id : Text) (seed : ℕ) (laws : IsReliable p)
    (ids : All (λ b. safe_label b.id ≡ true) p.config.bindings)
    (spares : All (Spares p) p.config.bindings)
    (sleep-same : (delay : ℕ) (w : W) → SameFile p w (sleep delay w)) where
  after_sleep-IsSaved :
      (delay : ℕ) (e : Engine W) → IsSaved p e → IsSaved p (after_sleep p sleep id seed delay e)
  after_sleep-IsSaved delay e h = IsSaved-SameFile p laws e _ refl (sleep-same delay e.world) h

  run_at-IsSaved : (n : ℕ) (e : Engine W) → IsSaved p e → IsSaved p (run_at p sleep id seed n e).1
  unfolding run_at
  run_at-IsSaved zero e h = sync-IsSaved p laws id e ids spares h
  run_at-IsSaved (suc n) e h =
      sync-IsSaved p laws id _ ids spares
        (after_sleep-IsSaved (retry_delay (n + 1) seed) _ (run_at-IsSaved n e h))

  -- If a restart would load the state in memory, then a turn of the scheduler ends, and a restart
  -- would load the state that it leaves; with safe ids in the configuration, no target that writes the
  -- state file, and pauses in which nothing writes it.
  pub run_once-IsSaved :
      (interval_seconds : ℕ) (e : Engine W)
      → IsSaved p e
      → (o : SyncOutcome) × (e' : Engine W) × (run_once p sleep id seed 4 interval_seconds e
          ≡ some (o, e'))
        × IsSaved p e'
  run_once-IsSaved interval_seconds e h =
      let start = after_sleep p sleep id seed (interval_delay interval_seconds seed * 1000) e in
      let (n, q, _, _, _) = run_once_lem p sleep id seed interval_seconds e in
      (
        (run_at p sleep id seed n start).0,
        (run_at p sleep id seed n start).1,
        q,
        run_at-IsSaved n start
            (after_sleep-IsSaved (interval_delay interval_seconds seed * 1000) e h),
      )
