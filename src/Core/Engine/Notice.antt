-- ===== src/Core/Engine/Notice.antt =====
-- The notice that a container must be restarted.
use tarvaultsync.Prelude.{◌≡◌, ◌⊎◌, some, true, false, arith}
use tarvaultsync.Prelude.Text.{text_eq}
use tarvaultsync.Prelude.Map.{lookup, has_key, lookup-insert}
use tarvaultsync.Core.{Binding, SourceVersion}
use tarvaultsync.Core.{
  state_error, restart_required, failed, is_docker_input, secret_type_eq, outcome_eq,
}
use tarvaultsync.Core.Engine.{
  Parts, Engine, sync_inner, already_applied, with_outcome, sync_binding, awaits_restart,
}
use tarvaultsync.Core.Engine.Inner.{Checked, after_validate, sync_inner_current}
use tarvaultsync.Core.Engine.Sync.{record_outcome_state}

module _ {W : Type 0} (p : Parts W) where
  -- For a binding of a Docker target that is not disabled and whose restart is due: when the checks
  -- of the run pass, the target is there and the source still has the version applied last, then the
  -- run reports again that a restart is due, or a state error when the result could not be stored;
  -- the restart stays due in both cases.
  pub restart_notice-kept :
      (b : Binding) (e : Engine W) (v : SourceVersion)
      → is_docker_input b.target ≡ true
      → has_key b.id e.state.disabled ≡ false
      → awaits_restart b.id e.state ≡ true
      → Checked p b v e.world
      → p.target.is_missing b.target (after_validate p b e.world) ≡ false
      → lookup b.id e.state.applied ≡ some v
      → let (o, e') = sync_binding p b e in
        ((o ≡ restart_required) ⊎ (o ≡ failed state_error)) × (awaits_restart b.id e'.state ≡ true)
  unfolding sync_binding already_applied awaits_restart with_outcome
  restart_notice-kept b e v docker d waits c present last = ground (
    arith,
    sync_inner_current p b e v c present last,
    record_outcome_state p b (sync_inner p b e).0 (sync_inner p b e).1,
    lookup-insert b.id b.id
        (record { timestamp = p.os.now (sync_inner p b e).1.world; outcome = (sync_inner p b e).0 })
        (sync_inner p b e).1.state.status,
  )
