-- ===== src/Tests/Engine.antt =====
-- The engine over the fake store and target.
mod Witnesses
mod Durable
mod EventLog
use tarvaultsync.Prelude.{
  ℕ, ◌≡◌, refl, ◌≢◌, ◌⊎◌, ◌≤◌, ◌+◌, Option, none, some, Bool, true, false, List, [], ◌∷◌, ◌++◌,
  arith, length, if◌then◌else◌, contains, nat_eq,
}
use tarvaultsync.Prelude.Text.{Text, text, text_eq, text_lt}
use tarvaultsync.Prelude.Map.{lookup, insert, remove, has_key, keys}
use tarvaultsync.Prelude.Result.{Result, ok, err}
use tarvaultsync.Core.{
  Binding, DeviceState, RedactedStatus, Bytes, SourceVersion, SyncOutcome, applied, unchanged,
  restart_required, disabled, failed, target_error, source_error, invalid_config, state_error,
  outcome_eq, secret_type_eq, docker_input, compose_environment, ErrorCategory,
}
use tarvaultsync.Core.Labels.{safe_version, safe_label}
use tarvaultsync.Core.Fakes.{fake_get_version, fake_get_value, fake_validate, fake_apply}
use tarvaultsync.Core.Store.{atomic_json, load_state, fresh_state}
use tarvaultsync.Core.Engine.{
  Parts, Engine, sync, sync_inner, sync_binding, check_source, fetch_and_apply, record_outcome,
  find_binding, find_in, commit, append_event, rotate, log_is_full, remove_old_log, is_current,
  already_applied, awaits_restart, with_outcome, missing_policy, enable_binding,
  acknowledge_restart, invalidate_bindings, forget, new_engine,
}
use tarvaultsync.Core.Engine.Inner.{Stays, Advances, Checked, sync_inner-Advances, after_version}
use tarvaultsync.Core.Engine.Sync.{
  Agrees, Written, sync_binding_advances, sync_binding_records, sync-others,
}
use tarvaultsync.Tests.World.{World, parts, binding, start, disk}

-- An encoder that stores every state; nothing is read back here.
abbrev pub p : Parts World
p = parts (λ s. some (b'{' ∷ b'}' ∷ [])) (λ x. none)

abbrev pub begin : Text → Bool → Engine World
begin version fail = record { state = fresh_state; world = start version fail }

-- `sync` with everything that it calls open
run : Text → Engine World → SyncOutcome × Engine World
unfolding sync sync_binding sync_inner check_source fetch_and_apply record_outcome find_binding
    find_in commit append_event rotate log_is_full is_current already_applied awaits_restart
    with_outcome missing_policy atomic_json safe_version text_eq text_lt lookup insert remove
    outcome_eq secret_type_eq nat_eq fake_get_version fake_get_value fake_validate fake_apply
run = sync p

-- The test `metadata_first_and_failed_apply_retry`: the payload is read once for one version.
first_run : (run (text "b1") (begin (text "v1") false)).0 ≡ applied
unfolding run
first_run = refl

second_run :
    let (o, e) = run (text "b1") (run (text "b1") (begin (text "v1") false)).1 in
    (o ≡ unchanged) × (e.world.store.reads ≡ (2, 1))
unfolding run
second_run = (refl, refl)

failed_run :
    let (o, e) = run (text "b1") (begin (text "v1") true) in
    (o ≡ failed target_error) × (e.state.applied ≡ [])
unfolding run
failed_run = (refl, refl)

unknown_id : (run (text "b2") (begin (text "v1") false)).0 ≡ failed invalid_config
unfolding run
unknown_id = refl
