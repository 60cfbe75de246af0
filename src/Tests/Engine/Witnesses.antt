-- ===== src/Tests/Engine/Witnesses.antt =====
-- The theorems on the engine at concrete runs.
use tarvaultsync.Prelude.{
  ℕ, ◌≡◌, refl, ◌≢◌, ◌⊎◌, none, some, Bool, true, false, [], ◌∷◌, arith, if◌then◌else◌, nat_eq,
  ◌==◌,
}
use tarvaultsync.Prelude.Text.{Text, text, text_eq, text_lt}
use tarvaultsync.Prelude.Map.{lookup, insert, remove, has_key}
use tarvaultsync.Prelude.Result.{ok, err}
use tarvaultsync.Core.{
  is_docker_input, Binding, SourceVersion, SyncOutcome, applied, unchanged, restart_required,
  disabled, failed, invalid_config, state_error, outcome_eq, secret_type_eq, docker_input,
  compose_environment,
}
use tarvaultsync.Core.Labels.{safe_version}
use tarvaultsync.Core.Fakes.{fake_get_version, fake_get_value, fake_validate, fake_apply}
use tarvaultsync.Core.Store.{atomic_json}
use tarvaultsync.Core.Engine.{
  Parts, Engine, sync, sync_inner, sync_binding, check_source, fetch_and_apply, record_outcome,
  find_binding, find_in, commit, append_event, rotate, log_is_full, is_current, awaits_restart,
  with_outcome, missing_policy, enable_binding, acknowledge_restart, invalidate_bindings,
}
use tarvaultsync.Core.Engine.Inner.{Stays, Advances, Checked, sync_inner-Advances}
use tarvaultsync.Core.Engine.Sync.{
  Agrees, Written, sync_binding_advances, sync_binding_records, sync-others,
}
use tarvaultsync.Core.Engine.Handlers.{
  enable_binding_lem, enable_binding-enables, acknowledge_restart-clears,
  acknowledge_restart-refused, invalidate_bindings_lem,
}
use tarvaultsync.Core.Engine.Notice.{restart_notice-kept}
use tarvaultsync.Tests.World.{World, binding, start}
use tarvaultsync.Tests.Engine.{p, begin}

abbrev first : Engine World
first = begin (text "v1") false

-- Version `v1` is applied, and the binding is disabled or not.
abbrev synced : Bool → Engine World
synced stopped = record {
  state = record {
    version = 1;
    applied = (text "b1", text "v1") ∷ [];
    status = (text "b1", record { timestamp = 3; outcome = applied }) ∷ [];
    disabled = if stopped then (text "b1", tt) ∷ [] else [];
  };
  world = start (text "v1") false;
}

v1-Checked : Checked p binding (text "v1") (start (text "v1") false)
unfolding fake_validate fake_get_version safe_version
v1-Checked = (refl, refl, refl)

sync_inner-Advances_example :
    let (o, e') = sync_inner p binding first in Stays p first o e' ⊎ Advances p binding first o e'
sync_inner-Advances_example = sync_inner-Advances p binding first

sync_binding_advances_example :
    let (_, e') = sync_binding p binding first in
    (e'.state.applied ≡ [])
    ⊎ ((v : SourceVersion) × (payload : _) × Written p binding v payload first.world
        × (e'.state.applied ≡ insert (text "b1") v []))
sync_binding_advances_example = sync_binding_advances p binding first

first_outcome : (sync_binding p binding first).0 ≡ applied
unfolding sync_binding sync_inner check_source fetch_and_apply record_outcome commit append_event
    rotate log_is_full is_current missing_policy atomic_json safe_version text_eq text_lt lookup
    insert outcome_eq secret_type_eq nat_eq fake_get_version fake_get_value fake_validate fake_apply
    with_outcome remove
first_outcome = refl

applied-ne-failed : (o : SyncOutcome) → o ≡ applied → o ≢ failed state_error
applied-ne-failed o h k = cc

sync_binding_records_example :
    let (o, e') = sync_binding p binding first in
    ((t : ℕ) × (lookup (text "b1") e'.state.status ≡ some (record { timestamp = t; outcome = o })))
    × (has_key (text "b1") e'.state.disabled ≡ (o == disabled))
unfolding lookup
sync_binding_records_example =
    sync_binding_records p binding first refl (applied-ne-failed _ first_outcome)

sync-others_example : Agrees (text "b2") first.state (sync p (text "b1") first).1.state
sync-others_example = sync-others p (text "b1") first (text "b2") (λ h. ground arith)

enable_binding-enables_example :
    (has_key (text "b1") (synced true).state.disabled ≡ true)
    × (has_key (text "b1") (enable_binding p (text "b1") (synced true)).1.state.disabled ≡ false)
enable_binding-enables_example = enable_binding-enables p (text "b1") (synced true) enabled
  where
    enabled : (enable_binding p (text "b1") (synced true)).0 ≡ ok tt
    enabled =
        unfold enable_binding find_binding find_in text_eq lookup remove commit atomic_json
          append_event rotate log_is_full insert in
        refl

enable_binding_lem_example :
    ((synced true).state.disabled ≢ [])
    × (((find_binding p (text "b2") ≡ none)
            ⊎ (has_key (text "b2") (synced true).state.disabled ≡ false))
          × ((enable_binding p (text "b2") (synced true)).0 ≡ err invalid_config)
          × ((enable_binding p (text "b2") (synced true)).1 ≡ synced true)
        ⊎ (has_key (text "b2") (synced true).state.disabled ≡ true)
          × (((enable_binding p (text "b2") (synced true)).1.state ≡ record (synced true).state {
            disabled = remove (text "b2") (synced true).state.disabled;
          })
              ⊎ (((enable_binding p (text "b2") (synced true)).1.state ≡ (synced true).state)
                  × ((enable_binding p (text "b2") (synced true)).0 ≢ ok tt))))
enable_binding_lem_example = ((λ h. cc), enable_binding_lem p (text "b2") (synced true))

invalidate_bindings_lem_example :
    let e = synced false in
    let (r, e') = invalidate_bindings p (text "b1" ∷ []) e in
    ((r ≡ err state_error) × (e'.state ≡ e.state))
    ⊎ ((r ≡ ok tt)
        × (lookup (text "b1") e'.state.applied ≡ none)
        × (lookup (text "b1") e'.state.status ≡ none)
        × (lookup (text "b1") e'.state.disabled ≡ none))
unfolding text_eq
invalidate_bindings_lem_example =
    invalidate_bindings_lem p (text "b1" ∷ []) (synced false) (text "b1")

-- A Docker target, with a target that accepts it.
abbrev docker : Binding
docker = record binding { target = docker_input (text "/r/c") (text "web:T") compose_environment }

abbrev q : Parts World
q = record p {
  config = record { version = 1; bindings = docker ∷ [] };
  target = record p.target { validate = λ t kind w. (ok tt, w) };
}

-- `v1` is applied and its restart is due; the source has this version.
abbrev due : Text → Bool → Engine World
due version fail = record {
  state = record {
    version = 1;
    applied = (text "b1", text "v1") ∷ [];
    status = (text "b1", record { timestamp = 3; outcome = restart_required }) ∷ [];
    disabled = [];
  };
  world = start version fail;
}

docker-Checked : Checked q docker (text "v1") (start (text "v1") false)
unfolding fake_get_version safe_version
docker-Checked = (refl, refl, refl)

is_due : (version : Text) (fail : Bool) → awaits_restart (text "b1") (due version fail).state ≡ true
unfolding awaits_restart lookup text_eq outcome_eq
is_due version fail = refl

restart_notice-kept_example :
    let (o, e') = sync_binding q docker (due (text "v1") false) in
    ((o ≡ restart_required) ⊎ (o ≡ failed state_error))
    × (awaits_restart (text "b1") e'.state ≡ true)
unfolding lookup text_eq
restart_notice-kept_example =
    restart_notice-kept q docker (due (text "v1") false) (text "v1") refl refl
      (is_due (text "v1") false) docker-Checked refl refl

acknowledge_restart-clears_example :
    ((b : Binding) × (find_binding q (text "b1") ≡ some b) × (is_docker_input b.target ≡ true))
    × (awaits_restart (text "b1") (due (text "v1") false).state ≡ true)
    × (lookup (text "b1") (acknowledge_restart q (text "b1") (due (text "v1") false)).1.state.status
        ≡ some (record { timestamp = 7; outcome = unchanged }))
acknowledge_restart-clears_example =
    acknowledge_restart-clears q (text "b1") (due (text "v1") false) acknowledged
  where
    acknowledged : (acknowledge_restart q (text "b1") (due (text "v1") false)).0 ≡ ok tt
    acknowledged =
        unfold acknowledge_restart awaits_restart find_binding find_in text_eq lookup outcome_eq
          commit atomic_json append_event rotate log_is_full insert text_lt remove in
        refl

acknowledge_restart-refused_example :
    acknowledge_restart q (text "b1") (synced false) ≡ (err invalid_config, synced false)
acknowledge_restart-refused_example = acknowledge_restart-refused q (text "b1") (synced false) idle
  where
    idle : awaits_restart (text "b1") (synced false).state ≡ false
    idle = unfold awaits_restart lookup text_eq outcome_eq in refl
