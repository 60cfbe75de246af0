-- ===== src/Core/Engine.antt =====
-- `Engine` of src/core.rs: one binding is synchronised, enabled or acknowledged at a time, under
-- the lock of its id. A handler is the sequence of its steps; an early `return` is an error of the
-- `Action`, and `outcome_of` joins the two ways to end.
mod Frame
pub mod Inner
pub mod Sync
pub mod Saved
pub mod Safe
pub mod EventLog
pub mod Durable
pub mod Handled
pub mod Notice
pub mod Handlers
use tarvaultsync.Prelude.{
  ℕ, ◌+◌, ◌*◌, Option, none, some, Bool, true, false, not, ◌&&◌, ◌||◌, List, [], ◌∷◌, ◌++◌, any,
  length, ◌==◌, nat_eq, ltb, if◌then◌else◌,
}
use tarvaultsync.Prelude.Text.{text, Text, text_eq}
use tarvaultsync.Prelude.Map.{Map, lookup, insert, remove, has_key}
use tarvaultsync.Prelude.Result.{
  Result, ok, err, map_err, ok_or, Action, lift, gets, modify, pure, raise, raise_if, ◌>>=◌, ◌>>◌,
}
use tarvaultsync.Core.{
  FilePath, Bytes, Binding, Config, DeviceState, SourceVersion, SecretPayload, ErrorCategory,
  SyncOutcome, RedactedStatus, Event, EventOperation, MissingTargetPolicy, TargetSpec,
}
use tarvaultsync.Core.{
  invalid_config, state_error, source_error, version_conflict, target_error, unchanged, applied,
  restart_required, disabled, failed, alert, recreate, disable, sync_operation,
  acknowledge_operation, enable_operation, is_docker_input, secret_type_eq, outcome_eq,
}
use tarvaultsync.Core.Os.{Os}
use tarvaultsync.Core.Traits.{SourceConnection, LocalTarget}
use tarvaultsync.Core.Store.{io, atomic_json, load_state}
use tarvaultsync.Core.Labels.{safe_version}

-- What an engine is built from, with the encoders of `serde_json`.
pub record Parts (W : Type 0) : Type 0 where
  pub os : Os W
  pub config : Config
  pub state_path : FilePath
  pub events_path : FilePath
  pub source : SourceConnection W
  pub target : LocalTarget W
  pub encode_state : DeviceState → Option Bytes
  pub decode_state : Bytes → Option DeviceState
  pub encode_event : Event → Option Bytes

-- What changes: the state in memory, and the world.
pub record Engine (W : Type 0) : Type 0 where
  pub state : DeviceState
  pub world : W

-- 1 MiB
abbrev pub event_log_limit : ℕ
event_log_limit = 1024 * 1024

-- `self.config.bindings.iter().find(|b| b.id == id)`
unfoldable pub find_in : Text → List Binding → Option Binding
find_in id [] = none
find_in id (b ∷ bs) = if b.id == id then some b else find_in id bs

-- Forget what was applied to some bindings.
unfoldable pub forget : List Text → DeviceState → DeviceState
forget [] s = s
forget (id ∷ ids) s = forget ids (record s {
  applied = remove id s.applied;
  status = remove id s.status;
  disabled = remove id s.disabled;
})

-- `matches!(status.get(id).map(|s| &s.outcome), Some(RestartRequired))`
unfoldable pub awaits_restart : Text → DeviceState → Bool
unfolding outcome_eq
awaits_restart id s = elim (lookup id s.status) [
  | none ↦ false
  | some r ↦ r.outcome == restart_required
]

-- What is returned when the version in the source is the one applied last.
unfoldable pub already_applied : Binding → DeviceState → SyncOutcome
already_applied b s =
    if is_docker_input b.target && awaits_restart b.id s then restart_required else unchanged

unfoldable pub is_current : Binding → Bool → SourceVersion → DeviceState → Bool
is_current b missing version s =
    not missing && (elim (lookup b.id s.applied) [ none ↦ false | some v ↦ v == version ])

-- The status, and the id among the disabled ones if the policy says so
unfoldable pub with_outcome : Text → ℕ → SyncOutcome → DeviceState → DeviceState
unfolding outcome_eq
with_outcome id timestamp outcome s = record s {
  status = insert id (record { timestamp = timestamp; outcome = outcome }) s.status;
  disabled = if outcome == disabled then insert id tt s.disabled else s.disabled;
}

-- The event that `enable_binding` and `acknowledge_restart` append
abbrev pub notice : Binding → EventOperation → ℕ → Event
notice b operation timestamp = record {
  timestamp = timestamp;
  binding_id = b.id;
  operation = operation;
  source_kind = b.source.store;
  outcome = unchanged;
}

module _ {W : Type 0} where
  -- A call that changes only the world, with its error.
  abbrev pub on_world : {E E' A : Type 0} → (E → E') → Action W E A → Action (Engine W) E' A
  on_world f m e = let (r, w) = m e.world in (map_err f r, record e { world = w })

  -- The end of a handler that returns a `SyncOutcome` on every path.
  abbrev pub outcome_of : Result SyncOutcome SyncOutcome × Engine W → SyncOutcome × Engine W
  outcome_of (ok o, e) = (o, e)
  outcome_of (err o, e) = (o, e)

  -- The early return at a target that is missing
  unfoldable pub missing_policy :
      Bool → MissingTargetPolicy → Action (Engine W) SyncOutcome (Unit {0})
  missing_policy true alert = raise (failed target_error)
  missing_policy true disable = raise disabled
  missing_policy true recreate = pure tt
  missing_policy false _ = pure tt

module _ {W : Type 0} (p : Parts W) where
  -- `Engine::new`
  unfoldable pub new_engine : W → Result ErrorCategory (Engine W)
  new_engine w = elim (load_state p.os p.decode_state p.state_path w) [
    | ok s ↦ ok (record { state = s; world = w })
    | err e ↦ err e
  ]

  -- `atomic_json(&self.state_path, &next)` and, if that succeeds, `*state = next`
  unfoldable pub commit : DeviceState → Action (Engine W) ErrorCategory (Unit {0})
  commit next = do
    on_world (λ e. e) (atomic_json p.os p.state_path (p.encode_state next))
    modify (λ e. record e { state = next })

  -- `if old.exists() { remove_file(&old)? }`
  unfoldable pub remove_old_log : Action W ErrorCategory (Unit {0})
  remove_old_log w =
      let old = p.os.with_extension p.events_path (text "ndjson.1") in
      if p.os.exists old w then io (p.os.remove_file old) w else (ok tt, w)

  -- Does the log exist, and would the event take it over the limit?
  unfoldable pub log_is_full : Bytes → W → Bool
  log_is_full bytes w = elim (p.os.metadata_len p.events_path w) [
    | none ↦ false
    | some len ↦ ltb event_log_limit (len + length bytes + 1)
  ]

  -- The log is moved aside if the event does not fit.
  unfoldable pub rotate : Bytes → Action W ErrorCategory (Unit {0})
  rotate bytes w =
      let old = p.os.with_extension p.events_path (text "ndjson.1") in
      if log_is_full bytes w
      then (remove_old_log >> io (p.os.rename p.events_path old)) w
      else (ok tt, w)

  unfoldable pub append_event : Event → Action W ErrorCategory (Unit {0})
  append_event event = do
    bytes ← lift (ok_or (p.encode_event event) state_error)
    rotate bytes
    io (p.os.append p.events_path (bytes ++ (b'\n' ∷ [])))

  unfoldable pub find_binding : Text → Option Binding
  find_binding id = find_in id p.config.bindings

  unfoldable pub invalidate_bindings : List Text → Action (Engine W) ErrorCategory (Unit {0})
  invalidate_bindings ids = do s ← gets (λ e. e.state); commit (forget ids s)

  -- `sync_inner` up to the read of the version
  unfoldable pub check_source : Binding → Action (Engine W) SyncOutcome (Bool × SourceVersion)
  unfolding missing_policy
  check_source b = do
    on_world failed (p.target.validate b.target b.secret_type)
    missing ← gets (λ e. p.target.is_missing b.target e.world)
    missing_policy missing b.missing_target
    version ← on_world failed (p.source.get_version b.source)
    raise_if (not (safe_version version)) (failed version_conflict)
    pure (missing, version)

  -- The rest of `sync_inner`, once the version is not the one applied last
  unfoldable pub fetch_and_apply :
      Binding → SourceVersion → Action (Engine W) SyncOutcome SyncOutcome
  fetch_and_apply b version = do
    payload ← on_world failed (p.source.get_value b.source version)
    raise_if (not (payload.kind == b.secret_type)) (failed version_conflict)
    on_world failed (p.target.apply_with_policy b.target payload b.missing_target)
    s ← gets (λ e. e.state)
    λ e.
        let (r, e') = commit (record s { applied = insert b.id version s.applied }) e in
        (map_err (λ _. failed state_error) r, e')
    pure (if is_docker_input b.target then restart_required else applied)

  unfoldable pub sync_inner : Binding → Engine W → SyncOutcome × Engine W
  sync_inner b e =
      let steps : Action (Engine W) SyncOutcome SyncOutcome = do
        (missing, version) ← check_source b
        s ← gets (λ e. e.state)
        raise_if (is_current b missing version s) (already_applied b s)
        fetch_and_apply b version
      in outcome_of (steps e)

  -- The end of `sync`: the status is written, then the event; either failure is the outcome.
  unfoldable pub record_outcome : Binding → SyncOutcome → Engine W → SyncOutcome × Engine W
  record_outcome b outcome e =
      let timestamp = p.os.now e.world in
      let steps : Action (Engine W) ErrorCategory (Unit {0}) = do
        s ← gets (λ e. e.state)
        commit (with_outcome b.id timestamp outcome s)
        on_world (λ e. e)
            (append_event (record {
              timestamp = timestamp;
              binding_id = b.id;
              operation = sync_operation;
              source_kind = b.source.store;
              outcome = outcome;
            }))
      in let (r, e') = steps e in elim r [ ok _ ↦ (outcome, e') | err _ ↦ (failed state_error, e') ]

  -- `sync` for a binding that is found, with its lock held
  unfoldable pub sync_binding : Binding → Engine W → SyncOutcome × Engine W
  sync_binding b e =
      if has_key b.id e.state.disabled
      then (disabled, e)
      else let (outcome, e') = sync_inner b e in record_outcome b outcome e'

  unfoldable pub sync : Text → Engine W → SyncOutcome × Engine W
  sync id e = elim (find_binding id) [
    | none ↦ (failed invalid_config, e)
    | some b ↦ sync_binding b e
  ]

  unfoldable pub enable_binding : Text → Action (Engine W) ErrorCategory (Unit {0})
  enable_binding id = do
    b ← lift (ok_or (find_binding id) invalid_config)
    s ← gets (λ e. e.state)
    raise_if (not (has_key id s.disabled)) invalid_config
    commit (record s { disabled = remove id s.disabled })
    timestamp ← gets (λ e. p.os.now e.world)
    on_world (λ e. e) (append_event (notice b enable_operation timestamp))

  unfoldable pub acknowledge_restart : Text → Action (Engine W) ErrorCategory (Unit {0})
  acknowledge_restart id = do
    b ← lift (ok_or (find_binding id) invalid_config)
    raise_if (not (is_docker_input b.target)) invalid_config
    timestamp ← gets (λ e. p.os.now e.world)
    s ← gets (λ e. e.state)
    raise_if (not (awaits_restart id s)) invalid_config
    commit (record s {
      status = insert id (record { timestamp = timestamp; outcome = unchanged }) s.status;
    })
    on_world (λ e. e) (append_event (notice b acknowledge_operation timestamp))

  -- `status`
  unfoldable pub status_of : Engine W → DeviceState
  status_of e = e.state
