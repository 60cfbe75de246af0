-- ===== src/Core/Engine/Handlers.antt =====
-- `enable_binding`, `acknowledge_restart` and `invalidate_bindings`, and the notice that a restart
-- is due.
use tarvaultsync.Prelude.{
  ◌≡◌, refl, ◌≢◌, ◌⊎◌, inl, inr, none, some, true, false, List, [], ◌∷◌, if◌then◌else◌, arith,
  Option-cases, contains,
}
use tarvaultsync.Prelude.Text.{Text, text_eq}
use tarvaultsync.Prelude.Map.{lookup, insert, remove, has_key, lookup-insert, lookup-remove}
use tarvaultsync.Prelude.Result.{ok, err}
use tarvaultsync.Core.{Binding, DeviceState}
use tarvaultsync.Core.{
  invalid_config, state_error, unchanged, is_docker_input, secret_type_eq, outcome_eq,
}
use tarvaultsync.Core.Engine.{
  Parts, Engine, find_binding, enable_binding, acknowledge_restart, invalidate_bindings, forget,
  awaits_restart,
}
use tarvaultsync.Core.Engine.Frame.{commit_state}

module _ {W : Type 0} (p : Parts W) where
  -- `enable_binding` fails on an id that is unknown or not disabled, and changes nothing then.
  -- On a disabled one it removes the id from the disabled ones and touches no applied version and
  -- no status, or it fails and leaves the state as it was; only when the event cannot be appended
  -- is the id removed behind an error.
  pub enable_binding_lem :
      (id : Text) (e : Engine W)
      → let (r, e') = enable_binding p id e in
        ((find_binding p id ≡ none) ⊎ (has_key id e.state.disabled ≡ false))
          × (r ≡ err invalid_config)
          × (e' ≡ e)
        ⊎ (has_key id e.state.disabled ≡ true)
          × ((e'.state ≡ record e.state { disabled = remove id e.state.disabled })
              ⊎ ((e'.state ≡ e.state) × (r ≢ ok tt)))
  unfolding enable_binding
  enable_binding_lem id e =
      ground (arith, commit_state p (record e.state { disabled = remove id e.state.disabled }) e)

  -- After a successful `enable_binding` the id was disabled before, and is not any more.
  pub enable_binding-enables :
      (id : Text) (e : Engine W)
      → (enable_binding p id e).0 ≡ ok tt
      → (has_key id e.state.disabled ≡ true)
        × (has_key id (enable_binding p id e).1.state.disabled ≡ false)
  enable_binding-enables id e h =
      ground (arith, enable_binding_lem id e, lookup-remove id id e.state.disabled)

  -- `acknowledge_restart` succeeds only for a Docker target whose status says that a restart is
  -- due; then the status is `unchanged`.
  pub acknowledge_restart-clears :
      (id : Text) (e : Engine W)
      → (acknowledge_restart p id e).0 ≡ ok tt
      → ((b : Binding) × (find_binding p id ≡ some b) × (is_docker_input b.target ≡ true))
        × (awaits_restart id e.state ≡ true)
        × (lookup id (acknowledge_restart p id e).1.state.status
            ≡ some (record { timestamp = p.os.now e.world; outcome = unchanged }))
  unfolding acknowledge_restart
  acknowledge_restart-clears id e h = elim (Option-cases (find_binding p id)) [
    | inl f ↦ absurd (unknown f)
    | inr (b, f) ↦ (
      (b, f, ground arith),
      ground arith,
      ground (
        arith,
        commit_state p
            (record e.state {
              status =
                  insert id (record { timestamp = p.os.now e.world; outcome = unchanged })
                    e.state.status;
            })
            e,
        lookup-insert id id (record { timestamp = p.os.now e.world; outcome = unchanged })
            e.state.status,
      ),
    )
  ]
    where
      unknown : find_binding p id ≡ none → ⊥
      unknown f = ground arith

  -- With no restart due, `acknowledge_restart` is refused and changes nothing.
  pub acknowledge_restart-refused :
      (id : Text) (e : Engine W)
      → awaits_restart id e.state ≡ false
      → acknowledge_restart p id e ≡ (err invalid_config, e)
  unfolding acknowledge_restart
  acknowledge_restart-refused id e h = ground arith

-- Forgetting removes each listed id, and keeps what is held about every other one.
pub lookup-forget :
    (ids : List Text) (s : DeviceState) (j : Text)
    → (lookup j (forget ids s).applied ≡ (if contains ids j then none else lookup j s.applied))
      × (lookup j (forget ids s).status ≡ (if contains ids j then none else lookup j s.status))
      × (lookup j (forget ids s).disabled ≡ (if contains ids j then none else lookup j s.disabled))
unfolding forget
lookup-forget [] s j = (refl, refl, refl)
lookup-forget (id ∷ ids) s j = ground (
  arith,
  lookup-forget ids
      (record s {
        applied = remove id s.applied;
        status = remove id s.status;
        disabled = remove id s.disabled;
      })
      j,
  lookup-remove j id s.applied,
  lookup-remove j id s.status,
  lookup-remove j id s.disabled,
)

module _ {W : Type 0} (p : Parts W) where
  -- `invalidate_bindings` forgets all the ids or, on an error, none of them; the other ids keep
  -- what is held about them.
  pub invalidate_bindings_lem :
      (ids : List Text) (e : Engine W) (j : Text)
      → let (r, e') = invalidate_bindings p ids e in
        ((r ≡ err state_error) × (e'.state ≡ e.state))
        ⊎ ((r ≡ ok tt)
            × (lookup j e'.state.applied
                ≡ (if contains ids j then none else lookup j e.state.applied))
            × (lookup j e'.state.status
                ≡ (if contains ids j then none else lookup j e.state.status))
            × (lookup j e'.state.disabled
                ≡ (if contains ids j then none else lookup j e.state.disabled)))
  unfolding invalidate_bindings
  invalidate_bindings_lem ids e j =
      ground (arith, commit_state p (forget ids e.state) e, lookup-forget ids e.state j)
