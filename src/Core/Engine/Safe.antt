-- ===== src/Core/Engine/Safe.antt =====
-- The labels of the states that the handlers of src/core.rs store.
use tarvaultsync.Prelude.{ℕ, ◌≡◌, true, false, not, List, [], ◌∷◌, arith}
use tarvaultsync.Prelude.Text.{Text, text_eq}
use tarvaultsync.Prelude.Map.{insert, remove}
use tarvaultsync.Core.{DeviceState, SourceVersion, SyncOutcome, RedactedStatus}
use tarvaultsync.Core.{secret_type_eq, outcome_eq}
use tarvaultsync.Core.Labels.{safe_version, safe_label}
use tarvaultsync.Core.Engine.{with_outcome, forget}
use tarvaultsync.Core.Store.{is_unsafe_state, unsafe_applied}
use tarvaultsync.Core.Store.Laws.{any-insert, any-remove, any_key-insert, any_key-remove}

pub safe-applied :
    (id : Text) (v : SourceVersion) (s : DeviceState)
    → safe_label id ≡ true
    → safe_version v ≡ true
    → is_unsafe_state s ≡ false
    → is_unsafe_state (record s { applied = insert id v s.applied }) ≡ false
unfolding is_unsafe_state
safe-applied id v s l k h = ground (arith, any-insert unsafe_applied id v s.applied)

pub safe-status :
    (id : Text) (r : RedactedStatus) (s : DeviceState)
    → safe_label id ≡ true
    → is_unsafe_state s ≡ false
    → is_unsafe_state (record s { status = insert id r s.status }) ≡ false
unfolding is_unsafe_state
safe-status id r s l h =
    ground (arith, any_key-insert (λ (k : Text). not (safe_label k)) id r s.status)

pub safe-outcome :
    (id : Text) (t : ℕ) (o : SyncOutcome) (s : DeviceState)
    → safe_label id ≡ true
    → is_unsafe_state s ≡ false
    → is_unsafe_state (with_outcome id t o s) ≡ false
unfolding is_unsafe_state with_outcome
safe-outcome id t o s l h = ground (
  arith,
  any_key-insert (λ (k : Text). not (safe_label k)) id (record { timestamp = t; outcome = o })
      s.status,
  any_key-insert (λ (k : Text). not (safe_label k)) id (tt {0}) s.disabled,
)

pub safe-enabled :
    (id : Text) (s : DeviceState)
    → is_unsafe_state s ≡ false
    → is_unsafe_state (record s { disabled = remove id s.disabled }) ≡ false
unfolding is_unsafe_state
safe-enabled id s h =
    ground (arith, any_key-remove (λ (k : Text). not (safe_label k)) id s.disabled)

safe-removed :
    (id : Text) (s : DeviceState)
    → is_unsafe_state s ≡ false
    → is_unsafe_state (record s {
      applied = remove id s.applied;
      status = remove id s.status;
      disabled = remove id s.disabled;
    })
      ≡ false
unfolding is_unsafe_state
safe-removed id s h = ground (
  arith,
  any-remove unsafe_applied id s.applied,
  any_key-remove (λ (k : Text). not (safe_label k)) id s.status,
  any_key-remove (λ (k : Text). not (safe_label k)) id s.disabled,
)

pub safe-forget :
    (ids : List Text) (s : DeviceState)
    → is_unsafe_state s ≡ false
    → is_unsafe_state (forget ids s) ≡ false
unfolding is_unsafe_state forget
safe-forget [] s h = h
safe-forget (id ∷ ids) s h = safe-forget ids _ (safe-removed id s h)
