-- ===== src/Core/Store.antt =====
-- `atomic_json`, `replace_file` (as built for systems other than Windows) and `load_state` of
-- src/core.rs.
pub mod Laws
use tarvaultsync.Prelude.{
  Option, none, some, Bool, true, false, not, ◌||◌, List, [], ◌∷◌, any, ◌==◌, nat_eq, if◌then◌else◌,
}
use tarvaultsync.Prelude.Text.{text, Text}
use tarvaultsync.Prelude.Map.{keys}
use tarvaultsync.Prelude.Result.{Result, ok, err, map_err, ok_or, Action, lift, ◌>>=◌, ◌>>◌}
use tarvaultsync.Core.{
  schema_version, FilePath, Bytes, DeviceState, SourceVersion, ErrorCategory, state_error,
}
use tarvaultsync.Core.Os.{Os, IoError}
use tarvaultsync.Core.Labels.{safe_label, safe_version}

-- `.map_err(|_| ErrorCategory::State)?` on a call that changes the world
abbrev pub io : {W A : Type 0} → (W → Result IoError A × W) → Action W ErrorCategory A
io f w = let (r, w') = f w in (map_err (λ _. state_error) r, w')

-- `State { version: SCHEMA_VERSION, ..State::default() }`
abbrev pub fresh_state : DeviceState
fresh_state = record { version = schema_version; applied = []; status = []; disabled = [] }

-- A key or a version that `load_state` refuses
abbrev pub unsafe_applied : Text × SourceVersion → Bool
unsafe_applied (k, v) = not (safe_label k) || not (safe_version v)

unfoldable pub is_unsafe_state : DeviceState → Bool
unfolding nat_eq keys
is_unsafe_state s =
    not (s.version == schema_version)
    || any unsafe_applied s.applied
    || any (λ k. not (safe_label k)) (keys s.status)
    || any (λ k. not (safe_label k)) (keys s.disabled)

module _ {W : Type 0} (os : Os W) where
  unfoldable pub replace_file : FilePath → FilePath → W → Result IoError (Unit {0}) × W
  replace_file tmp path = os.rename tmp path

  -- `encoded` is `serde_json::to_vec_pretty(value)`, with `none` for its error.
  unfoldable pub atomic_json : FilePath → Option Bytes → Action W ErrorCategory (Unit {0})
  unfolding replace_file
  atomic_json path encoded = do
    bytes ← lift (ok_or encoded state_error)
    io (os.create_synced (os.with_extension path (text "tmp")) bytes)
    io (replace_file (os.with_extension path (text "tmp")) path)

  -- `decode` is `serde_json::from_slice::<State>`
  unfoldable pub load_state :
      (Bytes → Option DeviceState) → FilePath → W → Result ErrorCategory DeviceState
  load_state decode path w =
      if not (os.exists path w) then ok fresh_state else elim (os.read path w) [
        | err _ ↦ err state_error
        | ok bytes ↦ elim (decode bytes) [
          | none ↦ err state_error
          | some s ↦ if is_unsafe_state s then err state_error else ok s
        ]
      ]
