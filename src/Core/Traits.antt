-- ===== src/Core/Traits.antt =====
-- The traits `SourceConnection` and `LocalTarget` of src/core.rs, over a world `W`.
use tarvaultsync.Prelude.{Bool}
use tarvaultsync.Prelude.Result.{Result}
use tarvaultsync.Core.{
  SourceRef, SourceVersion, SecretPayload, SecretType, TargetSpec, MissingTargetPolicy,
  ErrorCategory,
}

-- A panic in the blocking task is the error `Source` in the caller, so it is one of the results.
pub record SourceConnection (W : Type 0) : Type 0 where
  pub get_version : SourceRef → W → Result ErrorCategory SourceVersion × W
  pub get_value : SourceRef → SourceVersion → W → Result ErrorCategory SecretPayload × W

-- `apply` is `apply_with_policy` at the policy of the implementation; the engine calls the latter.
pub record LocalTarget (W : Type 0) : Type 0 where
  pub validate : TargetSpec → SecretType → W → Result ErrorCategory (Unit {0}) × W
  pub is_missing : TargetSpec → W → Bool
  pub apply_with_policy :
      TargetSpec → SecretPayload → MissingTargetPolicy → W → Result ErrorCategory (Unit {0}) × W
