-- ===== src/Core.antt =====
-- The data of src/core.rs: configuration, device state, payloads, outcomes and events.
pub mod Validation
pub mod Labels
pub mod Os
pub mod Traits
pub mod Store
pub mod Engine
pub mod Fakes
pub mod Registry
use tarvaultsync.Prelude.{ℕ, Option, List, Bool, true, false}
use tarvaultsync.Prelude.{Eq}
use tarvaultsync.Prelude.Text.{Text, text_eq}
use tarvaultsync.Prelude.Map.{Map}
use native.Mathlib.Decide.{ℕ_discrete}

-- `SCHEMA_VERSION`
abbrev pub schema_version : ℕ
schema_version = 1

-- A `PathBuf`, as the text of the path.
abbrev pub FilePath : Type 0
FilePath = Text

-- `Vec<u8>` and `&[u8]`
abbrev pub Bytes : Type 0
Bytes = List ℕ

pub data StoreKind : Type 0 where
  fake local_vault azure aws google one_drive google_drive git : StoreKind

pub data SecretType : Type 0 where
  plain_text json binary certificate private_key : SecretType

pub record SourceRef : Type 0 where
  pub store : StoreKind
  pub connection : Text
  pub entry : Text

pub data StructuredFormat : Type 0 where
  dot_env json_document yaml properties : StructuredFormat

pub data DockerInputKind : Type 0 where
  compose_environment : DockerInputKind
  -- compose_path, service
  env_file : FilePath → Text → DockerInputKind

pub data TargetSpec : Type 0 where
  -- slot
  fake_slot : Text → TargetSpec
  -- path
  whole_file : FilePath → TargetSpec
  -- path, key, format
  structured_field : FilePath → Text → StructuredFormat → TargetSpec
  -- path, key, input
  docker_input : FilePath → Text → DockerInputKind → TargetSpec
  -- protocol, host, path, username
  git_credential : Text → Text → Option Text → Text → TargetSpec

pub data TargetIdentity : Type 0 where
  file_identity : FilePath → TargetIdentity
  git_identity : Text → Text → Option Text → TargetIdentity
  fake_identity : Text → TargetIdentity

-- `TargetSpec::identity`
unfoldable pub identity : TargetSpec → TargetIdentity
identity (whole_file path) = file_identity path
identity (structured_field path _ _) = file_identity path
identity (docker_input path _ _) = file_identity path
identity (git_credential protocol host path _) = git_identity protocol host path
identity (fake_slot slot) = fake_identity slot

-- `matches!(target, TargetSpec::Fake { .. })` and the same for `DockerInput`
abbrev pub is_fake_slot : TargetSpec → Bool
is_fake_slot (fake_slot _) = true
is_fake_slot _ = false

abbrev pub is_docker_input : TargetSpec → Bool
is_docker_input (docker_input _ _ _) = true
is_docker_input _ = false

pub data MissingTargetPolicy : Type 0 where
  alert recreate disable : MissingTargetPolicy

-- `Schedule` has one field; seconds.
pub record Schedule : Type 0 where
  pub interval_seconds : ℕ

pub record Binding : Type 0 where
  pub id : Text
  pub source : SourceRef
  pub secret_type : SecretType
  pub target : TargetSpec
  pub missing_target : MissingTargetPolicy
  pub schedule : Schedule

pub record Config : Type 0 where
  pub version : ℕ
  pub bindings : List Binding

-- `SourceVersion` wraps a string.
abbrev pub SourceVersion : Type 0
SourceVersion = Text

pub record SecretPayload : Type 0 where
  pub bytes : Bytes
  pub kind : SecretType

pub data ErrorCategory : Type 0 where
  invalid_config source_error version_conflict target_error state_error unauthorized : ErrorCategory

pub data SyncOutcome : Type 0 where
  unchanged applied restart_required disabled : SyncOutcome
  failed : ErrorCategory → SyncOutcome

pub record RedactedStatus : Type 0 where
  pub timestamp : ℕ
  pub outcome : SyncOutcome

-- `State`; the set of disabled ids is a map into the type of one element.
pub record DeviceState : Type 0 where
  pub version : ℕ
  pub applied : Map SourceVersion
  pub status : Map RedactedStatus
  pub disabled : Map (Unit {0})

pub data EventOperation : Type 0 where
  sync_operation acknowledge_operation enable_operation : EventOperation

pub record Event : Type 0 where
  pub timestamp : ℕ
  pub binding_id : Text
  pub operation : EventOperation
  pub source_kind : StoreKind
  pub outcome : SyncOutcome

-- The derived equalities.
StoreKind-discrete : Discrete StoreKind
StoreKind-discrete = hlevel

SecretType-discrete : Discrete SecretType
SecretType-discrete = hlevel

MissingTargetPolicy-discrete : Discrete MissingTargetPolicy
MissingTargetPolicy-discrete = hlevel

ErrorCategory-discrete : Discrete ErrorCategory
ErrorCategory-discrete = hlevel

SyncOutcome-discrete : Discrete SyncOutcome
SyncOutcome-discrete = hlevel ErrorCategory-discrete

TargetIdentity-discrete : Discrete TargetIdentity
TargetIdentity-discrete = hlevel ℕ_discrete

instance unfoldable pub store_eq : Eq StoreKind
unfolding StoreKind-discrete
store_eq = record { dec = StoreKind-discrete }

instance unfoldable pub secret_type_eq : Eq SecretType
unfolding SecretType-discrete
secret_type_eq = record { dec = SecretType-discrete }

instance unfoldable pub policy_eq : Eq MissingTargetPolicy
unfolding MissingTargetPolicy-discrete
policy_eq = record { dec = MissingTargetPolicy-discrete }

instance unfoldable pub outcome_eq : Eq SyncOutcome
unfolding SyncOutcome-discrete ErrorCategory-discrete
outcome_eq = record { dec = SyncOutcome-discrete }

instance unfoldable pub identity_eq : Eq TargetIdentity
unfolding TargetIdentity-discrete ℕ_discrete
identity_eq = record { dec = TargetIdentity-discrete }
