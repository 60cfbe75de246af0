-- ===== src/Targets/Writer.antt =====
-- `ProductionTarget` of src/targets.rs, as it is built for Unix: the check of a target, the atomic
-- writing of its file and the call of the credential helper.
pub mod Atomic
pub mod Applied
use tarvaultsync.Prelude.{
  ℕ, Option, none, some, Bool, true, false, not, ◌&&◌, ◌||◌, List, [], ◌∷◌, ◌++◌, any, ◌==◌, nat_eq,
  is_empty, if◌then◌else◌,
}
use tarvaultsync.Prelude.Text.{Text, text, text_eq}
use tarvaultsync.Prelude.Result.{
  Result, ok, err, map_err, ok_or, Action, ◌>>=◌, ◌>>◌, pure, lift, raise_if,
}
use tarvaultsync.Core.{
  Bytes, FilePath, SecretType, plain_text, json, secret_type_eq, SecretPayload, StructuredFormat,
  yaml, DockerInputKind, compose_environment, env_file, TargetSpec, fake_slot, whole_file,
  structured_field, docker_input, git_credential, MissingTargetPolicy, alert, recreate, policy_eq,
  ErrorCategory, target_error, invalid_config,
}
use tarvaultsync.Core.Os.{IoError, not_found, other}
use tarvaultsync.Core.Traits.{LocalTarget}
use tarvaultsync.Targets.KeyValue.{single_quoted, render_key_value}
use tarvaultsync.Targets.Documents.{
  JsonParts, YamlParts, is_none, render_compose, render_structured,
}
use tarvaultsync.Targets.EnvFile.{Files, io, validate_env_file_relation}
use tarvaultsync.Targets.Credential.{Git, store_git_credential, accepts_path}

-- The file of a target
unfoldable pub file_of : TargetSpec → Result ErrorCategory (Option FilePath)
file_of (whole_file path) = ok (some path)
file_of (structured_field path _ _) = ok (some path)
file_of (docker_input path _ _) = ok (some path)
file_of (git_credential _ _ _ _) = ok none
file_of (fake_slot _) = err invalid_config

abbrev pub unwrap_or_default : Option Bytes → Bytes
unwrap_or_default none = []
unwrap_or_default (some bytes) = bytes

-- The file is not there and may not be made.
abbrev pub must_exist : Option Bytes → MissingTargetPolicy → Bool
must_exist none policy = not (policy == recreate)
must_exist (some _) policy = false

module _ {W : Type 0} (files : Files W) where
  -- `ProductionTarget::new`
  unfoldable pub new : FilePath → W → Result ErrorCategory FilePath
  new root w = ok_or (files.os.canonicalize root w) invalid_config

  unfoldable pub check_file : FilePath → W → FilePath → Result ErrorCategory (Option FilePath)
  check_file root w path = elim (files.os.parent path) [
    | none ↦ err invalid_config
    | some parent ↦ elim (files.os.canonicalize parent w) [
      | none ↦ err target_error
      | some resolved ↦
          if not (files.os.is_absolute path) || not (files.os.path_starts_with resolved root)
          then err invalid_config
          else if files.os.is_symlink path w
          then err invalid_config
          else ok (some path)
    ]
  ]

  unfoldable pub checked_path : FilePath → TargetSpec → W → Result ErrorCategory (Option FilePath)
  unfolding file_of
  checked_path root spec w = elim (file_of spec) [
    | err e ↦ err e
    | ok none ↦ ok none
    | ok (some path) ↦ check_file root w path
  ]

  -- The steps on the temporary file; it is dropped when one fails.
  unfoldable pub fill_temp : FilePath → FilePath → Bytes → Action W ErrorCategory (Unit {0})
  fill_temp temp path bytes w =
      let steps : Action W ErrorCategory (Unit {0}) =
        io (files.set_private temp)
        >> io (files.write_synced temp bytes)
        >> io (files.persist_temp temp path) in
      let (r, w') = steps w in
      elim r [ ok _ ↦ (ok tt, w') | err e ↦ (err e, files.drop_temp temp w') ]

  unfoldable pub atomic_write : FilePath → Bytes → Action W ErrorCategory (Unit {0})
  atomic_write path bytes = do
    parent ← lift (ok_or (files.os.parent path) target_error)
    temp ← io (files.new_temp parent)
    fill_temp temp path bytes

  -- `fs::read`, a file that is not there apart
  unfoldable pub read_existing : FilePath → W → Result ErrorCategory (Option Bytes)
  read_existing path w = elim (files.os.read path w) [
    | ok bytes ↦ ok (some bytes)
    | err not_found ↦ ok none
    | err other ↦ err target_error
  ]

  unfoldable pub is_missing : TargetSpec → W → Bool
  is_missing (whole_file path) w = not (files.os.exists path w)
  is_missing (structured_field path _ _) w = not (files.os.exists path w)
  is_missing (docker_input path _ _) w = not (files.os.exists path w)
  is_missing (git_credential _ _ _ _) w = false
  is_missing (fake_slot _) w = false

  module _ {Child Value File Document Mapping Node : Type 0} (helper : Git W Child)
      (serde : JsonParts Value) (edit : YamlParts File Document Mapping Node)
      (root : FilePath) where
    unfoldable pub validate_input : FilePath → DockerInputKind → W → Result ErrorCategory (Unit {0})
    validate_input path compose_environment w = ok tt
    validate_input path (env_file compose_path service) w =
        validate_env_file_relation files root w edit compose_path service path

    -- The match of `validate`, with its guards
    unfoldable pub validate_spec : TargetSpec → SecretType → W → Result ErrorCategory (Unit {0})
    unfolding secret_type_eq text_eq
    validate_spec (whole_file path) kind w = ok tt
    validate_spec (structured_field path key yaml) kind w =
        if kind == plain_text then ok tt else err invalid_config
    validate_spec (structured_field path key format) kind w =
        if kind == plain_text || kind == json then ok tt else err invalid_config
    validate_spec (docker_input path key input) kind w =
        let valid = validate_input path input w in
        if kind == plain_text then valid else err invalid_config
    validate_spec (git_credential protocol host path username) kind w =
        if kind == plain_text
          && protocol == text "https"
          && not (is_empty host)
          && not (is_empty username)
          && accepts_path files helper host path w
        then ok tt
        else err invalid_config
    validate_spec (fake_slot slot) kind w = err invalid_config

    unfoldable pub validate : TargetSpec → SecretType → W → Result ErrorCategory (Unit {0})
    validate spec kind w = elim (checked_path root spec w) [
      | err e ↦ err e
      | ok _ ↦ validate_spec spec kind w
    ]

    -- The bytes that a file target gets
    unfoldable pub rendered : TargetSpec → Option Bytes → SecretPayload → Result ErrorCategory Bytes
    rendered (whole_file path) existing payload = ok payload.bytes
    rendered (structured_field path key format) existing payload =
        render_structured edit files.is_utf8 serde (unwrap_or_default existing) key format payload
    rendered (docker_input path key (env_file _ _)) existing payload =
        render_key_value files.is_utf8 (unwrap_or_default existing) key payload single_quoted
    rendered (docker_input path key compose_environment) existing payload =
        render_compose edit files.is_utf8 (unwrap_or_default existing) key payload
    rendered (git_credential _ _ _ _) existing payload = err invalid_config
    rendered (fake_slot _) existing payload = err invalid_config

    unfoldable pub apply_file :
        TargetSpec → SecretPayload → MissingTargetPolicy → Action W ErrorCategory (Unit {0})
    unfolding policy_eq
    apply_file spec payload policy w = elim (checked_path root spec w) [
      | err e ↦ (err e, w)
      | ok none ↦ (err invalid_config, w)
      | ok (some path) ↦ elim (read_existing path w) [
        | err e ↦ (err e, w)
        | ok existing ↦
            if must_exist existing policy
            then (err target_error, w)
            else elim (rendered spec existing payload) [
              | err e ↦ (err e, w)
              | ok bytes ↦ atomic_write path bytes w
            ]
      ]
    ]

    unfoldable pub apply_valid :
        TargetSpec → SecretPayload → MissingTargetPolicy → Action W ErrorCategory (Unit {0})
    apply_valid (git_credential protocol host path username) payload policy =
        store_git_credential files helper protocol host path username payload
    apply_valid spec payload policy = apply_file spec payload policy

    unfoldable pub apply_with_policy :
        TargetSpec → SecretPayload → MissingTargetPolicy → Action W ErrorCategory (Unit {0})
    apply_with_policy spec payload policy w = elim (validate spec payload.kind w) [
      | err e ↦ (err e, w)
      | ok _ ↦ apply_valid spec payload policy w
    ]

    -- `apply`
    unfoldable pub apply : TargetSpec → SecretPayload → Action W ErrorCategory (Unit {0})
    apply spec payload = apply_with_policy spec payload alert

    -- `impl LocalTarget for ProductionTarget`
    unfoldable pub production_target : LocalTarget W
    production_target = record {
      validate = λ spec kind w. (validate spec kind w, w);
      is_missing = is_missing;
      apply_with_policy = apply_with_policy;
    }
