-- ===== src/Core/Validation.antt =====
-- `validate_config` of src/core.rs: what a configuration must meet before the engine runs it.
pub mod Laws
use tarvaultsync.Prelude.{
  ℕ, ◌<◌, Option, none, some, Bool, true, false, not, ◌&&◌, ◌||◌, List, [], ◌∷◌,
}
use tarvaultsync.Prelude.{
  all, length, is_empty, leb, ltb, ◌==◌, nat_eq, if◌then◌else◌, contains, same,
}
use tarvaultsync.Prelude.Text.{Text, text, text_eq, is_alphanumeric, starts_with, split, split_once}
use tarvaultsync.Prelude.Result.{Result, ok, err}
use tarvaultsync.Core.{
  schema_version, FilePath, Bytes, StoreKind, fake, local_vault, azure, aws, google, one_drive,
  google_drive, git,
}
use tarvaultsync.Core.{
  SecretType, plain_text, SourceRef, StructuredFormat, dot_env, json_document, yaml, properties,
}
use tarvaultsync.Core.{
  DockerInputKind, compose_environment, env_file, TargetSpec, fake_slot, whole_file,
  structured_field, docker_input, git_credential,
}
use tarvaultsync.Core.{
  is_fake_slot, is_docker_input, Binding, Config, ErrorCategory, invalid_config, store_eq,
  secret_type_eq,
}
use tarvaultsync.Core.Os.{Os}
use tarvaultsync.Core.Labels.{safe_label, safe_host, safe_git_path, safe_git_username}
use tarvaultsync.Azure.Names.{valid_source}

-- `matches!(b.source.store, StoreKind::Fake)` and the list of the stores that are accepted
abbrev pub is_fake_store : StoreKind → Bool
is_fake_store fake = true
is_fake_store _ = false

abbrev pub is_supported_store : StoreKind → Bool
is_supported_store fake = true
is_supported_store local_vault = true
is_supported_store azure = true
is_supported_store one_drive = true
is_supported_store google_drive = true
is_supported_store _ = false

unfoldable pub is_key_byte : ℕ → Bool
unfolding is_alphanumeric nat_eq
is_key_byte b = is_alphanumeric b || b == b'_' || b == b'.' || b == b'-'

unfoldable pub valid_field_key : Text → StructuredFormat → Bool
unfolding is_key_byte starts_with nat_eq
valid_field_key key dot_env = not (is_empty key) && all is_key_byte key
valid_field_key key properties = not (is_empty key) && all is_key_byte key
valid_field_key key json_document =
    starts_with key (text "/")
    && ltb 1 (length key)
    && not (contains key b'\n')
    && not (contains key b'\r')
valid_field_key key yaml =
    starts_with key (text "/")
    && ltb 1 (length key)
    && not (contains key b'\n')
    && not (contains key b'\r')

-- The closure `valid_name`
valid_name : Text → Bool
unfolding is_alphanumeric nat_eq
valid_name name = not (is_empty name) && all (λ b. is_alphanumeric b || b == b'_') name

module _ {W : Type 0} (os : Os W) (w : W) where
  -- The parent directory, resolved, lies below the resolved root.
  parent_is_within : FilePath → FilePath → Bool
  parent_is_within path approved = elim (os.parent path) [
    | none ↦ false
    | some parent ↦ elim (os.canonicalize parent w) [
      | none ↦ false
      | some resolved ↦ os.path_starts_with resolved approved
    ]
  ]

  unfoldable pub valid_scoped_path : FilePath → FilePath → Bool
  unfolding parent_is_within
  valid_scoped_path path root =
      if not (os.is_absolute path) || not (os.path_starts_with path root) || os.has_parent_dir path
      then false
      else elim (os.canonicalize root w) [
        | none ↦ false
        | some approved ↦ parent_is_within path approved && not (os.is_symlink path w)
      ]

  unfoldable pub valid_docker_key : Text → DockerInputKind → FilePath → Bool
  unfolding valid_name split_once
  valid_docker_key key (env_file compose_path service) root =
      valid_name key && safe_label service && valid_scoped_path compose_path root
  valid_docker_key key compose_environment root = elim (split_once b':' key) [
    | none ↦ false
    | some (service, variable) ↦ safe_label service && valid_name variable
  ]

  -- The `match` on `b.target`
  unfoldable pub target_allowed : TargetSpec → FilePath → Bool
  target_allowed (fake_slot slot) root = safe_label slot
  target_allowed (whole_file path) root = valid_scoped_path path root
  target_allowed (structured_field path key format) root =
      valid_scoped_path path root && valid_field_key key format
  target_allowed (docker_input path key input) root =
      valid_scoped_path path root && valid_docker_key key input root
  target_allowed (git_credential protocol host path username) root =
      protocol == text "https" && safe_host host && safe_git_path path && safe_git_username username

  -- The tests of one turn of the loop, after those on the ids seen so far.
  unfoldable pub binding_allowed : Binding → FilePath → Bool
  binding_allowed b root =
      safe_label b.source.connection
      && safe_label b.source.entry
      && leb 1 b.schedule.interval_seconds
      && leb b.schedule.interval_seconds 86400
      && target_allowed b.target root
      && same (is_fake_store b.source.store) (is_fake_slot b.target)
      && is_supported_store b.source.store
      && not (
          b.source.store == azure
          && (not (valid_source b.source) || not (b.secret_type == plain_text)))

  -- The loop over the bindings; `ids` are those inserted so far.
  unfoldable pub check_bindings :
      List Text → List Binding → FilePath → Result ErrorCategory (Unit {0})
  check_bindings ids [] root = ok tt
  check_bindings ids (b ∷ bs) root =
      let rest = check_bindings (b.id ∷ ids) bs root in
      if not (safe_label b.id) || contains ids b.id
      then err invalid_config
      else if not (binding_allowed b root)
      then err invalid_config
      else rest

  -- `decode` is `serde_json::from_slice::<Config>`, with `none` for its error.
  unfoldable pub validate_config :
      (Bytes → Option Config) → Bytes → FilePath → Result ErrorCategory Config
  validate_config decode bytes root = elim (decode bytes) [
    | none ↦ err invalid_config
    | some config ↦
        if not (config.version == schema_version)
        then err invalid_config
        else elim (check_bindings [] config.bindings root) [ ok _ ↦ ok config | err e ↦ err e ]
  ]
