-- ===== src/Targets/EnvFile.antt =====
-- `validate_env_file_relation` and `scoped_file_path` of src/targets.rs, and the file operations that
-- the writers use, over a world `W`.
use tarvaultsync.Prelude.{
  ℕ, ◌+◌, Option, none, some, Bool, not, ◌||◌, List, [], ◌∷◌, ◌==◌, nat_eq, contains, is_empty,
  if◌then◌else◌,
}
use tarvaultsync.Prelude.Text.{Text, text}
use tarvaultsync.Prelude.Result.{Result, ok, err, map_err, ok_or, Action}
use tarvaultsync.Prelude.Fallible.{◌>>=◌, ◌>>◌, refuse_if}
use tarvaultsync.Core.{Bytes, FilePath, ErrorCategory, target_error, invalid_config}
use tarvaultsync.Core.Os.{Os, IoError}
use tarvaultsync.Targets.Documents.{YamlParts, and_then, is_none}

pub record Files (W : Type 0) : Type 0 where
  pub os : Os W
  -- `Path::join`, `Path::file_name`, `==` on paths
  pub join : FilePath → Text → FilePath
  pub file_name : FilePath → Option Text
  pub path_eq : FilePath → FilePath → Bool
  -- whether `std::str::from_utf8` succeeds
  pub is_utf8 : Bytes → Bool
  -- `NamedTempFile::new_in`, by the path of the new file
  pub new_temp : FilePath → W → Result IoError FilePath × W
  -- `set_permissions` with mode 0o600
  pub set_private : FilePath → W → Result IoError (Unit {0}) × W
  -- `write_all`, then `sync_all`
  pub write_synced : FilePath → Bytes → W → Result IoError (Unit {0}) × W
  -- `temp.persist(path)`
  pub persist_temp : FilePath → FilePath → W → Result IoError (Unit {0}) × W
  -- the drop of a temporary file that was not persisted
  pub drop_temp : FilePath → W → W

-- `.map_err(|_| ErrorCategory::Target)?`
abbrev pub io : {W A : Type 0} → (W → Result IoError A × W) → Action W ErrorCategory A
io f w = let (r, w') = f w in (map_err (λ _. target_error) r, w')

module _ {W : Type 0} (files : Files W) (root : FilePath) (w : W) where
  unfoldable pub scoped_file_path : FilePath → Result ErrorCategory FilePath
  scoped_file_path path = do
    parent ← ok_or (files.os.parent path) invalid_config
    resolved ← ok_or (files.os.canonicalize parent w) invalid_config
    refuse_if (not (files.os.path_starts_with resolved root) || files.os.is_symlink path w)
        invalid_config
    name ← ok_or (files.file_name path) invalid_config
    ok (files.join resolved name)

  -- One candidate, as a path
  unfoldable pub listed_path : FilePath → Text → Result ErrorCategory FilePath
  unfolding nat_eq
  listed_path compose_path candidate = do
    refuse_if (is_empty candidate || contains candidate b'$') invalid_config
    refuse_if (files.os.has_parent_dir candidate) invalid_config
    listed ←
        if files.os.is_absolute candidate
        then ok candidate
        else (ok_or (files.os.parent compose_path) invalid_config >>= λ parent.
            ok (files.join parent candidate))
    scoped_file_path listed

  -- The loop over the candidates, with `matches`
  unfoldable pub count_matches : FilePath → FilePath → List Text → ℕ → Result ErrorCategory ℕ
  count_matches compose_path target [] matches = ok matches
  count_matches compose_path target (candidate ∷ candidates) matches =
      listed_path compose_path candidate >>= λ listed.
      count_matches compose_path target candidates
        (if files.path_eq listed target then matches + 1 else matches)

  module _ {File Document Mapping Node : Type 0} (edit : YamlParts File Document Mapping Node) where
    -- One item of a sequence
    unfoldable pub item_path : Node → Result ErrorCategory Text
    item_path item = elim (edit.as_scalar item) [
      | some s ↦ ok s
      | none ↦ elim (and_then (edit.node_get item (text "path")) edit.as_scalar) [
        | none ↦ err invalid_config
        | some path ↦
            if is_none (edit.node_get item (text "format")) then ok path else err invalid_config
      ]
    ]

    -- `collect` of the items: the first error is the result.
    unfoldable pub item_paths : List Node → Result ErrorCategory (List Text)
    item_paths [] = ok []
    item_paths (item ∷ items) =
        item_path item >>= λ path. item_paths items >>= λ paths. ok (path ∷ paths)

    unfoldable pub env_candidates : Node → Result ErrorCategory (List Text)
    env_candidates entry = elim (edit.as_scalar entry) [
      | some s ↦ ok (s ∷ [])
      | none ↦ elim (edit.as_sequence entry) [
        | none ↦ err invalid_config
        | some items ↦ item_paths items
      ]
    ]

    unfoldable pub env_file_entry : File → Text → Option Node
    env_file_entry file service = and_then (edit.document file) (λ doc.
        and_then (edit.document_get doc (text "services")) (λ services.
          and_then (edit.node_get services service) (λ node. edit.node_get node (text "env_file"))))

    unfoldable pub validate_env_file_relation :
        FilePath → Text → FilePath → Result ErrorCategory (Unit {0})
    unfolding nat_eq
    validate_env_file_relation compose_path service path = do
      source ← map_err (λ _. target_error) (files.os.read compose_path w)
      refuse_if (not (files.is_utf8 source)) target_error
      file ← ok_or (edit.from_str source) target_error
      refuse_if (not (edit.count_documents file == 1)) target_error
      entry ← ok_or (env_file_entry file service) target_error
      candidates ← env_candidates entry
      target ← scoped_file_path path
      matches ← count_matches compose_path target candidates 0
      refuse_if (not (matches == 1)) invalid_config
      ok tt
