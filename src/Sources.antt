-- ===== src/Sources.antt =====
-- The catalogue of sources, src/sources.rs: the connections of the device, their file, and the vault or
-- service that a reference is routed to. No lock is poisoned.
pub mod Edit
pub mod Route
pub mod Find
pub mod Consistent
pub mod Preserved
pub mod OnDisk
pub mod Change
pub mod Kept
pub mod Released
pub mod Opened
pub mod Renewed
use tarvaultsync.Prelude.{
  ℕ, ◌*◌, Option, none, some, Bool, true, false, not, ◌&&◌, ◌||◌, List, [], ◌∷◌, ◌++◌, map, ◌==◌,
  nat_eq, leb, ltb, length, if◌then◌else◌,
}
use tarvaultsync.Prelude.Text.{Text, text, text_eq}
use tarvaultsync.Prelude.Map.{Map, lookup, has_key, insert, remove}
use tarvaultsync.Prelude.Result.{
  Result, ok, err, map_err, ok_or, Action, ◌>>=◌, ◌>>◌, pure, raise_if, lift, gets,
}
use tarvaultsync.Core.{
  Bytes, FilePath, StoreKind, local_vault, azure, SourceRef, SourceVersion, SecretPayload,
  ErrorCategory, invalid_config, state_error, version_conflict, store_eq,
}
use tarvaultsync.Core.Os.{Os, IoError, not_found, other}
use tarvaultsync.Core.Labels.{safe_label}
use tarvaultsync.Azure.Names.{valid_source}
use tarvaultsync.Azure.{AzureParts}
use tarvaultsync.Azure as Azure
use tarvaultsync.Vault.{VaultParts, CipherStore}
use tarvaultsync.Vault.Source.{
  VaultSource, Host, new_source, remote_source, source_version, source_value,
}
use tarvaultsync.Drive.{Provider, same_provider, store, label, RemoteRef, is_valid_ref}
use tarvaultsync.Targets.EnvFile.{Files}

pub data Location : Type 0 where
  file_system : FilePath → Location
  -- vault_name
  azure_key_vault : Text → Location
  drive : RemoteRef → Location

-- `Location::store`
unfoldable pub location_store : Location → StoreKind
location_store (file_system path) = local_vault
location_store (azure_key_vault name) = azure
location_store (drive remote) = store remote.provider

-- `Location::label`
unfoldable pub location_label : Location → Text
location_label (file_system path) = text "File System"
location_label (azure_key_vault name) = text "Azure Key Vault"
location_label (drive remote) = label remote.provider

pub record Connection : Type 0 where
  pub id : Text
  pub location : Location

pub record Catalogue : Type 0 where
  pub version : ℕ
  pub connections : List Connection

-- What the locks of `Sources` hold, and the vault of the device
pub record Sources (W : Type 0) : Type 0 where
  pub local : VaultSource W
  pub saved_bytes : Option Bytes
  pub connections : Map Connection
  pub files : Map (VaultSource W)
  -- Vaults that left the map, the last first; a call that is running may still hold one.
  pub released : List (VaultSource W)

-- `&self` and the world
pub record Shelf (W : Type 0) : Type 0 where
  pub sources : Sources W
  pub world : W

pub record SourcesParts (W : Type 0) : Type 0 where
  pub files : Files W
  pub vault : VaultParts W
  pub azure : AzureParts W
  -- `root.join("local/sources.json")`
  pub path : FilePath
  -- `Path::is_dir`
  pub is_dir : FilePath → W → Bool
  -- `symlink_metadata(path).is_ok_and(|m| m.file_type().is_symlink() || !m.is_file())`
  pub is_irregular : FilePath → W → Bool
  -- `File::open`, `take(limit + 1)` and `read_to_end`; only the opening fails with `NotFound`.
  pub read_up_to : ℕ → FilePath → W → Result IoError Bytes
  -- open with `create`, and `try_lock_exclusive`
  pub open_lock : FilePath → W → Result IoError (Unit {0}) × W
  pub try_lock : FilePath → W → Result IoError (Unit {0}) × W
  -- `serde_json` on a catalogue
  pub encode : Catalogue → Option Bytes
  pub decode : Bytes → Option Catalogue
  -- the store of a drive's file, by its `CipherStore` operations
  pub remote_file : RemoteRef → CipherStore W

abbrev pub max_bytes : ℕ
max_bytes = 64 * 1024

abbrev pub values {ℓ} : {V : Type ℓ} → Map V → List V
values [] = []
values ((k, v) ∷ m) = v ∷ values m

abbrev pub without : Text → List Connection → List Connection
without id [] = []
without id (c ∷ cs) = let rest = without id cs in if c.id == id then rest else c ∷ rest

-- The closure of `reconnect`
abbrev pub replaced : Connection → List Connection → List Connection
replaced new [] = []
replaced new (c ∷ cs) = let rest = replaced new cs in (if c.id == new.id then new else c) ∷ rest

abbrev pub insert_some : {V : Type 0} → Text → Option V → Map V → Map V
insert_some id none m = m
insert_some id (some v) m = insert id v m

-- `if let Some(source) = old { source.lock() }`
abbrev pub release :
    {W : Type 0} → Option (VaultSource W) → List (VaultSource W) → List (VaultSource W)
release none held = held
release (some v) held = record v { vault = none } ∷ held

abbrev pub has_bytes : Option Bytes → Option Bytes → Bool
has_bytes none none = true
has_bytes (some a) (some b) = a == b
has_bytes _ _ = false

-- `.map_err(|_| ErrorCategory::State)?`
abbrev pub io_state : {W A : Type 0} → (W → Result IoError A × W) → Action W ErrorCategory A
io_state f w = let (r, w') = f w in (map_err (λ _. state_error) r, w')

module _ {W : Type 0} (p : SourcesParts W) where
  abbrev pub os : Os W
  os = p.files.os

  -- `path.parent().is_none_or(|p| !p.is_dir())`
  abbrev pub lacks_dir : FilePath → W → Bool
  lacks_dir path w = elim (os.parent path) [ none ↦ true | some parent ↦ not (p.is_dir parent w) ]

  unfoldable pub is_bad_location : Text → Location → W → Bool
  is_bad_location id (file_system path) w =
      not (os.is_absolute path)
      || os.has_parent_dir path
      || lacks_dir path w
      || p.is_irregular path w
  is_bad_location id (azure_key_vault name) w =
      not (id == name)
      || not (valid_source (record { store = azure; connection = name; entry = text "validation" }))
  is_bad_location id (drive remote) w = not (is_valid_ref remote)

  unfoldable pub validate : Connection → W → Result ErrorCategory (Unit {0})
  unfolding text_eq
  validate c w =
      if not (safe_label c.id) || c.id == text "local"
      then err invalid_config
      else if is_bad_location c.id c.location w
      then err invalid_config
      else ok tt

  -- `remote_source`, with the check of `RemoteFile::new`
  unfoldable pub remote_vault : FilePath → Text → RemoteRef → Result ErrorCategory (VaultSource W)
  remote_vault root id remote =
      if not (is_valid_ref remote)
      then err invalid_config
      else map_err (λ _. invalid_config)
          (remote_source
            (p.files.join (p.files.join root (text "local"))
              (text "remote-" ++ (id ++ text ".bin")))
            id (p.remote_file remote))

  abbrev pub some_source :
      Result ErrorCategory (VaultSource W) → Result ErrorCategory (Option (VaultSource W))
  some_source (ok s) = ok (some s)
  some_source (err e) = err e

  -- The vault that a connection opens
  unfoldable pub make_source :
      Option FilePath → Connection → Result ErrorCategory (Option (VaultSource W))
  make_source root c = elim c.location [
    | file_system path ↦ some_source (map_err (λ _. invalid_config) (new_source path c.id))
    | azure_key_vault name ↦ ok none
    | drive remote ↦ elim root [
      | none ↦ err state_error
      | some directory ↦ some_source (remote_vault directory c.id remote)
    ]
  ]
