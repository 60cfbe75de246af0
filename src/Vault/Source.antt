-- ===== src/Vault/Source.antt =====
-- `VaultSource` of src/vault.rs: the vault behind the lock, as a source of the engine, and its
-- settings screen. A handler runs with the lock held, so `try_lock` succeeds and no lock is poisoned.
use tarvaultsync.Prelude.{
  ℕ, Option, none, some, Bool, true, false, not, ◌||◌, List, [], ◌∷◌, ◌==◌, if◌then◌else◌,
}
use tarvaultsync.Prelude.Text.{Text, text, text_eq, split_once}
use tarvaultsync.Prelude.Result.{
  Result, ok, err, map_err, Action, ◌>>=◌, ◌>>◌, pure, raise_if, gets, modify,
}
use tarvaultsync.Core.{
  Bytes, FilePath, SecretType, plain_text, json, binary, certificate, private_key, SecretPayload,
  SourceVersion, SourceRef, local_vault, store_eq, ErrorCategory, invalid_config, source_error,
  unauthorized,
}
use tarvaultsync.Core as Core
use tarvaultsync.Core.Labels.{safe_label}
use tarvaultsync.Core.Registry.{SettingsScreen, ModuleSetting, source_setting, store_module}
use tarvaultsync.Vault.{VaultParts, VaultError, invalid_input, locked, already_exists, CipherStore}
use tarvaultsync.Vault as Vault
use tarvaultsync.Vault.Local.{
  LocalVault, VaultEntry, Session, Halt, failure, is_remote_vault, check_active, entries,
  open_bytes, put, import_new, remove_entry,
}
use tarvaultsync.Vault.Local as Local

pub record VaultSource (W : Type 0) : Type 0 where
  pub vault : Option (LocalVault W)
  pub path : FilePath
  pub connection : Text
  pub remote : Option (CipherStore W)

-- `&self`, with what is behind the lock, and the world
pub record Host (W : Type 0) : Type 0 where
  pub source : VaultSource W
  pub world : W

-- After an action: the vault stays open, except on the error `Locked`.
abbrev pub is_locked_halt : {A : Type 0} → Result Halt A → Bool
is_locked_halt (err (failure locked)) = true
is_locked_halt _ = false

abbrev pub is_locked : {A : Type 0} → Result VaultError A → Bool
is_locked (err locked) = true
is_locked _ = false

-- The `match` at the end of `with_vault`
abbrev pub source_category : VaultError → ErrorCategory
source_category locked = unauthorized
source_category Vault.version_conflict = Core.version_conflict
source_category _ = source_error

module _ {W : Type 0} where
  unfoldable pub new_source : FilePath → Text → Result VaultError (VaultSource W)
  new_source path connection =
      if not (safe_label connection)
      then err invalid_input
      else ok (record { vault = none; path = path; connection = connection; remote = none })

  -- `VaultSource::remote`
  unfoldable pub remote_source : FilePath → Text → CipherStore W → Result VaultError (VaultSource W)
  remote_source path connection remote = elim (new_source path connection) [
    | err e ↦ err e
    | ok s ↦ ok (record s { remote = some remote })
  ]

  abbrev pub set_vault : Option (LocalVault W) → Host W → Host W
  set_vault v h = record h { source = record h.source { vault = v } }

  abbrev pub on_host : {E A : Type 0} → Action W E A → Action (Host W) E A
  on_host m h = let (r, w) = m h.world in (r, record h { world = w })

  unfoldable pub with_open : {A : Type 0} → Action (Session W) Halt A → Action (Host W) Halt A
  with_open action h = elim h.source.vault [
    | none ↦ (err (failure locked), h)
    | some v ↦
        let (r, s) = action (record { vault = v; world = h.world }) in
        (
          r,
          record h {
            source = record h.source { vault = if is_locked_halt r then none else some s.vault };
            world = s.world;
          },
        )
  ]

  unfoldable pub with_vault :
      {A : Type 0} → SourceRef → Action (Session W) VaultError A → Action (Host W) ErrorCategory A
  with_vault reference f h =
      if not (reference.store == local_vault)
        || not (reference.connection == h.source.connection)
        || not (safe_label reference.entry)
      then (err invalid_config, h)
      else elim h.source.vault [
        | none ↦ (err unauthorized, h)
        | some v ↦
            let (r, s) = f (record { vault = v; world = h.world }) in
            (
              map_err source_category r,
              record h {
                source = record h.source { vault = if is_locked r then none else some s.vault };
                world = s.world;
              },
            )
      ]

  -- `lock`
  unfoldable pub lock : Host W → Host W
  lock h = set_vault none h

  unfoldable pub disconnect : Action (Host W) VaultError (Unit {0})
  disconnect h = elim h.source.remote [
    | none ↦ (err invalid_input, set_vault none h)
    | some remote ↦ on_host remote.disconnect (set_vault none h)
  ]

module _ {W : Type 0} (p : VaultParts W) where
  -- The vault that `unlock` opens
  unfoldable pub open_source : Text → VaultSource W → Action W VaultError (LocalVault W)
  open_source passphrase s = elim s.remote [
    | none ↦ Local.unlock p s.path passphrase
    | some remote ↦ remote.read >>= λ bytes. open_bytes p s.path passphrase bytes (some remote)
  ]

  unfoldable pub unlock : Text → Action (Host W) VaultError (Unit {0})
  unlock passphrase = do
    opened ← λ h. on_host (open_source passphrase h.source) h
    modify (set_vault (some opened))

  unfoldable pub create : Text → Action (Host W) VaultError (Unit {0})
  create passphrase = do
    remote ← gets (λ h. h.source.remote)
    raise_if (is_remote_vault remote) already_exists
    created ← λ h. on_host (Local.create p h.source.path passphrase) h
    modify (set_vault (some created))

  unfoldable pub recover : FilePath → Text → Action (Host W) VaultError (Unit {0})
  recover backup passphrase = do
    remote ← gets (λ h. h.source.remote)
    raise_if (is_remote_vault remote) already_exists
    recovered ← λ h. on_host (Local.recover p backup h.source.path passphrase) h
    modify (set_vault (some recovered))

  -- `exists`
  unfoldable pub is_present : Host W → Bool
  is_present h = is_remote_vault h.source.remote || p.os.exists h.source.path h.world

  unfoldable pub is_unlocked : Host W → Bool × Host W
  is_unlocked h = elim h.source.vault [
    | none ↦ (false, set_vault none h)
    | some v ↦
        let (r, s) = check_active p (record { vault = v; world = h.world }) in
        elim r [ ok _ ↦ (true, set_vault (some s.vault) h) | err _ ↦ (false, set_vault none h) ]
  ]

  unfoldable pub source_entries : Action (Host W) VaultError (List VaultEntry)
  source_entries h = elim h.source.vault [
    | none ↦ (err locked, h)
    | some v ↦
        let (r, s) = entries p (record { vault = v; world = h.world }) in
        (r, record h { source = record h.source { vault = some s.vault }; world = s.world })
  ]

  unfoldable pub put_entry : ℕ → Text → SecretPayload → Action (Host W) Halt (Unit {0})
  put_entry tries id payload = with_open (put p tries id payload) >> pure tt

  unfoldable pub import_entries : ℕ → List (Text × SecretPayload) → Action (Host W) Halt (Unit {0})
  import_entries tries entries = with_open (import_new p tries entries)

  abbrev or_failure : {A : Type 0} → Action (Session W) VaultError A → Action (Session W) Halt A
  or_failure m s = let (r, s') = m s in (map_err failure r, s')

  unfoldable pub remove_from : Text → Action (Host W) Halt (Unit {0})
  remove_from id = with_open (or_failure (remove_entry p id))

  unfoldable pub backup_to : FilePath → Action (Host W) Halt (Unit {0})
  backup_to destination = with_open (or_failure (Local.backup p destination))

  -- The methods of `SourceConnection`
  unfoldable pub source_version : SourceRef → Action (Host W) ErrorCategory SourceVersion
  source_version r = with_vault r (Local.get_version p r.entry)

  unfoldable pub source_value :
      SourceRef → SourceVersion → Action (Host W) ErrorCategory SecretPayload
  source_value r version = with_vault r (Local.get_value p r.entry version)

-- `VaultStoreScreen`
unfoldable pub vault_store_configure : Text → Result ErrorCategory ModuleSetting
vault_store_configure input = elim (split_once b',' input) [
  | none ↦ err invalid_config
  | some (connection, entry) ↦
      if not (safe_label connection) || not (safe_label entry)
      then err invalid_config
      else ok
          (source_setting (record { store = local_vault; connection = connection; entry = entry }))
]

abbrev pub vault_store_screen : SettingsScreen
vault_store_screen = record {
  module_id = text "local_vault";
  kind = store_module;
  supported_types = plain_text ∷ json ∷ binary ∷ certificate ∷ private_key ∷ [];
  render =
      text "Local vault: create, unlock, lock, edit, backup, recover; configure connection,entry";
  configure = vault_store_configure;
}
