-- ===== src/Drive.antt =====
-- The references and checks of src/drive.rs that the catalogue of sources uses: providers, ids, and
-- the errors of a drive as those of a vault.
use tarvaultsync.Prelude.{
  Bool, true, false, not, ◌&&◌, ◌||◌, nat_eq, length, leb, all, contains, is_empty,
}
use tarvaultsync.Prelude.Text.{Text, text, text_eq, is_alphanumeric}
use tarvaultsync.Core.{StoreKind}
use tarvaultsync.Core as Core
use tarvaultsync.Vault.{VaultError, version_conflict, locked, corrupt, storage}

pub data Provider : Type 0 where
  one_drive google_drive : Provider

-- `PartialEq` of the provider
abbrev pub same_provider : Provider → Provider → Bool
same_provider one_drive one_drive = true
same_provider google_drive google_drive = true
same_provider _ _ = false

-- `Provider::label`
unfoldable pub label : Provider → Text
label one_drive = text "OneDrive"
label google_drive = text "Google Drive"

-- `Provider::store`
unfoldable pub store : Provider → StoreKind
store one_drive = Core.one_drive
store google_drive = Core.google_drive

pub data DriveError : Type 0 where
  authorization credential_store invalid_input network conflict invalid_response : DriveError

-- `From<DriveError> for VaultError`
unfoldable pub to_vault_error : DriveError → VaultError
to_vault_error conflict = version_conflict
to_vault_error authorization = locked
to_vault_error credential_store = locked
to_vault_error invalid_input = corrupt
to_vault_error invalid_response = corrupt
to_vault_error network = storage

unfoldable pub valid_id : Text → Bool
unfolding is_alphanumeric nat_eq
valid_id id =
    not (is_empty id)
    && leb (length id) 256
    && all (λ b. is_alphanumeric b || contains (text "_-!") b) id

pub record RemoteRef : Type 0 where
  pub provider : Provider
  pub credential_id : Text
  pub file_id : Text

-- `RemoteRef::validate`
unfoldable pub is_valid_ref : RemoteRef → Bool
is_valid_ref remote = valid_id remote.credential_id && valid_id remote.file_id
