-- ===== src/Tests/Vault.antt =====
-- A vault with one entry, on a disk that refuses new files.
use tarvaultsync.Prelude.{
  Option, arith, ℕ, zero, suc, ◌≡◌, refl, ◌⊎◌, none, some, true, false, [], ◌∷◌, ◌++◌, nat_eq,
  ℕ_discrete, length,
}
use tarvaultsync.Prelude.Text.{text, text_eq, text_lt, is_alphanumeric}
use tarvaultsync.Prelude.Map.{lookup, insert, remove}
use tarvaultsync.Prelude.Result.{ok, err}
use tarvaultsync.Core.{Bytes, plain_text, SecretPayload, secret_type_eq}
use tarvaultsync.Core.Labels.{safe_label, safe_version, is_label_byte}
use tarvaultsync.Core.Os.{Os, other}
use tarvaultsync.Vault.{
  VaultParts, magic, storage, locked, Manifest, manifest_eq, SealedPayload, Envelope, hex_version,
  is_bad_entry, parse_envelope, open_manifest, open_payload, seal_payload, read_limited,
  lock_for_update, create_new_synced, atomic_replace,
}
use tarvaultsync.Vault.Local.{
  Session, failure, cleared, put_content, undo_put, check_active, touch, read_ciphertext,
  reload_inner, reload, write_out, persist, draw_version, persist_or, store_entry, put, get_value,
}
use tarvaultsync.Vault.Rollback.{Agree, put-rolls_back}
use tarvaultsync.Core.{SourceRef, local_vault, unauthorized}
use tarvaultsync.Vault.{idle_timeout}
use tarvaultsync.Vault.Source.{Host, source_version, source_value}
use tarvaultsync.Vault.Local.{LocalVault}
use tarvaultsync.Vault.Local.{drop_entry, remove_entry}
use tarvaultsync.Vault.Removal.{remove_entry-rolls_back}
use tarvaultsync.Vault.Locked.{IsServed, source-IsIdle}
use tarvaultsync.Vault.Value.{get_value-Pinned}

abbrev zeros : ℕ → Bytes
zeros zero = []
zeros (suc n) = 0 ∷ zeros n

abbrev manifest : Manifest
manifest = record {
  version = 2;
  entries = (text "item", record { kind = plain_text; version = text "v1" }) ∷ [];
}

abbrev payload : SealedPayload
payload = record { nonce = []; ciphertext = zeros 16 }

abbrev envelope : Envelope
envelope = record {
  version = 2;
  salt = [];
  manifest_nonce = [];
  manifest_ciphertext = zeros 16;
  sealed = (text "v1", payload) ∷ [];
}

-- The world is the content of the vault's file.
abbrev files : Os Bytes
files = record {
  is_absolute = λ path. true;
  path_starts_with = λ path root. true;
  has_parent_dir = λ path. false;
  parent = λ path. none;
  with_extension = λ path extension. path ++ (b'.' ∷ extension);
  canonicalize = λ path w. none;
  is_symlink = λ path w. false;
  exists = λ path w. true;
  read = λ path w. ok w;
  metadata_len = λ path w. some (length w);
  create_synced = λ path x w. (ok tt, w);
  append = λ path x w. (ok tt, w);
  rename = λ from to w. (ok tt, w);
  remove_file = λ path w. (ok tt, w);
  now = λ w. 0;
}

-- A cipher that leaves the text as it is, and a disk on which no file can be made.
abbrev parts : VaultParts Bytes
parts = record {
  os = files;
  symlink_metadata = λ path w. some false;
  lock_exclusive = λ path w. (ok tt, w);
  create_new = λ path x w. (err other, w);
  fill_bytes = λ n w. (zeros n, w);
  instant = λ w. 0;
  hash_password = λ passphrase salt. some [];
  encrypt = λ key nonce aad x. some x;
  decrypt = λ key nonce aad x. some x;
  encode_manifest = λ m. some [];
  decode_manifest = λ x. some manifest;
  encode_envelope = λ e. some [];
  decode_envelope = λ x. some envelope;
}

abbrev session : Session Bytes
session = record {
  vault = record {
    path = text "vault";
    remote = none;
    salt = [];
    key = [];
    manifest = manifest;
    sealed = envelope.sealed;
    last_used = 0;
  };
  world = magic ++ (1 ∷ []);
}

abbrev value : SecretPayload
value = record { bytes = zeros 16; kind = plain_text }

put_run : put parts 1 (text "item") value session ≡ (err (failure storage), session)
unfolding put store_entry persist_or persist write_out atomic_replace create_new_synced draw_version
    seal_payload touch check_active reload_inner read_ciphertext read_limited parse_envelope
    open_manifest is_bad_entry lock_for_update put_content undo_put lookup insert remove safe_label
    safe_version is_label_byte text_eq text_lt nat_eq ℕ_discrete is_alphanumeric hex_version
    manifest_eq
put_run = refl

put-rolls_back_example :
    Agree session.vault session.vault
    ⊎ ((failure storage ≡ failure locked) × (session.vault ≡ cleared session.vault))
    ⊎ ((s1 : Session Bytes) × (s2 : Session Bytes) × (reload_inner parts true s1 ≡ (ok tt, s2))
        × Agree session.vault s1.vault
        × Agree s2.vault session.vault)
put-rolls_back_example =
    put-rolls_back parts 1 (text "item") value session session (failure storage) put_run

value_run : get_value parts (text "item") (text "v1") session ≡ (ok value, session)
unfolding get_value open_payload touch check_active reload reload_inner read_ciphertext read_limited
    parse_envelope open_manifest is_bad_entry lookup safe_label safe_version is_label_byte text_eq
    nat_eq ℕ_discrete is_alphanumeric manifest_eq
value_run = refl

get_value-Pinned_example :
    (sealed : SealedPayload) × (lookup (text "item") manifest.entries
      ≡ some (record { kind = plain_text; version = text "v1" }))
    × (lookup (text "v1") envelope.sealed ≡ some sealed)
    × (open_payload parts [] (text "item") (text "v1") sealed ≡ ok value.bytes)
    × ((s1 : Session Bytes) × (reload_inner parts false s1 ≡ (ok tt, session)))
get_value-Pinned_example =
    get_value-Pinned parts (text "item") (text "v1") session session value value_run

-- The vault of the session, as a source, when the clock is at the timeout
abbrev late : VaultParts Bytes
late = record parts { instant = λ w. idle_timeout }

abbrev item : SourceRef
item = record { store = local_vault; connection = text "home"; entry = text "item" }

abbrev host : Option (LocalVault Bytes) → Host Bytes
host v = record {
  source = record { vault = v; path = text "vault"; connection = text "home"; remote = none };
  world = session.world;
}

item-IsServed : IsServed item (host (some session.vault))
unfolding safe_label is_label_byte is_alphanumeric nat_eq ℕ_discrete
item-IsServed = (refl, refl, refl)

source-IsIdle_example :
    (source_version late item (host (some session.vault)) ≡ (err unauthorized, host none))
    × (source_value late item (text "v1") (host (some session.vault))
        ≡ (err unauthorized, host none))
source-IsIdle_example =
    source-IsIdle late item (text "v1") (host (some session.vault)) session.vault item-IsServed refl
      (omega arith)

remove_run : remove_entry parts (text "item") session ≡ (err storage, session)
unfolding remove_entry drop_entry persist_or persist write_out atomic_replace create_new_synced
    touch check_active reload_inner read_ciphertext read_limited parse_envelope open_manifest
    is_bad_entry lock_for_update lookup insert remove safe_label safe_version is_label_byte text_eq
    text_lt nat_eq ℕ_discrete is_alphanumeric hex_version manifest_eq
remove_run = refl

remove_entry-rolls_back_example :
    Agree session.vault session.vault
    ⊎ ((storage ≡ locked) × (session.vault ≡ cleared session.vault))
    ⊎ ((s1 : Session Bytes) × (s2 : Session Bytes) × (reload_inner parts true s1 ≡ (ok tt, s2))
        × Agree session.vault s1.vault
        × Agree s2.vault session.vault)
remove_entry-rolls_back_example =
    remove_entry-rolls_back parts (text "item") session session storage remove_run
