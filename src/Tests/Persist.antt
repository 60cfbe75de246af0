-- ===== src/Tests/Persist.antt =====
-- A vault on a disk with one file and one temporary file, written and read back.
use tarvaultsync.Prelude.{
  ℕ, zero, suc, ◌≡◌, refl, none, some, true, false, [], ◌∷◌, ◌++◌, nat_eq, ℕ_discrete, length,
  arith,
}
use tarvaultsync.Prelude.Text.{text, text_eq, is_alphanumeric}
use tarvaultsync.Prelude.Map.{lookup}
use tarvaultsync.Prelude.Result.{ok}
use tarvaultsync.Core.{Bytes, plain_text}
use tarvaultsync.Core.Labels.{safe_label, safe_version, is_label_byte}
use tarvaultsync.Core.Os.{Os}
use tarvaultsync.Vault.{
  VaultParts, Manifest, manifest_eq, Envelope, hex_version, is_bad_entry, create_new_synced,
  atomic_replace, move_over, replace_file,
}
use tarvaultsync.Vault.Local.{LocalVault, reload_inner, write_out, persist}
use tarvaultsync.Vault.Persist.{IsFaithful, IsConsistent, persist-reload}

abbrev zeros : ℕ → Bytes
zeros zero = []
zeros (suc n) = 0 ∷ zeros n

abbrev manifest : Manifest
manifest = record {
  version = 2;
  entries = (text "item", record { kind = plain_text; version = text "v1" }) ∷ [];
}

abbrev envelope : Envelope
envelope = record {
  version = 2;
  salt = [];
  manifest_nonce = zeros 24;
  manifest_ciphertext = zeros 16;
  sealed = (text "v1", record { nonce = []; ciphertext = zeros 16 }) ∷ [];
}

Envelope-discrete : Discrete Envelope
Envelope-discrete = hlevel ℕ_discrete

-- The vault's file and the temporary file
abbrev Disk : Type 0
Disk = Bytes × Bytes

abbrev files : Os Disk
files = record {
  is_absolute = λ path. true;
  path_starts_with = λ path root. true;
  has_parent_dir = λ path. false;
  parent = λ path. none;
  with_extension = λ path extension. path ++ (b'.' ∷ extension);
  canonicalize = λ path w. none;
  is_symlink = λ path w. false;
  exists = λ path w. true;
  read = λ path w. ok w.0;
  metadata_len = λ path w. some (length w.0);
  create_synced = λ path x w. (ok tt, w);
  append = λ path x w. (ok tt, w);
  rename = λ from to w. (ok tt, (w.1, w.1));
  remove_file = λ path w. (ok tt, w);
  now = λ w. 0;
}

abbrev drop : ℕ → Bytes → Bytes
drop zero x = x
drop (suc n) [] = []
drop (suc n) (b ∷ x) = drop n x

-- Codecs for one envelope and one manifest, and a cipher that only puts a tag in front.
abbrev parts : VaultParts Disk
parts = record {
  os = files;
  symlink_metadata = λ path w. some false;
  lock_exclusive = λ path w. (ok tt, w);
  create_new = λ path x w. (ok tt, (w.0, x));
  fill_bytes = λ n w. (zeros n, w);
  instant = λ w. 0;
  hash_password = λ passphrase salt. some [];
  encrypt = λ key nonce aad x. some (zeros 16 ++ x);
  decrypt = λ key nonce aad x. some (drop 16 x);
  encode_manifest = λ m. elim (manifest_eq.dec m manifest) [ yes _ ↦ some [] | no _ ↦ none ];
  decode_manifest = λ x. some manifest;
  encode_envelope =
      λ e. elim (Envelope-discrete e envelope) [ yes _ ↦ some (1 ∷ []) | no _ ↦ none ];
  decode_envelope = λ x. some envelope;
}

parts-IsFaithful : IsFaithful parts
parts-IsFaithful = record {
  envelope_decodes = λ e s q. ground arith;
  envelope_nonempty = λ e q. ground arith;
  manifest_decodes = λ m s q. ground arith;
  decrypts = λ key nonce aad x c q. ground arith;
  tag_length = λ key nonce aad x c q. ground arith;
  renamed = λ tmp path x w w1 w2 c r. ground arith;
}

abbrev vault : LocalVault Disk
vault = record {
  path = text "vault";
  remote = none;
  salt = [];
  key = [];
  manifest = manifest;
  sealed = envelope.sealed;
  last_used = 0;
}

abbrev written : Disk
written = (text "TVAULT02" ++ (1 ∷ []), text "TVAULT02" ++ (1 ∷ []))

persist_run : persist parts vault false ([], []) ≡ (ok tt, written)
unfolding persist write_out atomic_replace move_over replace_file create_new_synced hex_version
    manifest_eq nat_eq ℕ_discrete Envelope-discrete
persist_run = refl

vault-IsConsistent : IsConsistent vault
unfolding is_bad_entry safe_label safe_version is_label_byte is_alphanumeric lookup text_eq nat_eq
    ℕ_discrete
vault-IsConsistent = (refl, refl, refl)

persist-reload_example :
    let (r, s) = reload_inner parts true (record { vault = vault; world = written }) in
    (r ≡ ok tt) × (s.vault ≡ vault)
persist-reload_example =
    persist-reload parts parts-IsFaithful vault ([], []) written true tt vault-IsConsistent
      persist_run
