-- ===== src/Vault.antt =====
-- The encrypted vault, src/vault.rs: its data, its file format and its files. The key derivation, the
-- cipher, the JSON codecs, the random generator, the clock and the file system are parameters.
pub mod Local
pub mod Source
pub mod Rollback
pub mod Idle
pub mod Value
pub mod Persist
pub mod Locked
pub mod Removal
use tarvaultsync.Prelude.{
  ℕ, zero, suc, ◌+◌, ◌*◌, ◌/◌, ◌%◌, Option, none, some, Bool, true, false, not, ◌&&◌, ◌||◌, List,
  [], ◌∷◌, ◌++◌, ◌==◌, nat_eq, ℕ_discrete, Eq, ltb, leb, if◌then◌else◌, any, length,
}
use tarvaultsync.Prelude.Text.{Text, text, text_eq}
use tarvaultsync.Prelude.Map.{Map, lookup}
use tarvaultsync.Prelude.Result.{
  Result, ok, err, map_err, ok_or, Action, ◌>>=◌, ◌>>◌, pure, raise, raise_if, lift,
}
use tarvaultsync.Core.{Bytes, FilePath, SecretType, secret_type_eq}
use tarvaultsync.Core.Os.{Os, IoError}
use tarvaultsync.Core.Labels.{safe_label, safe_version}

abbrev pub magic : Bytes
magic = text "TVAULT02"

abbrev pub max_vault_bytes : ℕ
max_vault_bytes = 16 * 1024 * 1024

-- In milliseconds
abbrev pub idle_timeout : ℕ
idle_timeout = 15 * 60 * 1000

pub data VaultError : Type 0 where
  invalid_input locked missing_entry already_exists version_conflict : VaultError
  authentication_or_corrupt corrupt storage : VaultError

pub record CipherStore (W : Type 0) : Type 0 where
  pub read : W → Result VaultError Bytes × W
  pub replace : Bytes → W → Result VaultError (Unit {0}) × W
  pub disconnect : W → Result VaultError (Unit {0}) × W

pub record EntryMeta : Type 0 where
  pub kind : SecretType
  pub version : Text

pub record Manifest : Type 0 where
  pub version : ℕ
  pub entries : Map EntryMeta

pub record SealedPayload : Type 0 where
  pub nonce : Bytes
  pub ciphertext : Bytes

pub record Envelope : Type 0 where
  pub version : ℕ
  pub salt : Bytes
  pub manifest_nonce : Bytes
  pub manifest_ciphertext : Bytes
  pub sealed : Map SealedPayload

SecretType-discrete : Discrete SecretType
SecretType-discrete = hlevel

EntryMeta-discrete : Discrete EntryMeta
EntryMeta-discrete = hlevel (SecretType-discrete, ℕ_discrete)

Manifest-discrete : Discrete Manifest
Manifest-discrete = hlevel (EntryMeta-discrete, ℕ_discrete)

-- The derived `PartialEq`
instance unfoldable pub manifest_eq : Eq Manifest
unfolding Manifest-discrete EntryMeta-discrete SecretType-discrete ℕ_discrete
manifest_eq = record { dec = Manifest-discrete }

-- What the vault calls. The cipher takes the key, the nonce, the associated data and the text.
pub record VaultParts (W : Type 0) : Type 0 where
  pub os : Os W
  -- `fs::symlink_metadata(path).map(|m| m.file_type().is_symlink())`
  pub symlink_metadata : FilePath → W → Option Bool
  -- open with `create`, then `lock_exclusive`
  pub lock_exclusive : FilePath → W → Result IoError (Unit {0}) × W
  -- open with `create_new`, `write_all`, `sync_all`
  pub create_new : FilePath → Bytes → W → Result IoError (Unit {0}) × W
  pub fill_bytes : ℕ → W → Bytes × W
  -- milliseconds of the monotonic clock
  pub instant : W → ℕ
  pub hash_password : Text → Bytes → Option Bytes
  pub encrypt : Bytes → Bytes → Bytes → Bytes → Option Bytes
  pub decrypt : Bytes → Bytes → Bytes → Bytes → Option Bytes
  pub encode_manifest : Manifest → Option Bytes
  pub decode_manifest : Bytes → Option Manifest
  pub encode_envelope : Envelope → Option Bytes
  pub decode_envelope : Bytes → Option Envelope

-- The bytes after a prefix; `none` if they start with another
abbrev pub after_prefix : Bytes → Bytes → Option Bytes
after_prefix [] s = some s
after_prefix (p ∷ ps) [] = none
after_prefix (p ∷ ps) (c ∷ s) = let rest = after_prefix ps s in if p == c then rest else none

abbrev pub hex_digit : ℕ → ℕ
hex_digit n = if ltb n 10 then 48 + n else 87 + n

unfoldable pub hex_version : Bytes → Text
hex_version [] = []
hex_version (b ∷ s) = hex_digit (b / 16) ∷ hex_digit (b % 16) ∷ hex_version s

abbrev pub manifest_aad : Bytes → Bytes
manifest_aad salt = magic ++ salt

abbrev pub payload_aad : Text → Text → Bytes
payload_aad entry_id version = magic ++ (entry_id ++ (0 ∷ version))

-- The test of `open_manifest` on one entry
unfoldable pub is_bad_entry : Map SealedPayload → Text × EntryMeta → Bool
is_bad_entry sealed (id, meta) =
    not (safe_label id) || not (safe_version meta.version) || (elim (lookup meta.version sealed) [
      | none ↦ true
      | some payload ↦ ltb (length payload.ciphertext) 16
    ])

module _ {W : Type 0} (p : VaultParts W) where
  unfoldable pub derive_key : Text → Bytes → Result VaultError Bytes
  derive_key passphrase salt = ok_or (p.hash_password passphrase salt) authentication_or_corrupt

  unfoldable pub parse_envelope : Bytes → Result VaultError Envelope
  unfolding nat_eq
  parse_envelope content = elim (after_prefix magic content) [
    | none ↦ err corrupt
    | some [] ↦ err corrupt
    | some (c ∷ s) ↦ elim (p.decode_envelope (c ∷ s)) [
      | none ↦ err corrupt
      | some e ↦
          if not (e.version == 2) || ltb (length e.manifest_ciphertext) 16
          then err corrupt
          else ok e
    ]
  ]

  unfoldable pub open_manifest : Envelope → Bytes → Result VaultError Manifest
  unfolding nat_eq
  open_manifest e key =
      elim (p.decrypt key e.manifest_nonce (manifest_aad e.salt) e.manifest_ciphertext) [
        | none ↦ err authentication_or_corrupt
        | some plaintext ↦ elim (p.decode_manifest plaintext) [
          | none ↦ err corrupt
          | some m ↦
              if not (m.version == 2)
                || not (length m.entries == length e.sealed)
                || any (is_bad_entry e.sealed) m.entries
              then err corrupt
              else ok m
        ]
      ]

  unfoldable pub seal_payload : Bytes → Text → Text → Bytes → Action W VaultError SealedPayload
  seal_payload key entry_id version bytes w =
      let (nonce, w') = p.fill_bytes 24 w in
      elim (p.encrypt key nonce (payload_aad entry_id version) bytes) [
        | none ↦ (err storage, w')
        | some ciphertext ↦ (ok (record { nonce = nonce; ciphertext = ciphertext }), w')
      ]

  unfoldable pub open_payload : Bytes → Text → Text → SealedPayload → Result VaultError Bytes
  open_payload key entry_id version payload =
      ok_or (p.decrypt key payload.nonce (payload_aad entry_id version) payload.ciphertext)
        authentication_or_corrupt

  unfoldable pub verify_entries :
      Bytes → Map SealedPayload → Map EntryMeta → Result VaultError (Unit {0})
  verify_entries key sealed [] = ok tt
  verify_entries key sealed ((id, meta) ∷ m) = elim (lookup meta.version sealed) [
    | none ↦ err corrupt
    | some payload ↦ elim (open_payload key id meta.version payload) [
      | err e ↦ err e
      | ok _ ↦ verify_entries key sealed m
    ]
  ]

  unfoldable pub verify_all : Bytes → Bytes → Result VaultError (Unit {0})
  verify_all content key = elim (parse_envelope content) [
    | err e ↦ err e
    | ok envelope ↦ elim (open_manifest envelope key) [
      | err e ↦ err e
      | ok manifest ↦ verify_entries key envelope.sealed manifest.entries
    ]
  ]

  -- `take(limit + 1)` leaves a text that is too long too long.
  unfoldable pub read_limited : FilePath → Action W VaultError Bytes
  read_limited path w = elim (p.os.metadata_len path w) [
    | none ↦ (err storage, w)
    | some n ↦ if ltb max_vault_bytes n then (err corrupt, w) else elim (p.os.read path w) [
      | err _ ↦ (err storage, w)
      | ok content ↦
          if ltb max_vault_bytes (length content) then (err corrupt, w) else (ok content, w)
    ]
  ]

  abbrev pub io : {A : Type 0} → (W → Result IoError A × W) → Action W VaultError A
  io f w = let (r, w') = f w in (map_err (λ _. storage) r, w')

  abbrev pub is_link : Option Bool → Bool
  is_link none = false
  is_link (some b) = b

  unfoldable pub lock_for_update : FilePath → Action W VaultError (Unit {0})
  lock_for_update path w =
      let lock_path = p.os.with_extension path (text "vault.lock") in
      if is_link (p.symlink_metadata lock_path w)
      then (err storage, w)
      else io (p.lock_exclusive lock_path) w

  unfoldable pub create_new_synced : FilePath → Bytes → Action W VaultError (Unit {0})
  create_new_synced path content = io (p.create_new path content)

  unfoldable pub replace_file : FilePath → FilePath → W → Result IoError (Unit {0}) × W
  replace_file tmp path = p.os.rename tmp path

  -- The end of `atomic_replace`
  unfoldable pub move_over : FilePath → FilePath → Action W VaultError (Unit {0})
  move_over tmp path w =
      let (r, w') = replace_file tmp path w in
      elim r [ ok _ ↦ (ok tt, w') | err _ ↦ (err storage, (p.os.remove_file tmp w').1) ]

  unfoldable pub atomic_replace : FilePath → Bytes → Action W VaultError (Unit {0})
  atomic_replace path content w =
      let (suffix, w') = p.fill_bytes 8 w in
      let tmp = p.os.with_extension path (text "vault-" ++ (hex_version suffix ++ text ".tmp")) in
      let write : Action W VaultError (Unit {0}) =
        create_new_synced tmp content >> move_over tmp path in
      elim (p.symlink_metadata path w) [
        | none ↦ (err storage, w)
        | some true ↦ (err storage, w)
        | some false ↦ write w'
      ]
