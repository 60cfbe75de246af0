-- ===== src/Vault/Local.antt =====
-- `LocalVault` of src/vault.rs: a vault that is open, and the world.
use tarvaultsync.Prelude.{
  ℕ, zero, suc, ◌+◌, ◌-◌, ◌/◌, Option, none, some, Bool, true, false, not, ◌&&◌, ◌||◌, List, [],
  ◌∷◌, ◌++◌, ◌==◌, nat_eq, ltb, leb, if◌then◌else◌, length, contains, is_empty,
}
use tarvaultsync.Prelude.Text.{Text, text_eq}
use tarvaultsync.Prelude.Map.{Map, lookup, insert, remove, has_key}
use tarvaultsync.Prelude.Result.{
  ok, err, map_err, ok_or, Action, ◌>>=◌, ◌>>◌, pure, raise, raise_if, lift, gets, modify,
}
use tarvaultsync.Core.{Bytes, FilePath, SecretType, SecretPayload, SourceVersion}
use tarvaultsync.Core.Labels.{safe_label}
use tarvaultsync.Vault.{
  VaultParts, VaultError, invalid_input, locked, missing_entry, already_exists, version_conflict,
  authentication_or_corrupt, corrupt, storage, CipherStore, EntryMeta, Manifest, manifest_eq,
  SealedPayload, magic, max_vault_bytes, idle_timeout, hex_version, manifest_aad, derive_key,
  parse_envelope, open_manifest, seal_payload, open_payload, verify_all, read_limited,
  lock_for_update, create_new_synced, atomic_replace,
}

pub record LocalVault (W : Type 0) : Type 0 where
  pub path : FilePath
  pub remote : Option (CipherStore W)
  pub salt : Bytes
  pub key : Bytes
  pub manifest : Manifest
  pub sealed : Map SealedPayload
  pub last_used : ℕ

pub record VaultEntry : Type 0 where
  pub id : Text
  pub kind : SecretType
  pub version : Text

-- The vault behind `&mut self`, and the world
pub record Session (W : Type 0) : Type 0 where
  pub vault : LocalVault W
  pub world : W

-- How an operation that draws random versions ends without a result: with an error of the vault, or
-- because the draws that the model allows for are used up.
pub data Halt : Type 0 where
  failure : VaultError → Halt
  still_drawing : Halt

-- `entries.clear()`, and the key overwritten
abbrev pub zeroize : Bytes → Bytes
zeroize [] = []
zeroize (_ ∷ s) = 0 ∷ zeroize s

abbrev pub to_entries : Map EntryMeta → List VaultEntry
to_entries [] = []
to_entries ((id, meta) ∷ m) =
    record { id = id; kind = meta.kind; version = meta.version } ∷ to_entries m

abbrev pub is_remote_vault {ℓ} : {A : Type ℓ} → Option A → Bool
is_remote_vault none = false
is_remote_vault (some _) = true

-- The payload that the old version has, if the entry is there
abbrev pub old_sealed : Option EntryMeta → Map SealedPayload → Option SealedPayload
old_sealed none sealed = none
old_sealed (some old) sealed = lookup old.version sealed

-- The local `pending` of `import_new`
abbrev pub Pending : Type 0
Pending = List (Text × EntryMeta × SealedPayload)

module _ {W : Type 0} where
  abbrev pub in_world : {E A : Type 0} → Action W E A → Action (Session W) E A
  in_world m s = let (r, w) = m s.world in (r, record s { world = w })

  abbrev pub or_halt : {A : Type 0} → Action (Session W) VaultError A → Action (Session W) Halt A
  or_halt m s = let (r, s') = m s in (map_err failure r, s')

  -- `self.manifest.entries` and `self.sealed` assigned
  abbrev pub with_content : Map EntryMeta → Map SealedPayload → LocalVault W → LocalVault W
  with_content entries sealed v = record v {
    manifest = record v.manifest { entries = entries };
    sealed = sealed;
  }

  unfoldable pub cleared : LocalVault W → LocalVault W
  cleared v = record (with_content [] [] v) { key = zeroize v.key }

  -- What `put` stores, with the version drawn and the payload sealed
  unfoldable pub put_content : Text → EntryMeta → SealedPayload → LocalVault W → LocalVault W
  put_content id meta payload v =
      with_content (insert id meta v.manifest.entries)
        (insert meta.version payload (elim (lookup id v.manifest.entries) [
          | none ↦ v.sealed
          | some old ↦ remove old.version v.sealed
        ]))
        v

  -- The rollback of `put`, from the entry and the payload that were replaced
  unfoldable pub undo_put :
      Text → Text → Option EntryMeta → Option SealedPayload → LocalVault W → LocalVault W
  undo_put id version none _ v =
      with_content (remove id v.manifest.entries) (remove version v.sealed) v
  undo_put id version (some old) none v =
      with_content (insert id old (remove id v.manifest.entries)) (remove version v.sealed) v
  undo_put id version (some old) (some payload) v =
      with_content (insert id old (remove id v.manifest.entries))
        (insert old.version payload (remove version v.sealed)) v

  -- The second loop of `import_new`, and the loop of its rollback
  unfoldable pub add_pending : Pending → LocalVault W → LocalVault W
  add_pending [] v = v
  add_pending ((id, meta, payload) ∷ rest) v =
      add_pending rest
        (with_content (insert id meta v.manifest.entries) (insert meta.version payload v.sealed) v)

  unfoldable pub undo_import : List (Text × SecretPayload) → LocalVault W → LocalVault W
  undo_import [] v = v
  undo_import ((id, _) ∷ rest) v = elim (lookup id v.manifest.entries) [
    | none ↦ undo_import rest v
    | some meta ↦
        undo_import rest
          (with_content (remove id v.manifest.entries) (remove meta.version v.sealed) v)
  ]

module _ {W : Type 0} (p : VaultParts W) where
  unfoldable pub check_active : Action (Session W) VaultError (Unit {0})
  check_active s =
      if leb idle_timeout (p.instant s.world - s.vault.last_used)
      then (err locked, record s { vault = cleared s.vault })
      else (ok tt, s)

  unfoldable pub touch : Action (Session W) VaultError (Unit {0})
  touch = do
    check_active
    modify (λ s. record s { vault = record s.vault { last_used = p.instant s.world } })

  unfoldable pub read_ciphertext : LocalVault W → Action W VaultError Bytes
  read_ciphertext v = elim v.remote [ none ↦ read_limited p v.path | some remote ↦ remote.read ]

  unfoldable pub reload_inner : Bool → Action (Session W) VaultError (Unit {0})
  unfolding text_eq
  reload_inner reject_remote_changes = do
    v ← gets (λ s. s.vault)
    content ← in_world (read_ciphertext v)
    envelope ← lift (parse_envelope p content)
    raise_if (not (envelope.salt == v.salt)) authentication_or_corrupt
    manifest ← lift (open_manifest p envelope v.key)
    raise_if (is_remote_vault v.remote && reject_remote_changes && not (manifest == v.manifest))
        version_conflict
    modify (λ s. record s { vault = record v { manifest = manifest; sealed = envelope.sealed } })

  unfoldable pub reload : Action (Session W) VaultError (Unit {0})
  reload = reload_inner false

  -- The end of `persist`: where the bytes go
  unfoldable pub write_out : LocalVault W → Bool → Bytes → Action W VaultError (Unit {0})
  write_out v create output = elim v.remote [
    | some remote ↦ if create then raise already_exists else remote.replace output
    | none ↦ if create then create_new_synced p v.path output else atomic_replace p v.path output
  ]

  unfoldable pub persist : LocalVault W → Bool → Action W VaultError (Unit {0})
  persist v create = do
    nonce ← λ w. let (nonce, w') = p.fill_bytes 24 w in (ok nonce, w')
    plaintext ← lift (ok_or (p.encode_manifest v.manifest) corrupt)
    ciphertext ← lift (ok_or (p.encrypt v.key nonce (manifest_aad v.salt) plaintext) storage)
    encoded ← lift (
        ok_or
          (p.encode_envelope (record {
            version = 2;
            salt = v.salt;
            manifest_nonce = nonce;
            manifest_ciphertext = ciphertext;
            sealed = v.sealed;
          }))
          storage)
    raise_if (ltb max_vault_bytes (length encoded + length magic)) invalid_input
    write_out v create (magic ++ encoded)

  -- `create`, with the salt drawn
  unfoldable pub create : FilePath → Text → Action W VaultError (LocalVault W)
  create path passphrase = do
    raise_if (ltb (length passphrase) 12 || ltb 4096 (length passphrase)) invalid_input
    exists ← gets (λ w. p.os.exists path w)
    raise_if exists already_exists
    salt ← λ w. let (salt, w') = p.fill_bytes 16 w in (ok salt, w')
    key ← lift (derive_key p passphrase salt)
    now ← gets (λ w. p.instant w)
    let vault : LocalVault W = record {
      path = path;
      remote = none;
      salt = salt;
      key = key;
      manifest = record { version = 2; entries = [] };
      sealed = [];
      last_used = now;
    }
    persist vault true
    pure vault

  unfoldable pub open_bytes :
      FilePath → Text → Bytes → Option (CipherStore W) → Action W VaultError (LocalVault W)
  open_bytes path passphrase content remote = do
    raise_if (ltb max_vault_bytes (length content) || ltb 4096 (length passphrase)) invalid_input
    envelope ← lift (parse_envelope p content)
    key ← lift (derive_key p passphrase envelope.salt)
    manifest ← lift (open_manifest p envelope key)
    lift (if is_remote_vault remote then verify_all p content key else ok tt)
    now ← gets (λ w. p.instant w)
    pure (record {
      path = path;
      remote = remote;
      salt = envelope.salt;
      key = key;
      manifest = manifest;
      sealed = envelope.sealed;
      last_used = now;
    })

  unfoldable pub unlock : FilePath → Text → Action W VaultError (LocalVault W)
  unlock path passphrase = do content ← read_limited p path; open_bytes path passphrase content none

  -- The loop that draws a version which is not taken, with the draws allowed for
  unfoldable pub draw_version : ℕ → (Text → Bool) → Action W Halt Text
  draw_version zero taken w = (err still_drawing, w)
  draw_version (suc tries) taken w =
      let (random, w') = p.fill_bytes 16 w in
      let again = draw_version tries taken w' in
      if taken (hex_version random) then again else (ok (hex_version random), w')

  -- The end of `put` and `import_new`: the vault is stored as `next`; if that fails, as `undone`.
  unfoldable pub persist_or : LocalVault W → LocalVault W → Action (Session W) VaultError (Unit {0})
  persist_or next undone s =
      let (r, w) = persist next false s.world in
      elim r [
        | ok _ ↦ (ok tt, record s { vault = next; world = w })
        | err e ↦ (err e, record s { vault = undone; world = w })
      ]

  -- `put` from the loop that draws a version on
  unfoldable pub store_entry : ℕ → Text → SecretPayload → Action (Session W) Halt SourceVersion
  store_entry tries entry_id payload = do
    v ← gets (λ s. s.vault)
    version ← in_world (draw_version tries (λ c. has_key c v.sealed))
    sealed ← or_halt (in_world (seal_payload p v.key entry_id version payload.bytes))
    let next : LocalVault W =
        put_content entry_id (record { kind = payload.kind; version = version }) sealed v
    let old = lookup entry_id v.manifest.entries
    or_halt (persist_or next (undo_put entry_id version old (old_sealed old v.sealed) next))
    pure version

  unfoldable pub put : ℕ → Text → SecretPayload → Action (Session W) Halt SourceVersion
  put tries entry_id payload = do
    or_halt touch
    raise_if (not (safe_label entry_id) || ltb (max_vault_bytes / 2) (length payload.bytes))
        (failure invalid_input)
    or_halt (λ s. in_world (lock_for_update p s.vault.path) s)
    or_halt (reload_inner true)
    store_entry tries entry_id payload

  -- `remove` from the look-up of the entry on
  unfoldable pub drop_entry : Text → Action (Session W) VaultError (Unit {0})
  drop_entry entry_id = do
    v ← gets (λ s. s.vault)
    old ← lift (ok_or (lookup entry_id v.manifest.entries) missing_entry)
    modify (λ s. record s { vault = with_content (remove entry_id v.manifest.entries) v.sealed v })
    sealed ← lift (ok_or (lookup old.version v.sealed) corrupt)
    let next : LocalVault W =
        with_content (remove entry_id v.manifest.entries) (remove old.version v.sealed) v
    persist_or next (
        with_content (insert entry_id old (remove entry_id v.manifest.entries))
          (insert old.version sealed (remove old.version v.sealed)) v)

  unfoldable pub remove_entry : Text → Action (Session W) VaultError (Unit {0})
  remove_entry entry_id = do
    touch
    λ s. in_world (lock_for_update p s.vault.path) s
    reload_inner true
    drop_entry entry_id

  -- The first loop of `import_new`: nothing is stored yet.
  unfoldable pub stage_entries :
      ℕ → LocalVault W → List Text → List Text → List (Text × SecretPayload) → Action W Halt Pending
  stage_entries tries v ids versions [] = pure []
  stage_entries tries v ids versions ((id, payload) ∷ rest) = do
    raise_if
        (not (safe_label id) || contains ids id || ltb (max_vault_bytes / 2) (length payload.bytes))
        (failure invalid_input)
    raise_if (has_key id v.manifest.entries) (failure already_exists)
    version ← draw_version tries (λ c. has_key c v.sealed || contains versions c)
    sealed ← λ w.
        let (r, w') = seal_payload p v.key id version payload.bytes w in (map_err failure r, w')
    pending ← stage_entries tries v (id ∷ ids) (version ∷ versions) rest
    pure ((id, record { kind = payload.kind; version = version }, sealed) ∷ pending)

  unfoldable pub import_new : ℕ → List (Text × SecretPayload) → Action (Session W) Halt (Unit {0})
  import_new tries entries = do
    or_halt touch
    or_halt (λ s. in_world (lock_for_update p s.vault.path) s)
    or_halt (reload_inner true)
    raise_if (is_empty entries || ltb 1000 (length entries)) (failure invalid_input)
    v ← gets (λ s. s.vault)
    pending ← in_world (stage_entries tries v [] [] entries)
    let next = add_pending pending v
    or_halt (persist_or next (undo_import entries next))

  unfoldable pub get_version : Text → Action (Session W) VaultError SourceVersion
  get_version entry_id = do
    touch
    reload
    v ← gets (λ s. s.vault)
    entry ← lift (ok_or (lookup entry_id v.manifest.entries) missing_entry)
    pure entry.version

  unfoldable pub entries : Action (Session W) VaultError (List VaultEntry)
  entries = do
    check_active
    λ s. if is_remote_vault s.vault.remote then (ok tt, s) else reload s
    gets (λ s. to_entries s.vault.manifest.entries)

  unfoldable pub get_value : Text → SourceVersion → Action (Session W) VaultError SecretPayload
  get_value entry_id version = do
    touch
    reload
    v ← gets (λ s. s.vault)
    entry ← lift (ok_or (lookup entry_id v.manifest.entries) missing_entry)
    raise_if (not (entry.version == version)) version_conflict
    sealed ← lift (ok_or (lookup entry.version v.sealed) corrupt)
    bytes ← lift (open_payload p v.key entry_id entry.version sealed)
    pure (record { kind = entry.kind; bytes = bytes })

  unfoldable pub backup : FilePath → Action (Session W) VaultError (Unit {0})
  backup destination = do
    touch
    v ← gets (λ s. s.vault)
    exists ← gets (λ s. p.os.exists destination s.world)
    raise_if (v.path == destination || exists) already_exists
    content ← in_world (read_ciphertext v)
    lift (verify_all p content v.key)
    in_world (create_new_synced p destination content)

  unfoldable pub recover : FilePath → FilePath → Text → Action W VaultError (LocalVault W)
  recover backup destination passphrase = do
    exists ← gets (λ w. p.os.exists destination w)
    raise_if (backup == destination || exists) already_exists
    checked ← unlock backup passphrase
    content ← read_limited p backup
    lift (verify_all p content checked.key)
    create_new_synced p destination content
    unlock destination passphrase
