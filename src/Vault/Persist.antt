-- ===== src/Vault/Persist.antt =====
-- `persist` of src/vault.rs and the reload of what it wrote.
use tarvaultsync.Prelude.{
  ◌≤◌, ◌≡◌, refl, ◌≢◌, subst, inl, inr, Option, none, some, Bool, false, [], ◌∷◌, ◌++◌, nat_eq,
  ℕ_discrete, any, arith, Option-cases, length,
}
use tarvaultsync.Prelude.Text.{text, text_eq}
use tarvaultsync.Prelude.Result.{ok, Result-cases}
use tarvaultsync.Core.{Bytes, FilePath}
use tarvaultsync.Vault.{
  VaultParts, CipherStore, Envelope, Manifest, manifest_eq, magic, max_vault_bytes, is_bad_entry,
  manifest_aad, parse_envelope, open_manifest, read_limited, create_new_synced, move_over,
  replace_file, atomic_replace, hex_version,
}
use tarvaultsync.Vault.Local.{LocalVault, write_out, persist, read_ciphertext, reload_inner}

-- The codecs and the cipher are inverted, a ciphertext carries its tag, and a file that was made and
-- then renamed is read back.
pub record IsFaithful {W : Type 0} (p : VaultParts W) : Type 0 where
  pub envelope_decodes :
      (e : Envelope) (s : Bytes) → p.encode_envelope e ≡ some s → p.decode_envelope s ≡ some e
  pub envelope_nonempty : (e : Envelope) → p.encode_envelope e ≢ some []
  pub manifest_decodes :
      (m : Manifest) (s : Bytes) → p.encode_manifest m ≡ some s → p.decode_manifest s ≡ some m
  pub decrypts :
      (key nonce aad x c : Bytes)
      → p.encrypt key nonce aad x ≡ some c
      → p.decrypt key nonce aad c ≡ some x
  pub tag_length : (key nonce aad x c : Bytes) → p.encrypt key nonce aad x ≡ some c → 16 ≤ length c
  pub renamed :
      (tmp path : FilePath) (x : Bytes) (w w1 w2 : W)
      → p.create_new tmp x w ≡ (ok tt, w1)
      → p.os.rename tmp path w1 ≡ (ok tt, w2)
      → (p.os.read path w2 ≡ ok x) × (p.os.metadata_len path w2 ≡ some (length x))

-- A remote store reads what it was last made to hold.
abbrev pub Keeps : {W : Type 0} → CipherStore W → Type 0
Keeps {W} remote =
    (bytes : Bytes) (w w' : W)
    → remote.replace bytes w ≡ (ok tt, w')
    → (remote.read w').0 ≡ ok bytes

abbrev pub KeepsIfRemote : {W : Type 0} → Option (CipherStore W) → Type 0
KeepsIfRemote none = Unit
KeepsIfRemote (some remote) = Keeps remote

-- The test of `open_manifest`: each entry has a safe id and version and a payload with a tag.
abbrev pub IsConsistent : {W : Type 0} → LocalVault W → Type 0
IsConsistent v =
    (v.manifest.version ≡ 2)
    × (length v.manifest.entries ≡ length v.sealed)
    × (any (is_bad_entry v.sealed) v.manifest.entries ≡ false)

module _ {W : Type 0} (p : VaultParts W) (faithful : IsFaithful p) where
  move_over_ok :
      (tmp path : FilePath) (w w' : W)
      → move_over p tmp path w ≡ (ok tt, w')
      → p.os.rename tmp path w ≡ (ok tt, w')
  unfolding move_over replace_file
  move_over_ok tmp path w w' q = ground arith

  atomic_replace_ok :
      (path : FilePath) (x : Bytes) (w w' : W)
      → atomic_replace p path x w ≡ (ok tt, w')
      → (p.os.read path w' ≡ ok x) × (p.os.metadata_len path w' ≡ some (length x))
  unfolding atomic_replace create_new_synced
  atomic_replace_ok path x w w' q =
      let w0 = (p.fill_bytes 8 w).1 in
      let tmp =
        p.os.with_extension path
          (text "vault-" ++ (hex_version (p.fill_bytes 8 w).0 ++ text ".tmp")) in
      elim (Result-cases (p.create_new tmp x w0).0) [
        | inr (e, r) ↦ absurd (ground arith)
        | inl (u, r) ↦
            let w1 = (p.create_new tmp x w0).1 in
            faithful.renamed tmp path x w0 w1 w' (ground arith)
              (move_over_ok tmp path w1 w' (ground arith))
      ]

  read_limited_ok :
      (path : FilePath) (x : Bytes) (w : W)
      → length x ≤ max_vault_bytes
      → p.os.read path w ≡ ok x
      → p.os.metadata_len path w ≡ some (length x)
      → read_limited p path w ≡ (ok x, w)
  unfolding read_limited
  read_limited_ok path x w bound r m = ground arith

  parse_envelope-append :
      (e : Envelope) (s : Bytes)
      → p.encode_envelope e ≡ some s
      → e.version ≡ 2
      → 16 ≤ length e.manifest_ciphertext
      → parse_envelope p (magic ++ s) ≡ ok e
  unfolding parse_envelope nat_eq ℕ_discrete
  parse_envelope-append e [] q v t = absurd (faithful.envelope_nonempty e q)
  parse_envelope-append e (c ∷ s) q v t = ground (arith, faithful.envelope_decodes e (c ∷ s) q)

  open_manifest-encrypt :
      (e : Envelope) (m : Manifest) (key plaintext : Bytes)
      → p.encode_manifest m ≡ some plaintext
      → p.encrypt key e.manifest_nonce (manifest_aad e.salt) plaintext ≡ some e.manifest_ciphertext
      → m.version ≡ 2
      → length m.entries ≡ length e.sealed
      → any (is_bad_entry e.sealed) m.entries ≡ false
      → open_manifest p e key ≡ ok m
  unfolding open_manifest
  open_manifest-encrypt e m key plaintext q c v l b = ground (
    arith,
    faithful.manifest_decodes m plaintext q,
    faithful.decrypts key e.manifest_nonce (manifest_aad e.salt) plaintext e.manifest_ciphertext c,
  )

  write_out-read :
      (v : LocalVault W) (x : Bytes) (w w' : W)
      → KeepsIfRemote v.remote
      → length x ≤ max_vault_bytes
      → write_out p v false x w ≡ (ok tt, w')
      → (read_ciphertext p v w').0 ≡ ok x
  unfolding write_out read_ciphertext
  write_out-read v x w w' keeps bound q = elim (Option-cases v.remote) [
    | inl n ↦
        let (r, m) = atomic_replace_ok v.path x w w' (ground arith) in
        ground (arith, read_limited_ok v.path x w' bound r m)
    | inr (remote, n) ↦
        let kept : Keeps remote = subst KeepsIfRemote n keeps in
        ground (arith, kept x w w' (ground arith))
  ]

  -- The envelope that `persist` writes, the bytes drawn for it being the nonce
  abbrev envelope_of : LocalVault W → Bytes → Bytes → Envelope
  envelope_of v nonce ciphertext = record {
    version = 2;
    salt = v.salt;
    manifest_nonce = nonce;
    manifest_ciphertext = ciphertext;
    sealed = v.sealed;
  }

  persist_ok :
      (v : LocalVault W) (w w' : W)
      → persist p v false w ≡ (ok tt, w')
      → let (nonce, w1) = p.fill_bytes 24 w in
        (plaintext : Bytes) × (ciphertext : Bytes) × (encoded : Bytes) × (p.encode_manifest
            v.manifest
          ≡ some plaintext)
        × (p.encrypt v.key nonce (manifest_aad v.salt) plaintext ≡ some ciphertext)
        × (p.encode_envelope (envelope_of v nonce ciphertext) ≡ some encoded)
        × (length (magic ++ encoded) ≤ max_vault_bytes)
        × (write_out p v false (magic ++ encoded) w1 ≡ (ok tt, w'))
  unfolding persist
  persist_ok v w w' q =
      let nonce = (p.fill_bytes 24 w).0 in
      elim (Option-cases (p.encode_manifest v.manifest)) [
        | inl n ↦ absurd (ground arith)
        | inr (plaintext, n) ↦
            elim (Option-cases (p.encrypt v.key nonce (manifest_aad v.salt) plaintext)) [
              | inl c ↦ absurd (ground arith)
              | inr (ciphertext, c) ↦
                  elim (Option-cases (p.encode_envelope (envelope_of v nonce ciphertext))) [
                    | inl e ↦ absurd (ground arith)
                    | inr (encoded, e) ↦
                        (plaintext, ciphertext, encoded, n, c, e, ground arith, ground arith)
                  ]
            ]
      ]

  reload_same :
      (v : LocalVault W) (w : W) (reject : Bool) (x : Bytes) (e : Envelope)
      → (read_ciphertext p v w).0 ≡ ok x
      → parse_envelope p x ≡ ok e
      → e.salt ≡ v.salt
      → e.sealed ≡ v.sealed
      → open_manifest p e v.key ≡ ok v.manifest
      → let (r, s) = reload_inner p reject (record { vault = v; world = w }) in
        (r ≡ ok tt) × (s.vault ≡ v)
  unfolding reload_inner
  reload_same v w reject x e r d t l o = ground arith

  -- Once `persist` has succeeded, a reload of the vault succeeds, whether it minds remote changes or
  -- not, and gives the very vault that was persisted.
  pub persist-reload :
      (v : LocalVault W) (w w' : W) (reject : Bool)
      → KeepsIfRemote v.remote
      → IsConsistent v
      → persist p v false w ≡ (ok tt, w')
      → let (r, s) = reload_inner p reject (record { vault = v; world = w' }) in
        (r ≡ ok tt) × (s.vault ≡ v)
  persist-reload v w w' reject keeps (two, lengths, good) q =
      let (plaintext, ciphertext, encoded, m, c, e, bound, out) = persist_ok v w w' q in
      let nonce = (p.fill_bytes 24 w).0 in
      let envelope = envelope_of v nonce ciphertext in
      reload_same v w' reject (magic ++ encoded) envelope
        (write_out-read v (magic ++ encoded) (p.fill_bytes 24 w).1 w' keeps bound out)
        (parse_envelope-append envelope encoded e refl
          (faithful.tag_length v.key nonce (manifest_aad v.salt) plaintext ciphertext c))
        refl refl (open_manifest-encrypt envelope v.manifest v.key plaintext m c two lengths good)
