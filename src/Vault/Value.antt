-- ===== src/Vault/Value.antt =====
-- Which payload `get_value` of src/vault.rs gives.
use tarvaultsync.Prelude.{◌≡◌, inl, inr, some, false, arith, Option-cases}
use tarvaultsync.Prelude.Text.{Text, text_eq}
use tarvaultsync.Prelude.Map.{lookup}
use tarvaultsync.Prelude.Result.{ok, Result-cases}
use tarvaultsync.Core.{SecretPayload, SourceVersion}
use tarvaultsync.Vault.{VaultParts, SealedPayload, open_payload}
use tarvaultsync.Vault.Local.{Session, reload_inner, reload, get_value}
use tarvaultsync.Vault.Idle.{touched, touch_cases}

module _ {W : Type 0} (p : VaultParts W) where
  -- `get_value` gives a payload only if the vault, as just read back, has the entry at the version
  -- that was asked for; the payload is what the ciphertext of that entry and version decrypts to.
  pub get_value-Pinned :
      (id : Text) (version : SourceVersion) (s s' : Session W) (payload : SecretPayload)
      → get_value p id version s ≡ (ok payload, s')
      → (sealed : SealedPayload) × (lookup id s'.vault.manifest.entries
          ≡ some (record { kind = payload.kind; version = version }))
        × (lookup version s'.vault.sealed ≡ some sealed)
        × (open_payload p s'.vault.key id version sealed ≡ ok payload.bytes)
        × ((s1 : Session W) × (reload_inner p false s1 ≡ (ok tt, s')))
  unfolding get_value reload
  get_value-Pinned id version s s' payload q = elim (touch_cases p s) [
    | inl t ↦ absurd (ground arith)
    | inr t ↦ elim (Result-cases (reload_inner p false (touched p s)).0) [
      | inr (e, m) ↦ absurd (ground arith)
      | inl (u, m) ↦
          let v = (reload_inner p false (touched p s)).1.vault in
          elim (Option-cases (lookup id v.manifest.entries)) [
            | inl n ↦ absurd (ground arith)
            | inr (entry, n) ↦ elim (Option-cases (lookup entry.version v.sealed)) [
              | inl k ↦ absurd (ground arith)
              | inr (sealed, k) ↦
                  elim (Result-cases (open_payload p v.key id entry.version sealed)) [
                    | inr (e, o) ↦ absurd (ground arith)
                    | inl (bytes, o) ↦ (
                      sealed,
                      ground arith,
                      ground arith,
                      ground arith,
                      (touched p s, ground arith),
                    )
                  ]
            ]
          ]
    ]
  ]
