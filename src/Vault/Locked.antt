-- ===== src/Vault/Locked.antt =====
-- A vault that has been idle for too long, as the engine meets it through `VaultSource`.
use tarvaultsync.Prelude.{◌-◌, ◌≤◌, ◌≡◌, ap, none, some, true, leb, if◌then◌else◌, arith}
use tarvaultsync.Prelude.Text.{Text, text_eq}
use tarvaultsync.Prelude.Result.{ok, err}
use tarvaultsync.Core.{SourceVersion, SourceRef, local_vault, store_eq, unauthorized}
use tarvaultsync.Core.Labels.{safe_label}
use tarvaultsync.Vault.{VaultParts, idle_timeout, locked}
use tarvaultsync.Vault.Local.{
  LocalVault, Session, cleared, check_active, touch, get_version, get_value,
}
use tarvaultsync.Vault.Source.{Host, set_vault, with_vault, source_version, source_value}

module _ {W : Type 0} where
  -- A reference to an entry of this source
  abbrev pub IsServed : SourceRef → Host W → Type 0
  IsServed r h =
      (r.store ≡ local_vault) × (r.connection ≡ h.source.connection) × (safe_label r.entry ≡ true)

module _ {W : Type 0} (p : VaultParts W) where
  -- The vault `v` was used last at least the idle timeout ago.
  abbrev pub IsIdle : LocalVault W → W → Type 0
  IsIdle v w = idle_timeout ≤ p.instant w - v.last_used

  abbrev locked_out : LocalVault W → W → Session W
  locked_out v w = record { vault = cleared v; world = w }

  check_active-IsIdle :
      (v : LocalVault W) (w : W)
      → IsIdle v w
      → check_active p (record { vault = v; world = w }) ≡ (err locked, locked_out v w)
  unfolding check_active
  check_active-IsIdle v w idle =
      let late : leb idle_timeout (p.instant w - v.last_used) ≡ true = ground arith in
      ap (λ b. if b then (err locked, locked_out v w) else (ok tt, record { vault = v; world = w }))
        late

  touch-IsIdle :
      (v : LocalVault W) (w : W)
      → IsIdle v w
      → touch p (record { vault = v; world = w }) ≡ (err locked, locked_out v w)
  unfolding touch
  touch-IsIdle v w idle = ground (arith, check_active-IsIdle v w idle)

  reads-IsIdle :
      (v : LocalVault W) (w : W) (id : Text) (version : SourceVersion)
      → IsIdle v w
      → (get_version p id (record { vault = v; world = w }) ≡ (err locked, locked_out v w))
        × (get_value p id version (record { vault = v; world = w }) ≡ (err locked, locked_out v w))
  unfolding get_version get_value
  reads-IsIdle v w id version idle =
      (ground (arith, touch-IsIdle v w idle), ground (arith, touch-IsIdle v w idle))

  -- Through an idle vault the engine gets neither a version nor a payload: either request is answered
  -- as unauthorised, and closes the vault.
  pub source-IsIdle :
      (r : SourceRef) (version : SourceVersion) (h : Host W) (v : LocalVault W)
      → IsServed r h
      → h.source.vault ≡ some v
      → IsIdle v h.world
      → (source_version p r h ≡ (err unauthorized, set_vault none h))
        × (source_value p r version h ≡ (err unauthorized, set_vault none h))
  unfolding source_version source_value with_vault
  source-IsIdle r version h v (s, c, e) held idle =
      let (a, b) = reads-IsIdle v h.world r.entry version idle in (ground arith, ground arith)
