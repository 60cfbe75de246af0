-- ===== src/Vault/Idle.antt =====
-- The idle timeout of src/vault.rs.
use tarvaultsync.Prelude.{◌-◌, ◌≡◌, ap, ◌⊎◌, inl, inr, leb, if◌then◌else◌, arith, Bool-cases}
use tarvaultsync.Prelude.Text.{text_eq}
use tarvaultsync.Prelude.Result.{ok, err}
use tarvaultsync.Vault.{VaultParts, idle_timeout, locked}
use tarvaultsync.Vault.Local.{Session, touch, check_active, cleared}

module _ {W : Type 0} (p : VaultParts W) where
  -- The session with the time of the last use set
  abbrev pub touched : Session W → Session W
  touched s = record s { vault = record s.vault { last_used = p.instant s.world } }

  check_active_cases :
      (s : Session W)
      → (check_active p s ≡ (err locked, record s { vault = cleared s.vault }))
        ⊎ (check_active p s ≡ (ok tt, s))
  unfolding check_active
  check_active_cases s =
      elim (Bool-cases (leb idle_timeout (p.instant s.world - s.vault.last_used))) [
        | inl b ↦ inl (
            ap (λ c. if c then (err locked, record s { vault = cleared s.vault }) else (ok tt, s))
              b)
        | inr b ↦ inr (
            ap (λ c. if c then (err locked, record s { vault = cleared s.vault }) else (ok tt, s))
              b)
      ]

  -- Either the vault has been idle for too long: then it is locked and nothing of it is left. Or only the
  -- time of its last use changes.
  pub touch_cases :
      (s : Session W)
      → (touch p s ≡ (err locked, record s { vault = cleared s.vault }))
        ⊎ (touch p s ≡ (ok tt, touched s))
  unfolding touch
  touch_cases s = elim (check_active_cases s) [
    | inl q ↦ inl (ground arith)
    | inr q ↦ inr (ground arith)
  ]
