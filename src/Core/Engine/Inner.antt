-- ===== src/Core/Engine/Inner.antt =====
-- The ways through `sync_inner` of src/core.rs, and what each has called and changed.
use tarvaultsync.Prelude.{◌≡◌, refl, ◌≢◌, ◌⊎◌, inl, inr, some, Bool, true, false, arith, Bool-cases}
use tarvaultsync.Prelude.Text.{text_eq}
use tarvaultsync.Prelude.Map.{lookup}
use tarvaultsync.Prelude.Result.{ok, err, Result-cases}
use tarvaultsync.Core.{
  Binding, DeviceState, SourceVersion, SecretPayload, ErrorCategory, SyncOutcome,
}
use tarvaultsync.Core.{applied, disabled, failed, secret_type_eq, outcome_eq}
use tarvaultsync.Core.Labels.{safe_version}
use tarvaultsync.Core.Engine.{
  Parts, Engine, outcome_of, check_source, fetch_and_apply, sync_inner, already_applied, is_current,
  missing_policy,
}
use tarvaultsync.Core.Engine.Frame.{AppliesPayload, fetch_and_apply_lem}

module _ {W : Type 0} (p : Parts W) where
  -- The world after the call of `validate`, and after that of `get_version`.
  abbrev pub after_validate : Binding → W → W
  after_validate b w = (p.target.validate b.target b.secret_type w).1

  abbrev pub after_version : Binding → W → W
  after_version b w = (p.source.get_version b.source (after_validate b w)).1

  -- The checks before the payload is read have passed, with this version.
  abbrev pub Checked : Binding → SourceVersion → W → Type 0
  Checked b v w =
      ((p.target.validate b.target b.secret_type w).0 ≡ ok tt)
      × ((p.source.get_version b.source (after_validate b w)).0 ≡ ok v)
      × (safe_version v ≡ true)

  pub check_source-Checked :
      (b : Binding) (e : Engine W) (missing : Bool) (v : SourceVersion)
      → (check_source p b e).0 ≡ ok (missing, v)
      → Checked b v e.world
        × (check_source p b e ≡ (ok (missing, v), record e { world = after_version b e.world }))
        × (missing ≡ p.target.is_missing b.target (after_validate b e.world))
  unfolding check_source missing_policy
  check_source-Checked b e missing v h = ground arith

  pub check_source_err :
      (b : Binding) (e : Engine W) (o : SyncOutcome)
      → (check_source p b e).0 ≡ err o
      → ((check_source p b e).1.state ≡ e.state)
        × ((o ≡ disabled) ⊎ ((c : ErrorCategory) × (o ≡ failed c)))
  unfolding check_source missing_policy
  check_source_err b e o h = ground arith

  -- The state stays, and nothing is reported as applied.
  abbrev pub Stays : Engine W → SyncOutcome → Engine W → Type 0
  Stays e o e' = (e'.state ≡ e.state) × (o ≢ applied)

  -- The version and the payload of one run that advanced.
  abbrev pub Advances : Binding → Engine W → SyncOutcome → Engine W → Type 0
  Advances b e o e' =
      (v : SourceVersion) × (payload : SecretPayload) × Checked b v e.world
      × AppliesPayload p b v (record e { world = after_version b e.world }) o e' payload

  already_applied-ne-applied : (b : Binding) (s : DeviceState) → already_applied b s ≢ applied
  unfolding already_applied
  already_applied-ne-applied b s h = ground arith

  module _ (b : Binding) (e e1 : Engine W) (missing : Bool) (v : SourceVersion)
      (q : check_source p b e ≡ (ok (missing, v), e1)) where
    pub sync_inner-same_version :
        is_current b missing v e1.state ≡ true → sync_inner p b e ≡ (already_applied b e1.state, e1)
    unfolding sync_inner
    sync_inner-same_version h = ground arith

    pub sync_inner-new_version :
        is_current b missing v e1.state ≡ false
        → sync_inner p b e ≡ outcome_of (fetch_and_apply p b v e1)
    unfolding sync_inner
    sync_inner-new_version h = ground arith

  pub sync_inner-stops :
      (b : Binding) (e : Engine W) (o : SyncOutcome)
      → (check_source p b e).0 ≡ err o
      → sync_inner p b e ≡ (o, (check_source p b e).1)
  unfolding sync_inner
  sync_inner-stops b e o q = ground arith

  after_check :
      (b : Binding) (e : Engine W) (missing : Bool) (v : SourceVersion)
      → Checked b v e.world
      → check_source p b e ≡ (ok (missing, v), record e { world = after_version b e.world })
      → let (o, e') = sync_inner p b e in Stays e o e' ⊎ Advances b e o e'
  after_check b e missing v c q = elim (Bool-cases (is_current b missing v e.state)) [
    | inl h ↦
        rw (sync_inner-same_version b e _ missing v q h)
          (inl (refl, already_applied-ne-applied b e.state))
    | inr h ↦
        rw (sync_inner-new_version b e _ missing v q h)
          (elim (fetch_and_apply_lem p b v (record e { world = after_version b e.world })) [
            | inl f ↦ inl (ground arith)
            | inr (payload, a) ↦ inr (v, payload, c, a)
          ])
  ]

  -- A run of `sync_inner` either leaves the state in memory alone and does not report `applied`,
  -- or it read a safe version and then, at that version, a payload of the type of the binding,
  -- wrote it to the target with success, and advanced the applied version of this binding only.
  pub sync_inner-Advances :
      (b : Binding) (e : Engine W)
      → let (o, e') = sync_inner p b e in Stays e o e' ⊎ Advances b e o e'
  unfolding sync_inner
  sync_inner-Advances b e = elim (Result-cases (check_source p b e).0) [
    | inr (o, q) ↦ inl (ground (arith, check_source_err b e o q))
    | inl ((missing, v), q) ↦
        let (c, r, _) = check_source-Checked b e missing v q in after_check b e missing v c r
  ]

  -- If the target is there and the source still has the version applied last, then neither the
  -- payload is read nor the target written: the world is the one after `get_version`.
  pub sync_inner_current :
      (b : Binding) (e : Engine W) (v : SourceVersion)
      → Checked b v e.world
      → p.target.is_missing b.target (after_validate b e.world) ≡ false
      → lookup b.id e.state.applied ≡ some v
      → sync_inner p b e ≡ (already_applied b e.state, record e { world = after_version b e.world })
  unfolding sync_inner check_source is_current missing_policy
  sync_inner_current b e v c present last = ground arith
