-- ===== src/Core/Engine/Frame.antt =====
-- What the steps of `sync` change, and what they leave alone.
use tarvaultsync.Prelude.{◌≡◌, ◌⊎◌, inl, inr, if◌then◌else◌, arith}
use tarvaultsync.Prelude.Text.{text_eq}
use tarvaultsync.Prelude.Map.{insert}
use tarvaultsync.Prelude.Result.{ok, err}
use tarvaultsync.Core.{
  Binding, DeviceState, SourceVersion, SecretPayload, ErrorCategory, SyncOutcome,
}
use tarvaultsync.Core.{
  state_error, applied, restart_required, failed, is_docker_input, secret_type_eq, outcome_eq,
}
use tarvaultsync.Core.Engine.{
  Parts, Engine, outcome_of, commit, check_source, fetch_and_apply, missing_policy,
}
use tarvaultsync.Core.Store.{atomic_json}
use tarvaultsync.Prelude.Result.{Result-cases}

module _ {W : Type 0} (p : Parts W) where
  -- Either the new state is in place, or the old one is.
  pub commit_state :
      (next : DeviceState) (e : Engine W)
      → let (r, e') = commit p next e in
        ((r ≡ ok tt) × (e'.state ≡ next)) ⊎ ((r ≡ err state_error) × (e'.state ≡ e.state))
  unfolding commit atomic_json
  commit_state next e = ground arith

  pub check_source_state : (b : Binding) (e : Engine W) → (check_source p b e).1.state ≡ e.state
  unfolding check_source missing_policy
  check_source_state b e = ground arith

  -- The payload that was applied is the one read, of the type of the binding, and the version goes
  -- into the state.
  abbrev pub AppliesPayload :
      Binding → SourceVersion → Engine W → SyncOutcome → Engine W → SecretPayload → Type 0
  AppliesPayload b version e o e' payload =
      let (r, w) = p.source.get_value b.source version e.world in
      (r ≡ ok payload)
      × (payload.kind ≡ b.secret_type)
      × ((p.target.apply_with_policy b.target payload b.missing_target w).0 ≡ ok tt)
      × (e'.state ≡ record e.state { applied = insert b.id version e.state.applied })
      × (o ≡ (if is_docker_input b.target then restart_required else applied))

  abbrev pub FailsWith : Engine W → SyncOutcome → Engine W → Type 0
  FailsWith e o e' = (e'.state ≡ e.state) × (c : ErrorCategory) × (o ≡ failed c)

  fetch_and_apply_read :
      (b : Binding) (v : SourceVersion) (e : Engine W) (payload : SecretPayload)
      → (p.source.get_value b.source v e.world).0 ≡ ok payload
      → let (o, e') = outcome_of (fetch_and_apply p b v e) in
        FailsWith e o e' ⊎ AppliesPayload b v e o e' payload
  unfolding fetch_and_apply
  fetch_and_apply_read b v e payload q = ground (
    arith,
    commit_state (record e.state { applied = insert b.id v e.state.applied })
        (record {
          state = e.state;
          world =
              (p.target.apply_with_policy b.target payload b.missing_target
                (p.source.get_value b.source v e.world).1).1;
        }),
  )

  pub fetch_and_apply_lem :
      (b : Binding) (v : SourceVersion) (e : Engine W)
      → let (o, e') = outcome_of (fetch_and_apply p b v e) in
        FailsWith e o e' ⊎ ((payload : SecretPayload) × AppliesPayload b v e o e' payload)
  unfolding fetch_and_apply
  fetch_and_apply_lem b v e = elim (Result-cases (p.source.get_value b.source v e.world).0) [
    | inr (c, q) ↦ inl (ground arith, c, ground arith)
    | inl (payload, q) ↦ elim (fetch_and_apply_read b v e payload q) [
      | inl f ↦ inl f
      | inr a ↦ inr (payload, a)
    ]
  ]
