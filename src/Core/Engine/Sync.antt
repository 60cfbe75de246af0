-- ===== src/Core/Engine/Sync.antt =====
-- `sync`: what a whole run leaves in the state, on every path.
use tarvaultsync.Prelude.{
  ℕ, ◌≡◌, ◌≢◌, ◌⊎◌, inl, inr, some, false, List, [], ◌∷◌, ◌==◌, arith, Bool-cases, Option-cases,
}
use tarvaultsync.Prelude.Text.{Text, text_eq}
use tarvaultsync.Prelude.Map.{lookup, insert, has_key, lookup-insert}
use tarvaultsync.Prelude.Result.{ok}
use tarvaultsync.Core.{Binding, DeviceState, SourceVersion, SecretPayload, SyncOutcome}
use tarvaultsync.Core.{state_error, disabled, failed, secret_type_eq, outcome_eq}
use tarvaultsync.Core.Engine.{
  Parts, Engine, sync_inner, with_outcome, record_outcome, sync_binding, sync, find_binding,
  find_in,
}
use tarvaultsync.Core.Engine.Frame.{commit_state}
use tarvaultsync.Core.Engine.Inner.{sync_inner-Advances, Checked, after_version}

-- Two states hold the same about an id.
pub record Agrees (j : Text) (s t : DeviceState) : Type 0 where
  pub same_applied : lookup j t.applied ≡ lookup j s.applied
  pub same_status : lookup j t.status ≡ lookup j s.status
  pub same_disabled : lookup j t.disabled ≡ lookup j s.disabled

module _ {W : Type 0} (p : Parts W) where
  -- The two ends of `record_outcome`: the outcome is in the state, or the state is the old one.
  pub record_outcome_state :
      (b : Binding) (o : SyncOutcome) (e : Engine W)
      → let (o', e') = record_outcome p b o e in
        ((e'.state ≡ with_outcome b.id (p.os.now e.world) o e.state)
          × ((o' ≡ o) ⊎ (o' ≡ failed state_error)))
        ⊎ ((e'.state ≡ e.state) × (o' ≡ failed state_error))
  unfolding record_outcome
  record_outcome_state b o e =
      ground (arith, commit_state p (with_outcome b.id (p.os.now e.world) o e.state) e)

  record_outcome-others :
      (b : Binding) (o : SyncOutcome) (e : Engine W) (j : Text)
      → j ≢ b.id
      → Agrees j e.state (record_outcome p b o e).1.state
  unfolding with_outcome
  record_outcome-others b o e j ne = ground (
    arith,
    record_outcome_state b o e,
    lookup-insert j b.id (record { timestamp = p.os.now e.world; outcome = o }) e.state.status,
    lookup-insert j b.id (tt {0}) e.state.disabled,
  )

  sync_inner-others :
      (b : Binding) (e : Engine W) (j : Text)
      → j ≢ b.id
      → Agrees j e.state (sync_inner p b e).1.state
  sync_inner-others b e j ne = elim (sync_inner-Advances p b e) [
    | inl stays ↦ ground arith
    | inr (v, payload, c, a) ↦ ground (arith, lookup-insert j b.id v e.state.applied)
  ]

  -- The checks passed at version `v`, and this payload was read at it and written to the target.
  abbrev pub Written : Binding → SourceVersion → SecretPayload → W → Type 0
  Written b v payload w =
      Checked p b v w
      × (let (r, w') = p.source.get_value b.source v (after_version p b w) in
          (r ≡ ok payload)
          × (payload.kind ≡ b.secret_type)
          × ((p.target.apply_with_policy b.target payload b.missing_target w').0 ≡ ok tt))

  -- The applied versions after `sync` are those before it, or a payload has been read and written
  -- to the target with success, and only the version of this binding is new: the one it was read at.
  pub sync_binding_advances :
      (b : Binding) (e : Engine W)
      → let (_, e') = sync_binding p b e in
        (e'.state.applied ≡ e.state.applied)
        ⊎ ((v : SourceVersion) × (payload : SecretPayload) × Written b v payload e.world
            × (e'.state.applied ≡ insert b.id v e.state.applied))
  unfolding sync_binding with_outcome
  sync_binding_advances b e = elim (sync_inner-Advances p b e) [
    | inl stays ↦
        inl (ground (arith, record_outcome_state b (sync_inner p b e).0 (sync_inner p b e).1))
    | inr (v, payload, c, a) ↦ elim (Bool-cases (has_key b.id e.state.disabled)) [
      | inl d ↦ inl (ground arith)
      | inr d ↦ inr (
        v,
        payload,
        (c, (a.0, a.1, a.2)),
        ground (arith, record_outcome_state b (sync_inner p b e).0 (sync_inner p b e).1),
      )
    ]
  ]

  sync_inner-disabled :
      (b : Binding) (e : Engine W) → (sync_inner p b e).1.state.disabled ≡ e.state.disabled
  sync_inner-disabled b e = elim (sync_inner-Advances p b e) [
    | inl stays ↦ ground arith
    | inr (v, payload, c, a) ↦ ground arith
  ]

  -- What a run reports is what it has stored under the id, unless it reports that storing failed;
  -- if it reports that the binding is disabled, it is among the disabled ones.
  pub sync_binding_records :
      (b : Binding) (e : Engine W)
      → has_key b.id e.state.disabled ≡ false
      → (sync_binding p b e).0 ≢ failed state_error
      → let (o, e') = sync_binding p b e in
        ((t : ℕ) × (lookup b.id e'.state.status ≡ some (record { timestamp = t; outcome = o })))
        × (has_key b.id e'.state.disabled ≡ (o == disabled))
  unfolding sync_binding with_outcome
  sync_binding_records b e d h = (
    (
      p.os.now (sync_inner p b e).1.world,
      ground (
        arith,
        record_outcome_state b (sync_inner p b e).0 (sync_inner p b e).1,
        lookup-insert b.id b.id
            (record {
              timestamp = p.os.now (sync_inner p b e).1.world;
              outcome = (sync_inner p b e).0;
            })
            (sync_inner p b e).1.state.status,
      ),
    ),
    ground (
      arith,
      record_outcome_state b (sync_inner p b e).0 (sync_inner p b e).1,
      lookup-insert b.id b.id (tt {0}) (sync_inner p b e).1.state.disabled,
      sync_inner-disabled b e,
    ),
  )

  find_in-id : (id : Text) (bs : List Binding) (b : Binding) → find_in id bs ≡ some b → b.id ≡ id
  unfolding find_in
  find_in-id id [] b h = cc
  find_in-id id (c ∷ bs) b h = ground (arith, find_in-id id bs b)

  -- A run for one id changes nothing that is held about another.
  pub sync-others :
      (id : Text) (e : Engine W) (j : Text) → j ≢ id → Agrees j e.state (sync p id e).1.state
  unfolding sync sync_binding find_binding
  sync-others id e j ne = elim (Option-cases (find_binding p id)) [
    | inl f ↦ ground arith
    | inr (b, f) ↦ ground (
      arith,
      find_in-id id p.config.bindings b,
      sync_inner-others b e j,
      record_outcome-others b (sync_inner p b e).0 (sync_inner p b e).1 j,
    )
  ]
