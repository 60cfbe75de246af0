-- ===== src/Core/Engine/Durable.antt =====
-- The state file of src/core.rs through a run of `sync`.
use tarvaultsync.Prelude.{
  ◌≡◌, refl, sym, ap, subst, ◌∙◌, ◌⊎◌, inl, inr, some, true, List, [], ◌∷◌, ◌++◌, ◌==◌, arith,
  Bool-cases, Option-cases,
}
use tarvaultsync.Prelude.Text.{Text, text_eq}
use tarvaultsync.Prelude.Map.{insert, has_key}
use tarvaultsync.Prelude.Result.{ok, err, Result-cases}
use tarvaultsync.Core.{Binding, SourceVersion, SecretPayload, ErrorCategory, SyncOutcome}
use tarvaultsync.Core.{secret_type_eq, outcome_eq}
use tarvaultsync.Core.Labels.{safe_version}
use tarvaultsync.Core.Engine.{
  Parts, Engine, outcome_of, commit, check_source, fetch_and_apply, sync_inner, is_current,
  missing_policy, with_outcome, record_outcome, sync_binding, sync, find_binding, append_event,
  find_in,
}
use tarvaultsync.Prelude.{All}
use tarvaultsync.Core.{Bytes, Event, sync_operation}
use tarvaultsync.Core.Labels.{safe_label}
use tarvaultsync.Core.Store.Laws.{load_state-safe}
use tarvaultsync.Core.Engine.Safe.{safe-applied, safe-outcome}
use tarvaultsync.Core.Engine.Frame.{check_source_state}
use tarvaultsync.Core.Engine.{rotate, remove_old_log}
use tarvaultsync.Core.Engine.Inner.{
  after_validate, after_version, check_source-Checked, sync_inner-same_version,
  sync_inner-new_version, sync_inner-stops,
}
use tarvaultsync.Core.Engine.Saved.{
  SameFile, Spares, IsReliable, IsSaved, commit-IsSaved, load_state-SameFile,
}

-- What holds of every binding holds of the one that is found.
pub find_in-All :
    (Q : Binding → Type 0) (id : Text) (bs : List Binding) (b : Binding)
    → All Q bs
    → find_in id bs ≡ some b
    → Q b
unfolding find_in
find_in-All Q id [] b a f = absurd (ground arith)
find_in-All Q id (c ∷ bs) b (q, a) f = elim (Bool-cases (c.id == id)) [
  | inl e ↦ subst Q (ground arith) q
  | inr e ↦ find_in-All Q id bs b a (ground arith)
]

module _ {W : Type 0} (p : Parts W) (laws : IsReliable p) where
  SameFile-trans : {w1 w2 w3 : W} → SameFile p w1 w2 → SameFile p w2 w3 → SameFile p w1 w3
  SameFile-trans f g = record {
    same_exists = g.same_exists ∙ f.same_exists;
    same_read = g.same_read ∙ f.same_read;
  }

  remove_old_log-SameFile : (w : W) → SameFile p w (remove_old_log p w).1
  unfolding remove_old_log
  remove_old_log-SameFile w = ground (arith, laws.remove_log-same w)

  rotate-SameFile : (x : Bytes) (w : W) → SameFile p w (rotate p x w).1
  unfolding rotate
  rotate-SameFile x w =
      ground (arith, remove_old_log-SameFile w, laws.rename_log-same (remove_old_log p w).1)

  pub append_event-SameFile : (x : Event) (w : W) → SameFile p w (append_event p x w).1
  unfolding append_event
  append_event-SameFile x w = elim (Option-cases (p.encode_event x)) [
    | inl q ↦ ground arith
    | inr (bytes, q) ↦ ground (
      arith,
      rotate-SameFile bytes w,
      laws.append-same (bytes ++ (b'\n' ∷ [])) (rotate p bytes w).1,
    )
  ]

  pub IsSaved-SameFile :
      (e e' : Engine W)
      → e'.state ≡ e.state
      → SameFile p e.world e'.world
      → IsSaved p e
      → IsSaved p e'
  IsSaved-SameFile e e' s f h = load_state-SameFile p _ _ f ∙ h ∙ ap ok (sym s)

  check_source-SameFile :
      (b : Binding) (e : Engine W) → SameFile p e.world (check_source p b e).1.world
  unfolding check_source missing_policy
  check_source-SameFile b e =
      ground
        (arith, laws.validate-same b e.world, laws.get_version-same b (after_validate p b e.world))

  module _ (b : Binding) (v : SourceVersion) (e : Engine W) where
    after_value : W
    after_value = (p.source.get_value b.source v e.world).1

    after_apply : SecretPayload → W
    after_apply payload =
        (p.target.apply_with_policy b.target payload b.missing_target after_value).1

    fetch_and_apply_unread :
        (c : ErrorCategory)
        → (p.source.get_value b.source v e.world).0 ≡ err c
        → (outcome_of (fetch_and_apply p b v e)).1 ≡ record e { world = after_value }
    unfolding fetch_and_apply after_value
    fetch_and_apply_unread c q = ground arith

    fetch_and_apply_end :
        (payload : SecretPayload)
        → (p.source.get_value b.source v e.world).0 ≡ ok payload
        → let e' = (outcome_of (fetch_and_apply p b v e)).1 in
          (e' ≡ record e { world = after_value })
          ⊎ (e' ≡ record e { world = after_apply payload })
          ⊎ (e'
              ≡ (commit p
                  (record e.state { applied = insert b.id v e.state.applied })
                  (record e { world = after_apply payload })).1)
    unfolding fetch_and_apply after_value after_apply
    fetch_and_apply_end payload q = ground arith

  module _ (b : Binding) (safe_id : safe_label b.id ≡ true) (spares : Spares p b) where
    fetch_and_apply-IsSaved :
        (v : SourceVersion) (e : Engine W)
        → safe_version v ≡ true
        → IsSaved p e
        → IsSaved p (outcome_of (fetch_and_apply p b v e)).1
    unfolding after_value after_apply
    fetch_and_apply-IsSaved v e k h =
        elim (Result-cases (p.source.get_value b.source v e.world).0) [
          | inr (c, q) ↦ rw (fetch_and_apply_unread b v e c q) read
          | inl (payload, q) ↦ elim (fetch_and_apply_end b v e payload q) [
            | inl f ↦ rw f read
            | inr (inl f) ↦ rw f (written payload)
            | inr (inr f) ↦ rw f (
                commit-IsSaved p laws _ _
                  (safe-applied b.id v e.state safe_id k
                    (load_state-safe p.os p.decode_state p.state_path e.world e.state h))
                  (written payload))
          ]
        ]
      where
        read : IsSaved p (record e { world = after_value b v e })
        read = IsSaved-SameFile e _ refl (laws.get_value-same b v e.world) h

        written :
            (payload : SecretPayload) → IsSaved p (record e { world = after_apply b v e payload })
        written payload =
            IsSaved-SameFile (record e { world = after_value b v e }) _ refl (spares payload _) read

    sync_inner-IsSaved : (e : Engine W) → IsSaved p e → IsSaved p (sync_inner p b e).1
    sync_inner-IsSaved e h = elim (Result-cases (check_source p b e).0) [
      | inr (o, q) ↦ rw (sync_inner-stops p b e o q) checked
      | inl ((missing, v), q) ↦
          let (c, r, _) = check_source-Checked p b e missing v q in
          let here : IsSaved p (record e { world = after_version p b e.world }) =
            subst (IsSaved p) (ap (λ t. t.1) r) checked in
          elim (Bool-cases (is_current b missing v e.state)) [
            | inl k ↦ rw (sync_inner-same_version p b e _ missing v r k) here
            | inr k ↦
                rw (sync_inner-new_version p b e _ missing v r k)
                  (fetch_and_apply-IsSaved v _ c.2 here)
          ]
    ]
      where
        checked : IsSaved p (check_source p b e).1
        checked = IsSaved-SameFile e _ (check_source_state p b e) (check_source-SameFile b e) h

    record_outcome_end :
        (o : SyncOutcome) (e : Engine W)
        → let e' = (record_outcome p b o e).1 in
          let e1 = (commit p (with_outcome b.id (p.os.now e.world) o e.state) e).1 in
          (e' ≡ e1)
          ⊎ (e' ≡ record e1 {
            world =
                (append_event p
                  (record {
                    timestamp = p.os.now e.world;
                    binding_id = b.id;
                    operation = sync_operation;
                    source_kind = b.source.store;
                    outcome = o;
                  })
                  e1.world).1;
          })
    unfolding record_outcome
    record_outcome_end o e = ground arith

    record_outcome-IsSaved :
        (o : SyncOutcome) (e : Engine W) → IsSaved p e → IsSaved p (record_outcome p b o e).1
    record_outcome-IsSaved o e h = elim (record_outcome_end o e) [
      | inl f ↦ rw f stored
      | inr f ↦ rw f (IsSaved-SameFile _ _ refl (append_event-SameFile _ _) stored)
    ]
      where
        stored : IsSaved p (commit p (with_outcome b.id (p.os.now e.world) o e.state) e).1
        stored =
            commit-IsSaved p laws _ e
              (safe-outcome b.id (p.os.now e.world) o e.state safe_id
                (load_state-safe p.os p.decode_state p.state_path e.world e.state h))
              h

  sync_binding-IsSaved :
      (b : Binding) (e : Engine W)
      → safe_label b.id ≡ true
      → Spares p b
      → IsSaved p e
      → IsSaved p (sync_binding p b e).1
  unfolding sync_binding
  sync_binding-IsSaved b e safe_id spares h = elim (Bool-cases (has_key b.id e.state.disabled)) [
    | inl d ↦ rw d h
    | inr d ↦
        rw d (record_outcome-IsSaved b safe_id spares _ _ (sync_inner-IsSaved b safe_id spares e h))
  ]

  -- If the ids of the configuration are safe, as `validate_config` makes sure, if no target of the
  -- configuration writes the state file, which nothing makes sure, and if a restart would load the
  -- state in memory, then it would do so after any run of `sync`, on every path.
  pub sync-IsSaved :
      (id : Text) (e : Engine W)
      → All (λ b. safe_label b.id ≡ true) p.config.bindings
      → All (Spares p) p.config.bindings
      → IsSaved p e
      → IsSaved p (sync p id e).1
  unfolding sync sync_binding find_binding
  sync-IsSaved id e ids spares h = elim (Option-cases (find_in id p.config.bindings)) [
    | inl f ↦ rw (f, sync) h
    | inr (b, f) ↦
        rw (f, sync)
          (sync_binding-IsSaved b e
            (find_in-All (λ b. safe_label b.id ≡ true) id p.config.bindings b ids f)
            (find_in-All (Spares p) id p.config.bindings b spares f) h)
  ]
