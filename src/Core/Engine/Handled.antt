-- ===== src/Core/Engine/Handled.antt =====
-- The state file through any sequence of calls of the engine: `sync`, `enable_binding`,
-- `acknowledge_restart` and `invalidate_bindings` of src/core.rs, from `Engine::new` on.
use tarvaultsync.Prelude.{
  ◌≡◌, refl, ◌∙◌, sym, ap, subst, ◌⊎◌, inl, inr, some, true, false, List, [], ◌∷◌, ◌==◌, arith,
  Option-cases, Bool-cases, All,
}
use tarvaultsync.Prelude.Text.{Text, text_eq}
use tarvaultsync.Prelude.Map.{insert, remove, has_key}
use tarvaultsync.Prelude.Result.{ok, Result-cases}
use tarvaultsync.Core.{
  Binding, DeviceState, Event, unchanged, enable_operation, acknowledge_operation, is_docker_input,
}
use tarvaultsync.Core.{secret_type_eq, outcome_eq}
use tarvaultsync.Core.Labels.{safe_label}
use tarvaultsync.Core.Store.{is_unsafe_state, load_state}
use tarvaultsync.Core.Store.Laws.{load_state-safe}
use tarvaultsync.Core.Engine.{
  Parts, Engine, notice, commit, append_event, find_in, find_binding, sync, enable_binding,
  acknowledge_restart, invalidate_bindings, awaits_restart, forget, new_engine,
}
use tarvaultsync.Core.Engine.Safe.{safe-enabled, safe-status, safe-forget}
use tarvaultsync.Core.Engine.Saved.{SameFile, Spares, IsReliable, IsSaved, commit-IsSaved}
use tarvaultsync.Core.Engine.Durable.{
  append_event-SameFile, IsSaved-SameFile, find_in-All, sync-IsSaved,
}

same_id : (a b : Text) → (a == b) ≡ true → a ≡ b
unfolding text_eq
same_id a b h = ground arith

-- The id of the binding that is found is the one looked for.
find_in-id : (id : Text) (bs : List Binding) (b : Binding) → find_in id bs ≡ some b → b.id ≡ id
unfolding find_in text_eq
find_in-id id [] b f = absurd (ground arith)
find_in-id id (c ∷ bs) b f = elim (Bool-cases (c.id == id)) [
  | inl e ↦ let same : c ≡ b = ground arith in sym (ap (λ d. d.id) same) ∙ same_id c.id id e
  | inr e ↦ find_in-id id bs b (ground arith)
]

-- A call of the engine that may change its state
pub data Call : Type 0 where
  syncing enabling acknowledging : Text → Call
  invalidating : List Text → Call

module _ {W : Type 0} (p : Parts W) where
  -- The engine after a call, whatever it returns
  unfoldable pub called : Call → Engine W → Engine W
  called (syncing id) e = (sync p id e).1
  called (enabling id) e = (enable_binding p id e).1
  called (acknowledging id) e = (acknowledge_restart p id e).1
  called (invalidating ids) e = (invalidate_bindings p ids e).1

  -- The engines that a sequence of calls leads to; between them the world may change in all but the
  -- state file.
  pub data Reaches : Engine W → Engine W → Type 0 where
    here : (e : Engine W) → Reaches e e
    next : (e e' : Engine W) (c : Call) → Reaches e e' → Reaches e (called c e')
    wait :
        (e e' : Engine W) (w : W)
        → SameFile p e'.world w
        → Reaches e e'
        → Reaches e (record e' { world = w })

  module _ (laws : IsReliable p) where
    is_safe : (e : Engine W) → IsSaved p e → is_unsafe_state e.state ≡ false
    is_safe e h = load_state-safe p.os p.decode_state p.state_path e.world e.state h

    -- What a handler does that commits a state: nothing, the commit, or the commit and an event
    abbrev Notes : DeviceState → Engine W → Engine W → Type 0
    Notes s e e' =
        (e' ≡ e)
        ⊎ (e' ≡ (commit p s e).1)
        ⊎ ((x : Event) × (e'
              ≡ record (commit p s e).1 { world = (append_event p x (commit p s e).1.world).1 }))

    Notes-IsSaved :
        (s : DeviceState) (e e' : Engine W)
        → is_unsafe_state s ≡ false
        → IsSaved p e
        → Notes s e e'
        → IsSaved p e'
    Notes-IsSaved s e e' k h (inl f) = subst (IsSaved p) (sym f) h
    Notes-IsSaved s e e' k h (inr (inl f)) =
        subst (IsSaved p) (sym f) (commit-IsSaved p laws s e k h)
    Notes-IsSaved s e e' k h (inr (inr (x, f))) = subst (IsSaved p) (sym f) (
        IsSaved-SameFile p laws (commit p s e).1 _ refl (append_event-SameFile p laws x _)
          (commit-IsSaved p laws s e k h))

    module _ (id : Text) (e : Engine W) where
      abbrev enabled_state : DeviceState
      enabled_state = record e.state { disabled = remove id e.state.disabled }

      abbrev acknowledged_state : DeviceState
      acknowledged_state = record e.state {
        status =
            insert id (record { timestamp = p.os.now e.world; outcome = unchanged }) e.state.status;
      }

      enable_binding-Notes : Notes enabled_state e (enable_binding p id e).1
      unfolding enable_binding
      enable_binding-Notes = elim (Option-cases (find_binding p id)) [
        | inl f ↦ inl (ground arith)
        | inr (b, f) ↦ elim (Bool-cases (has_key id e.state.disabled)) [
          | inr d ↦ inl (ground arith)
          | inl d ↦ elim (Result-cases (commit p enabled_state e).0) [
            | inr (c, r) ↦ inr (inl (ground arith))
            | inl (_, r) ↦ inr (
                inr (
                  notice b enable_operation (p.os.now (commit p enabled_state e).1.world),
                  ground arith,
                ))
          ]
        ]
      ]

      -- If a restart would load the state in memory, then it would do so after `enable_binding`, on
      -- every path.
      pub enable_binding-IsSaved : IsSaved p e → IsSaved p (enable_binding p id e).1
      enable_binding-IsSaved h =
          Notes-IsSaved enabled_state e _ (safe-enabled id e.state (is_safe e h)) h
            enable_binding-Notes

      acknowledge_restart-Notes :
          (e' : Engine W)
          → (acknowledge_restart p id e).1 ≡ e'
          → (e' ≡ e)
            ⊎ (((b : Binding) × (find_binding p id ≡ some b)) × Notes acknowledged_state e e')
      unfolding acknowledge_restart
      acknowledge_restart-Notes e' q = elim (Option-cases (find_binding p id)) [
        | inl f ↦ inl (ground arith)
        | inr (b, f) ↦ elim (Bool-cases (is_docker_input b.target)) [
          | inr d ↦ inl (ground arith)
          | inl d ↦ elim (Bool-cases (awaits_restart id e.state)) [
            | inr a ↦ inl (ground arith)
            | inl a ↦ elim (Result-cases (commit p acknowledged_state e).0) [
              | inr (c, r) ↦ inr ((b, f), inr (inl (ground arith)))
              | inl (_, r) ↦ inr (
                (b, f),
                inr (inr (notice b acknowledge_operation (p.os.now e.world), ground arith)),
              )
            ]
          ]
        ]
      ]

      -- With safe ids in the configuration, so it is after `acknowledge_restart`.
      pub acknowledge_restart-IsSaved :
          All (λ b. safe_label b.id ≡ true) p.config.bindings
          → IsSaved p e
          → IsSaved p (acknowledge_restart p id e).1
      unfolding find_binding
      acknowledge_restart-IsSaved ids h = elim (acknowledge_restart-Notes _ refl) [
        | inl f ↦ subst (IsSaved p) (sym f) h
        | inr ((b, f), n) ↦
            let safe : safe_label id ≡ true =
              subst (λ i. safe_label i ≡ true) (find_in-id id p.config.bindings b f)
                (find_in-All (λ b. safe_label b.id ≡ true) id p.config.bindings b ids f) in
            Notes-IsSaved acknowledged_state e _
              (safe-status id (record { timestamp = p.os.now e.world; outcome = unchanged }) e.state
                safe (is_safe e h))
              h n
      ]

    -- If a restart would load the state in memory, then it would do so after `invalidate_bindings`.
    pub invalidate_bindings-IsSaved :
        (ids : List Text) (e : Engine W) → IsSaved p e → IsSaved p (invalidate_bindings p ids e).1
    unfolding invalidate_bindings
    invalidate_bindings-IsSaved ids e h =
        commit-IsSaved p laws (forget ids e.state) e (safe-forget ids e.state (is_safe e h)) h

    new_engine-IsSaved : (w : W) (e : Engine W) → new_engine p w ≡ ok e → IsSaved p e
    unfolding new_engine
    new_engine-IsSaved w e h = elim (Result-cases (load_state p.os p.decode_state p.state_path w)) [
      | inr (c, q) ↦ absurd (ground arith)
      | inl (s, q) ↦
          let opened : record { state = s; world = w } ≡ e = ground arith in
          subst (IsSaved p) opened q
    ]

    pub called-IsSaved :
        (c : Call) (e : Engine W)
        → All (λ b. safe_label b.id ≡ true) p.config.bindings
        → All (Spares p) p.config.bindings
        → IsSaved p e
        → IsSaved p (called c e)
    unfolding called
    called-IsSaved (syncing id) e ids spares h = sync-IsSaved p laws id e ids spares h
    called-IsSaved (enabling id) e ids spares h = enable_binding-IsSaved id e h
    called-IsSaved (acknowledging id) e ids spares h = acknowledge_restart-IsSaved id e ids h
    called-IsSaved (invalidating js) e ids spares h = invalidate_bindings-IsSaved js e h

    -- From `Engine::new` on, through any sequence of calls of `sync`, `enable_binding`,
    -- `acknowledge_restart` and `invalidate_bindings`, those that fail included, and of changes of the
    -- world that spare the state file, a restart would load the state in memory; if the ids of the
    -- configuration are safe and none of its targets writes the state file.
    pub Reaches-IsSaved :
        (w : W) (e e' : Engine W)
        → All (λ b. safe_label b.id ≡ true) p.config.bindings
        → All (Spares p) p.config.bindings
        → new_engine p w ≡ ok e
        → Reaches e e'
        → IsSaved p e'
    Reaches-IsSaved w e _ ids spares o (here _) = new_engine-IsSaved w e o
    Reaches-IsSaved w e _ ids spares o (next _ e' c r) =
        called-IsSaved c e' ids spares (Reaches-IsSaved w e e' ids spares o r)
    Reaches-IsSaved w e _ ids spares o (wait _ e' w' f r) =
        IsSaved-SameFile p laws e' _ refl f (Reaches-IsSaved w e e' ids spares o r)
