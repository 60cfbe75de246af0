-- ===== src/Core/Engine/Saved.antt =====
-- The state file of src/core.rs and the state in memory: what it means that a restart would load the
-- state that the engine holds, and the commit of a new state.
use tarvaultsync.Prelude.{
  ◌≡◌, refl, ◌≢◌, ◌⊎◌, inl, inr, Option, none, some, true, false, arith, ◌∙◌,
}
use tarvaultsync.Prelude.Text.{text, text_eq}
use tarvaultsync.Prelude.Result.{ok, Result-cases}
use tarvaultsync.Core.{Binding, DeviceState, SourceVersion, SecretPayload}
use tarvaultsync.Core.{secret_type_eq, outcome_eq}
use tarvaultsync.Core.Store.{atomic_json}
use tarvaultsync.Core.Engine.{Parts, Engine, commit}
use tarvaultsync.Core.{Bytes, FilePath}
use tarvaultsync.Core.Store.{is_unsafe_state, load_state}
use tarvaultsync.Core.Store.Laws.{load_state-stored}

module _ {W : Type 0} (p : Parts W) where
  -- The temporary file next to the state file, and the log that was moved aside
  abbrev pub tmp : FilePath
  tmp = p.os.with_extension p.state_path (text "tmp")

  abbrev pub old_log : FilePath
  old_log = p.os.with_extension p.events_path (text "ndjson.1")

  -- The state file is as it was.
  pub record SameFile (w w' : W) : Type 0 where
    pub same_exists : p.os.exists p.state_path w' ≡ p.os.exists p.state_path w
    pub same_read : p.os.read p.state_path w' ≡ p.os.read p.state_path w

  -- The target of a binding does not write the state file.
  abbrev pub Spares : Binding → Type 0
  Spares b =
      (x : SecretPayload) (w : W)
      → SameFile w (p.target.apply_with_policy b.target x b.missing_target w).1

  -- What is assumed of the system, of the reading calls of source and target, and of the encoder: of
  -- the system's calls only a rename onto the state file changes it, a rename that fails does not, and one that succeeds puts the bytes
  -- there that were written to the temporary file; what was encoded decodes to what it was.
  pub record IsReliable : Type 0 where
    pub validate-same :
        (b : Binding) (w : W) → SameFile w (p.target.validate b.target b.secret_type w).1
    pub get_version-same : (b : Binding) (w : W) → SameFile w (p.source.get_version b.source w).1
    pub get_value-same :
        (b : Binding) (v : SourceVersion) (w : W) → SameFile w (p.source.get_value b.source v w).1
    pub append-same : (x : Bytes) (w : W) → SameFile w (p.os.append p.events_path x w).1
    pub remove_log-same : (w : W) → SameFile w (p.os.remove_file old_log w).1
    pub rename_log-same : (w : W) → SameFile w (p.os.rename p.events_path old_log w).1
    pub create_tmp-same : (x : Bytes) (w : W) → SameFile w (p.os.create_synced tmp x w).1
    pub rename-failed :
        (w : W)
        → (p.os.rename tmp p.state_path w).0 ≢ ok tt
        → SameFile w (p.os.rename tmp p.state_path w).1
    pub rename-exists :
        (x : Bytes) (w : W)
        → let (r, w1) = p.os.create_synced tmp x w in
          let (r', w2) = p.os.rename tmp p.state_path w1 in
          r ≡ ok tt
          → r' ≡ ok tt
          → (p.os.exists p.state_path w2 ≡ true) × (p.os.read p.state_path w2 ≡ ok x)
    pub decode-encode :
        (s : DeviceState) (x : Bytes) → p.encode_state s ≡ some x → p.decode_state x ≡ some s

  -- A restart loads the state in memory.
  abbrev pub IsSaved : Engine W → Type 0
  IsSaved e = load_state p.os p.decode_state p.state_path e.world ≡ ok e.state

  pub load_state-SameFile :
      (w w' : W)
      → SameFile w w'
      → load_state p.os p.decode_state p.state_path w'
        ≡ load_state p.os p.decode_state p.state_path w
  unfolding load_state
  load_state-SameFile w w' f = ground arith

  module _ (laws : IsReliable) where
    atomic_json_lem :
        (x : Bytes) (w : W)
        → let (r, w') = atomic_json p.os p.state_path (some x) w in
          ((r ≡ ok tt) × (p.os.exists p.state_path w' ≡ true) × (p.os.read p.state_path w' ≡ ok x))
          ⊎ ((r ≢ ok tt) × SameFile w w')
    unfolding atomic_json
    atomic_json_lem x w = elim (Result-cases (p.os.create_synced tmp x w).0) [
      | inr (c, q) ↦ ground (arith, laws.create_tmp-same x w)
      | inl (_, q) ↦
          elim (Result-cases (p.os.rename tmp p.state_path (p.os.create_synced tmp x w).1).0) [
            | inr (c, r) ↦
                ground (
                  arith,
                  laws.create_tmp-same x w,
                  laws.rename-failed (p.os.create_synced tmp x w).1,
                )
            | inl (_, r) ↦ ground (arith, laws.rename-exists x w)
          ]
    ]

    -- The file holds what was encoded, or it is as it was.
    write_state_lem :
        (encoded : Option Bytes) (w : W)
        → let (r, w') = atomic_json p.os p.state_path encoded w in
          ((r ≡ ok tt)
            × ((x : Bytes) × (encoded ≡ some x)
                × (p.os.exists p.state_path w' ≡ true)
                × (p.os.read p.state_path w' ≡ ok x)))
          ⊎ ((r ≢ ok tt) × SameFile w w')
    unfolding atomic_json
    write_state_lem (some x) w = elim (atomic_json_lem x w) [
      | inl (r, there, bytes) ↦ inl (r, (x, refl, there, bytes))
      | inr f ↦ inr f
    ]
    write_state_lem none w = inr (unencoded w)
      where
        unencoded :
            (w : W)
            → let (r, w') = atomic_json p.os p.state_path none w in (r ≢ ok tt) × SameFile w w'
        unencoded w = ground arith

    commit-written :
        (next : DeviceState) (e : Engine W)
        → (atomic_json p.os p.state_path (p.encode_state next) e.world).0 ≡ ok tt
        → (commit p next e).1 ≡ record {
          state = next;
          world = (atomic_json p.os p.state_path (p.encode_state next) e.world).1;
        }
    unfolding commit
    commit-written next e r = ground arith

    commit-failed :
        (next : DeviceState) (e : Engine W)
        → (atomic_json p.os p.state_path (p.encode_state next) e.world).0 ≢ ok tt
        → (commit p next e).1 ≡ record {
          state = e.state;
          world = (atomic_json p.os p.state_path (p.encode_state next) e.world).1;
        }
    unfolding commit
    commit-failed next e r = ground arith

    pub commit-IsSaved :
        (next : DeviceState) (e : Engine W)
        → is_unsafe_state next ≡ false
        → IsSaved e
        → IsSaved (commit p next e).1
    commit-IsSaved next e safe h = elim (write_state_lem (p.encode_state next) e.world) [
      | inl (r, (x, q, there, bytes)) ↦ rw (commit-written next e r) (
          load_state-stored p.os p.decode_state p.state_path _ next x safe
            (laws.decode-encode next x q) there bytes)
      | inr (r, f) ↦ rw (commit-failed next e r) (load_state-SameFile _ _ f ∙ h)
    ]
