-- ===== src/Core/Validation/Laws.antt =====
-- What `validate_config` accepts, stated apart from its loop.
use tarvaultsync.Prelude.{
  ◌≤◌, ◌≡◌, refl, ◌↔◌, Option, some, true, false, List, [], ◌∷◌, arith, All, contains,
}
use tarvaultsync.Prelude.Text.{Text, text_eq}
use tarvaultsync.Prelude.Result.{ok}
use tarvaultsync.Core.{
  schema_version, FilePath, Bytes, azure, plain_text, is_fake_slot, Binding, Config, store_eq,
  secret_type_eq,
}
use tarvaultsync.Core.Os.{Os}
use tarvaultsync.Core.Labels.{safe_label}
use tarvaultsync.Core.Validation.{
  is_fake_store, is_supported_store, target_allowed, binding_allowed, check_bindings,
  validate_config,
}
use tarvaultsync.Azure.Names.{valid_source}

module _ {W : Type 0} (os : Os W) (w : W) (root : FilePath) where
  -- What one binding must meet.
  pub record IsValidBinding (b : Binding) : Type 0 where
    pub safe_id : safe_label b.id ≡ true
    pub safe_connection : safe_label b.source.connection ≡ true
    pub safe_entry : safe_label b.source.entry ≡ true
    pub interval_positive : 1 ≤ b.schedule.interval_seconds
    pub interval_at_most_a_day : b.schedule.interval_seconds ≤ 86400
    pub scoped : target_allowed os w b.target root ≡ true
    pub paired : is_fake_store b.source.store ≡ is_fake_slot b.target
    pub supported : is_supported_store b.source.store ≡ true
    pub azure_names : b.source.store ≡ azure → valid_source b.source ≡ true
    pub azure_text : b.source.store ≡ azure → b.secret_type ≡ plain_text

  -- No id is among `seen`, and none stands twice.
  abbrev pub FreshIds : List Text → List Binding → Type 0
  FreshIds seen [] = Unit
  FreshIds seen (b ∷ bs) = (contains seen b.id ≡ false) × FreshIds (b.id ∷ seen) bs

  pub record IsValidConfig (c : Config) : Type 0 where
    pub versioned : c.version ≡ schema_version
    pub unique_ids : FreshIds [] c.bindings
    pub each : All IsValidBinding c.bindings

  binding_allowed_sound :
      (b : Binding) → safe_label b.id ≡ true → binding_allowed os w b root ≡ true → IsValidBinding b
  unfolding binding_allowed
  binding_allowed_sound b s h = ground arith

  binding_allowed_complete : (b : Binding) → IsValidBinding b → binding_allowed os w b root ≡ true
  unfolding binding_allowed
  binding_allowed_complete b v = ground arith

  check_bindings_sound :
      (seen : List Text) (bs : List Binding)
      → check_bindings os w seen bs root ≡ ok tt
      → FreshIds seen bs × All IsValidBinding bs
  unfolding check_bindings
  check_bindings_sound seen [] h = (tt, tt)
  check_bindings_sound seen (b ∷ bs) h =
      ground (arith, binding_allowed_sound b, check_bindings_sound (b.id ∷ seen) bs)

  check_bindings_complete :
      (seen : List Text) (bs : List Binding)
      → FreshIds seen bs
      → All IsValidBinding bs
      → check_bindings os w seen bs root ≡ ok tt
  unfolding check_bindings
  check_bindings_complete seen [] f v = refl
  check_bindings_complete seen (b ∷ bs) f v = rw (
    check_bindings_complete (b.id ∷ seen) bs f.1 v.1,
    f.0,
    (v.0).safe_id,
    binding_allowed_complete b v.0,
  )

  -- A configuration is accepted exactly when the bytes decode to it, its version is the supported
  -- one, no two bindings share an id, and each binding is valid.
  pub validate_config_iff :
      (decode : Bytes → Option Config) (bytes : Bytes) (c : Config)
      → (validate_config os w decode bytes root ≡ ok c)
        ↔ ((decode bytes ≡ some c) × IsValidConfig c)
  unfolding validate_config
  validate_config_iff decode bytes c = (sound, complete)
    where
      sound :
          validate_config os w decode bytes root ≡ ok c → (decode bytes ≡ some c) × IsValidConfig c
      sound h = ground (arith, check_bindings_sound [] c.bindings)

      complete :
          (decode bytes ≡ some c) × IsValidConfig c → validate_config os w decode bytes root ≡ ok c
      complete (d, v) = ground (arith, check_bindings_complete [] c.bindings v.unique_ids v.each)
