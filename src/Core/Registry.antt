-- ===== src/Core/Registry.antt =====
-- `SettingsScreen`, `ModuleRegistry` and the screens of the fake modules of src/core.rs.
use tarvaultsync.Prelude.{
  ◌≡◌, ◌⊎◌, Option, none, some, true, false, not, ◌||◌, List, [], ◌∷◌, ◌==◌, if◌then◌else◌, arith,
}
use tarvaultsync.Prelude.Text.{Text, text, text_eq, split_once}
use tarvaultsync.Prelude.Map.{Map, lookup, insert, has_key, lookup-insert}
use tarvaultsync.Prelude.Result.{Result, ok, err}
use tarvaultsync.Core.{
  SecretType, plain_text, SourceRef, TargetSpec, fake_slot, fake, ErrorCategory, invalid_config,
}
use tarvaultsync.Core.Labels.{safe_label}

pub data ModuleSetting : Type 0 where
  source_setting : SourceRef → ModuleSetting
  target_setting : TargetSpec → ModuleSetting

pub data ModuleKind : Type 0 where
  store_module target_module : ModuleKind

-- The trait, as the record of the methods of one screen
pub record SettingsScreen : Type 0 where
  pub module_id : Text
  pub kind : ModuleKind
  pub supported_types : List SecretType
  pub render : Text
  pub configure : Text → Result ErrorCategory ModuleSetting

-- `ModuleRegistry` has one field, the screens by id.
abbrev pub ModuleRegistry : Type 0
ModuleRegistry = Map SettingsScreen

-- `ModuleRegistry::new`
abbrev pub empty_registry : ModuleRegistry
empty_registry = []

unfoldable pub register :
    SettingsScreen → ModuleRegistry → Result ErrorCategory (Unit {0}) × ModuleRegistry
register screen r =
    if has_key screen.module_id r
    then (err invalid_config, r)
    else (ok tt, insert screen.module_id screen r)

unfoldable pub mount : Text → ModuleRegistry → Option Text
mount id r = elim (lookup id r) [ none ↦ none | some s ↦ some s.render ]

unfoldable pub capability : Text → ModuleRegistry → Option (ModuleKind × List SecretType)
capability id r = elim (lookup id r) [ none ↦ none | some s ↦ some (s.kind, s.supported_types) ]

unfoldable pub configure_module : Text → Text → ModuleRegistry → Result ErrorCategory ModuleSetting
configure_module id input r = elim (lookup id r) [
  | none ↦ err invalid_config
  | some s ↦ s.configure input
]

unfoldable pub fake_store_configure : Text → Result ErrorCategory ModuleSetting
fake_store_configure input = elim (split_once b',' input) [
  | none ↦ err invalid_config
  | some (connection, entry) ↦
      if not (safe_label connection) || not (safe_label entry)
      then err invalid_config
      else ok (source_setting (record { store = fake; connection = connection; entry = entry }))
]

unfoldable pub fake_target_configure : Text → Result ErrorCategory ModuleSetting
fake_target_configure input =
    if not (safe_label input) then err invalid_config else ok (target_setting (fake_slot input))

abbrev pub fake_store_screen : SettingsScreen
fake_store_screen = record {
  module_id = text "fake_store";
  kind = store_module;
  supported_types = plain_text ∷ [];
  render = text "Fake store settings: connection,entry";
  configure = fake_store_configure;
}

abbrev pub fake_target_screen : SettingsScreen
fake_target_screen = record {
  module_id = text "fake_target";
  kind = target_module;
  supported_types = plain_text ∷ [];
  render = text "Fake target settings: slot";
  configure = fake_target_configure;
}

-- A second screen under an id that is taken is refused and changes nothing; a screen under a new id
-- is found under it, and the other ids keep what they had.
pub register_lem :
    (screen : SettingsScreen) (r : ModuleRegistry) (id : Text)
    → let (result, r') = register screen r in
      ((has_key screen.module_id r ≡ true) × (result ≡ err invalid_config) × (r' ≡ r))
      ⊎ ((has_key screen.module_id r ≡ false)
          × (result ≡ ok tt)
          × (lookup id r' ≡ (if screen.module_id == id then some screen else lookup id r)))
unfolding register
register_lem screen r id = ground (arith, lookup-insert id screen.module_id screen r)
