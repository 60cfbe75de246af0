-- ===== src/Tests/Validation.antt =====
-- `validate_config` on the binding of the fixtures.
use tarvaultsync.Prelude.{◌≡◌, refl, ◌↔◌, some, false, [], ◌∷◌, Option}
use tarvaultsync.Prelude.Text.{Text, text, text_eq}
use tarvaultsync.Prelude.Result.{Result, ok, err}
use tarvaultsync.Core.{Config, ErrorCategory, invalid_config, whole_file, local_vault, store_eq}
use tarvaultsync.Core.Labels.{safe_label}
use tarvaultsync.Core.Validation.{
  validate_config, check_bindings, binding_allowed, target_allowed, valid_scoped_path,
}
use tarvaultsync.Core.Validation.Laws.{IsValidConfig, validate_config_iff}
use tarvaultsync.Azure.Names.{valid_source}
use tarvaultsync.Tests.World.{disk, start, binding}

abbrev config : Config
config = record { version = 1; bindings = binding ∷ [] }

-- Two bindings with one id
abbrev doubled : Config
doubled = record { version = 1; bindings = binding ∷ binding ∷ [] }

-- A file below the root, and one above it
abbrev file_binding : Text → Config
file_binding path = record {
  version = 1;
  bindings =
      record binding {
        source = record { store = local_vault; connection = text "local"; entry = text "item" };
        target = whole_file path;
      }
      ∷ [];
}

accept : Config → Result ErrorCategory Config
unfolding validate_config check_bindings binding_allowed target_allowed safe_label text_eq store_eq
    valid_source valid_scoped_path
accept c = validate_config disk (start (text "v1") false) (λ x. some c) [] (text "/root")

accepted : accept config ≡ ok config
unfolding accept
accepted = refl

refused_twice : accept doubled ≡ err invalid_config
unfolding accept
refused_twice = refl

scoped :
    (accept (file_binding (text "/root/a")) ≡ ok (file_binding (text "/root/a")))
    × (accept (file_binding (text "/etc/a")) ≡ err invalid_config)
unfolding accept
scoped = (refl, refl)

validate_config_iff_example : (accept config ≡ ok config) ↔ (
    (◌≡◌ {A = Option Config} (some config) (some config))
    × IsValidConfig disk (start (text "v1") false) (text "/root") config)
unfolding accept
validate_config_iff_example =
    validate_config_iff disk (start (text "v1") false) (text "/root") (λ x. some config) [] config
