-- ===== src/Sources/Route.antt =====
-- Which vault or service answers for a reference: `file`, `validate_ref`, `routed`, `get_version` and
-- `get_value` of src/sources.rs. A vault that a call changes is put back where it was found.
use tarvaultsync.Prelude.{none, some, not, ◌==◌, if◌then◌else◌}
use tarvaultsync.Prelude.Text.{Text, text, text_eq}
use tarvaultsync.Prelude.Map.{lookup, insert}
use tarvaultsync.Prelude.Result.{Result, ok, err, ok_or, Action}
use tarvaultsync.Core.{
  local_vault, azure, SourceRef, SourceVersion, SecretPayload, ErrorCategory, invalid_config,
  store_eq,
}
use tarvaultsync.Azure.Names.{valid_source}
use tarvaultsync.Azure as Azure
use tarvaultsync.Vault.Source.{VaultSource, Host, source_version, source_value}
use tarvaultsync.Sources.{
  Location, file_system, azure_key_vault, drive, location_store, Sources, Shelf, SourcesParts,
}

-- A connection is routed by its location.
unfoldable pub route : Location → SourceRef → SourceRef
route (file_system path) source = source
route (azure_key_vault name) source = record {
  store = azure;
  connection = name;
  entry = source.entry;
}
route (drive remote) source = record {
  store = local_vault;
  connection = source.connection;
  entry = source.entry;
}

module _ {W : Type 0} where
  -- `file`
  unfoldable pub file : Text → Sources W → Result ErrorCategory (VaultSource W)
  unfolding text_eq
  file id s =
      let found = ok_or (lookup id s.files) invalid_config in
      if id == text "local" then ok s.local else found

  unfoldable pub routed : SourceRef → Sources W → Result ErrorCategory SourceRef
  unfolding store_eq
  routed source s = elim (lookup source.connection s.connections) [
    | none ↦ ok source
    | some c ↦
        if not (location_store c.location == source.store)
        then err invalid_config
        else ok (route c.location source)
  ]

  unfoldable pub validate_routed : SourceRef → Sources W → Result ErrorCategory (Unit {0})
  validate_routed source s = elim source.store [
    | local_vault ↦ (elim (file source.connection s) [ ok _ ↦ ok tt | err e ↦ err e ])
    | azure ↦ if valid_source source then ok tt else err invalid_config
    | _ ↦ err invalid_config
  ]

  unfoldable pub validate_ref : SourceRef → Sources W → Result ErrorCategory (Unit {0})
  validate_ref source s = elim (routed source s) [
    | err e ↦ err e
    | ok target ↦ validate_routed target s
  ]

  -- The vault of an id after a call
  unfoldable pub put_back : Text → VaultSource W → Sources W → Sources W
  unfolding text_eq
  put_back id v s =
      if id == text "local"
      then record s { local = v }
      else record s { files = insert id v s.files }

  -- A call on the vault of an id
  unfoldable pub on_vault :
      {A : Type 0} → Text → Action (Host W) ErrorCategory A → Action (Shelf W) ErrorCategory A
  on_vault id action h = elim (file id h.sources) [
    | err e ↦ (err e, h)
    | ok v ↦
        let (r, host) = action (record { source = v; world = h.world }) in
        (r, record { sources = put_back id host.source h.sources; world = host.world })
  ]

  abbrev pub on_world : {A : Type 0} → Action W ErrorCategory A → Action (Shelf W) ErrorCategory A
  on_world action h = let (r, w) = action h.world in (r, record h { world = w })

module _ {W : Type 0} (p : SourcesParts W) where
  unfoldable pub version_at : SourceRef → Action (Shelf W) ErrorCategory SourceVersion
  version_at source = elim source.store [
    | local_vault ↦ on_vault source.connection (source_version p.vault source)
    | azure ↦ on_world (Azure.get_version p.azure source)
    | _ ↦ λ h. (err invalid_config, h)
  ]

  unfoldable pub value_at : SourceRef → SourceVersion → Action (Shelf W) ErrorCategory SecretPayload
  value_at source version = elim source.store [
    | local_vault ↦ on_vault source.connection (source_value p.vault source version)
    | azure ↦ on_world (Azure.get_value p.azure source version)
    | _ ↦ λ h. (err invalid_config, h)
  ]

  unfoldable pub get_version : SourceRef → Action (Shelf W) ErrorCategory SourceVersion
  get_version source h = elim (routed source h.sources) [
    | err e ↦ (err e, h)
    | ok target ↦ version_at target h
  ]

  unfoldable pub get_value :
      SourceRef → SourceVersion → Action (Shelf W) ErrorCategory SecretPayload
  get_value source version h = elim (routed source h.sources) [
    | err e ↦ (err e, h)
    | ok target ↦ value_at target version h
  ]
