-- ===== src/Lib.antt =====
-- TarVaultSync: secrets from a vault are synchronised into files and credential stores.
--
-- The program and the files that model it. A source (a local encrypted vault, Azure Key Vault, a
-- cloud drive) gives a version and a payload for an entry; a target (a file, a field of a structured
-- file, a Docker input, a Git credential) takes the payload. A binding joins the two. The engine runs
-- the bindings, keeps a state file and an event log, and is called by the scheduler, the IPC server
-- and the desktop.
--
-- * src/core.rs, data: Core.antt, with the source's names in snake_case; `State` is `DeviceState`.
-- * src/core.rs, `validate_config` and the checks that it calls: Core/Labels.antt, Core/Validation.antt,
--   and Azure/Names.antt for `azure::valid_source`.
-- * src/core.rs, `atomic_json` and `load_state`: Core/Store.antt.
-- * src/core.rs, `Engine`: Core/Engine.antt, a handler for each method; Core/Engine/ has the proofs.
-- * src/core.rs, the settings registry: Core/Registry.antt; the fake store and target: Core/Fakes.antt.
-- * src/azure.rs, the source: Azure.antt, with `get_version` and `get_value` of `AzureSource`;
--   Azure/Newest.antt and Azure/Latest.antt say which version is the latest, Azure/Value.antt which
--   payload is given.
-- * src/vault.rs, the vault: Vault.antt has the data and the file format, Vault/Local.antt the
--   operations of `LocalVault`, Vault/Source.antt those of `VaultSource`. Vault/Idle.antt,
--   Vault/Rollback.antt, Vault/Removal.antt, Vault/Value.antt, Vault/Persist.antt and
--   Vault/Locked.antt have the proofs. `remove` is `remove_entry`; `VaultSource::get_version` and
--   `get_value` are `source_version` and `source_value`.
-- * src/targets.rs, the targets: Targets.antt. Targets/KeyValue.antt has `render_key_value`, Targets/Documents.antt
--   the JSON, YAML and Compose documents, Targets/EnvFile.antt `validate_env_file_relation`,
--   Targets/Credential.antt the calls of git, and Targets/Writer.antt `ProductionTarget`, as built for Unix; Targets/Spaces.antt is `str::trim`. The
--   folders of these files have the proofs.
-- * src/sources.rs, the catalogue: Sources.antt has the data and the checks, Sources/Edit.antt the catalogue's file and
--   the operations that change it (`remove` is `remove_source`), Sources/Route.antt the calls of a
--   source. Sources/Find.antt, Sources/Consistent.antt, Sources/Preserved.antt, Sources/OnDisk.antt,
--   Sources/Change.antt, Sources/Kept.antt, Sources/Released.antt, Sources/Opened.antt and
--   Sources/Renewed.antt have the proofs. A vault that leaves the
--   catalogue goes to the list `released` of `Sources`, since a call that is running may hold it.
-- * src/drive.rs, the references and the errors: Drive.antt.
-- * src/browser_import.rs, the import: BrowserImport.antt, with the proofs in
--   BrowserImport/Quotes.antt and BrowserImport/Consent.antt.
-- * src/scheduler.rs and `retry_delay` of src/core.rs: Scheduler.antt, proofs in Scheduler/Laws.antt and
--   Scheduler/Saved.antt.
-- * src/ipc.rs, `handle`: Ipc.antt, proofs in Ipc/Laws.antt and Ipc/Saved.antt.
--
-- How code is modelled. Numbers are natural numbers. Strings and paths are lists of bytes. A
-- `BTreeMap` with string keys is an association list in the order of the keys, a `BTreeSet` such a map
-- into the type of one element. A method that changes the engine takes it and returns it; an early
-- `return` is an error of `Action` (Prelude/Result.antt), so the steps read as in the source. The
-- operating system, `std::path`, the clock and the JSON codecs are arguments (Core/Os.antt, `Parts`),
-- over a world that also holds what the sources and targets keep. What is assumed of them stands in
-- records that the theorems take: `IsReliable` (Core/Engine/Saved.antt), `IsLogging`
-- (Core/Engine/EventLog.antt), `IsFaithful` (Vault/Persist.antt), `IsAtomic`
-- (Targets/Writer/Atomic.antt), `IsDurable` (Sources/OnDisk.antt) and `Decodes`
-- (Sources/Consistent.antt). The tests (Tests/) run the model
-- over a world of files in memory, and show that the assumptions can be met.
--
-- Loops. The loop over the attempts of the scheduler has fuel, and four attempts are enough for it.
-- Azure's loop over the pages counts down its own bound. The loop of the vault that draws a version
-- until it is not taken ends only if the random generator lets it: the model allows for a number of
-- draws, and ends with `still_drawing` when they are used up; an import that runs out of draws counts as one that was not imported. Other loops are over lists.
--
-- Not modelled: the requests of the drive store and the sign-in; the user interface, the command line and network transport, which only pass values
-- on; the Windows calls; poisoned locks. The engine's handlers are modelled as they run with the lock
-- of their id held; interleavings of handlers of different ids at await points are not.
pub mod Prelude
pub mod Core
pub mod Azure
pub mod Scheduler
pub mod Ipc
pub mod Vault
pub mod Targets
pub mod Drive
pub mod Sources
pub mod BrowserImport
pub mod Tests
