-- ===== src/Sources/Edit.antt =====
-- The file of the catalogue and the operations that change it: `read_catalogue`, `persist`, `open`,
-- `list`, `add`, `remove` and `reconnect` of src/sources.rs. The lock of the file ends with `persist`.
use tarvaultsync.Prelude.{
  ◌+◌, Option, none, some, Bool, false, not, ◌&&◌, ◌||◌, List, [], ◌∷◌, ◌++◌, ◌==◌, nat_eq, leb,
  ltb, length, if◌then◌else◌,
}
use tarvaultsync.Prelude.Text.{Text, text, text_eq}
use tarvaultsync.Prelude.Map.{Map, lookup, has_key, insert, remove}
use tarvaultsync.Prelude.Result.{Result, ok, err, map_err, ok_or, Action, ◌>>=◌, ◌>>◌, pure, lift}
use tarvaultsync.Core.{
  Bytes, FilePath, ErrorCategory, invalid_config, state_error, version_conflict,
}
use tarvaultsync.Core.Os.{not_found, other}
use tarvaultsync.Vault.Source.{VaultSource}
use tarvaultsync.Drive.{same_provider}
use tarvaultsync.Sources.{
  Location, drive, Connection, Catalogue, Sources, Shelf, SourcesParts, max_bytes, values, without,
  replaced, insert_some, release, has_bytes, io_state, os, validate, make_source,
}

-- Are these two files of one drive? `reconnect` goes on only then.
unfoldable pub is_same_file : Location → Location → Bool
unfolding text_eq
is_same_file (drive previous) (drive next) =
    same_provider previous.provider next.provider && previous.file_id == next.file_id
is_same_file _ _ = false

module _ {W : Type 0} (p : SourcesParts W) where
  unfoldable pub read_catalogue : W → Result ErrorCategory (Option Bytes)
  read_catalogue w =
      if p.is_irregular p.path w
      then err invalid_config
      else elim (p.read_up_to (max_bytes + 1) p.path w) [
        | err not_found ↦ ok none
        | err other ↦ err state_error
        | ok bytes ↦ if ltb max_bytes (length bytes) then err invalid_config else ok (some bytes)
      ]

  -- The writing of the temporary file and its move over the catalogue
  unfoldable pub move_catalogue : FilePath → Bytes → Action W ErrorCategory (Unit {0})
  move_catalogue temp bytes w =
      let steps : Action W ErrorCategory (Unit {0}) =
        io_state (p.files.write_synced temp bytes) >> io_state (p.files.persist_temp temp p.path) in
      let (r, w') = steps w in
      elim r [ ok _ ↦ (ok tt, w') | err e ↦ (err e, p.files.drop_temp temp w') ]

  -- The bytes of a catalogue, when the file is still the one that is known
  unfoldable pub fresh_bytes : Option Bytes → Catalogue → W → Result ErrorCategory Bytes
  unfolding text_eq
  fresh_bytes expected saved w = elim (read_catalogue w) [
    | err e ↦ err e
    | ok current ↦
        if not (has_bytes current expected) then err version_conflict else elim (p.encode saved) [
          | none ↦ err state_error
          | some bytes ↦ if ltb max_bytes (length bytes) then err invalid_config else ok bytes
        ]
  ]

  unfoldable pub write_bytes : Bytes → Action W ErrorCategory (Unit {0})
  write_bytes bytes = do
    parent ← lift (ok_or ((os p).parent p.path) state_error)
    temp ← io_state (p.files.new_temp parent)
    move_catalogue temp bytes

  unfoldable pub acquire_lock : Action W ErrorCategory (Unit {0})
  acquire_lock = do
    λ w. (
      if (os p).is_symlink ((os p).with_extension p.path (text "lock")) w
          then err state_error
          else ok tt,
      w,
    )
    io_state (p.open_lock ((os p).with_extension p.path (text "lock")))
    λ w.
        let (r, w') = p.try_lock ((os p).with_extension p.path (text "lock")) w in
        (map_err (λ _. version_conflict) r, w')

  -- `persist`; the result is what `expected` becomes.
  unfoldable pub persist : Option Bytes → Catalogue → Action W ErrorCategory Bytes
  persist expected saved = do
    acquire_lock
    bytes ← λ w. (fresh_bytes expected saved w, w)
    write_bytes bytes
    pure bytes

  -- The loop of `open`
  unfoldable pub load_connections :
      FilePath
      → W
      → List Connection
      → Map Connection
      → Map (VaultSource W)
      → Result ErrorCategory (Map Connection × Map (VaultSource W))
  load_connections root w [] connections vaults = ok (connections, vaults)
  load_connections root w (c ∷ cs) connections vaults = elim (validate p c w) [
    | err e ↦ err e
    | ok _ ↦
        if has_key c.id connections
        then err invalid_config
        else elim (make_source p (some root) c) [
          | err e ↦ err e
          | ok source ↦
              load_connections root w cs (insert c.id c connections)
                (insert_some c.id source vaults)
        ]
  ]

  -- The connections of the file, at most 64
  unfoldable pub saved_connections : Option Bytes → Result ErrorCategory (List Connection)
  unfolding nat_eq
  saved_connections none = ok []
  saved_connections (some bytes) = elim (p.decode bytes) [
    | none ↦ err invalid_config
    | some saved ↦
        if not (saved.version == 1) || ltb 64 (length saved.connections)
        then err invalid_config
        else ok saved.connections
  ]

  -- `Sources::open`
  unfoldable pub open_sources : FilePath → VaultSource W → W → Result ErrorCategory (Sources W)
  open_sources root local w = elim (read_catalogue w) [
    | err e ↦ err e
    | ok saved ↦ elim (saved_connections saved) [
      | err e ↦ err e
      | ok cs ↦ elim (load_connections root w cs [] []) [
        | err e ↦ err e
        | ok (connections, vaults) ↦ ok (record {
          local = local;
          saved_bytes = saved;
          connections = connections;
          files = vaults;
          released = [];
        })
      ]
    ]
  ]

  -- `list`
  abbrev pub list : Sources W → List Connection
  list s = values s.connections

  -- `self.path.parent().and_then(Path::parent)`
  abbrev pub root_of : Option FilePath
  root_of = elim ((os p).parent p.path) [ none ↦ none | some parent ↦ (os p).parent parent ]

  -- `persist` with the bytes that are held, and then the change in memory
  unfoldable pub commit :
      List Connection → (Sources W → Sources W) → Action (Shelf W) ErrorCategory (Unit {0})
  commit connections change h =
      let (r, w) =
        persist h.sources.saved_bytes (record { version = 1; connections = connections }) h.world in
      elim r [
        | err e ↦ (err e, record h { world = w })
        | ok bytes ↦ (
          ok tt,
          record h { sources = change (record h.sources { saved_bytes = some bytes }); world = w },
        )
      ]

  abbrev pub with_added : Connection → Option (VaultSource W) → Sources W → Sources W
  with_added c source s = record s {
    connections = insert c.id c s.connections;
    files = insert_some c.id source s.files;
  }

  abbrev pub with_removed : Text → Sources W → Sources W
  with_removed id s = record s {
    connections = remove id s.connections;
    files = remove id s.files;
    released = release (lookup id s.files) s.released;
  }

  abbrev pub with_renewed : Connection → Option (VaultSource W) → Sources W → Sources W
  with_renewed c source s =
      with_added c source (record s { released = release (lookup c.id s.files) s.released })

  unfoldable pub add : Connection → Action (Shelf W) ErrorCategory (Unit {0})
  add c h = elim (validate p c h.world) [
    | err e ↦ (err e, h)
    | ok _ ↦
        if leb 64 (length h.sources.connections) || has_key c.id h.sources.connections
        then (err invalid_config, h)
        else elim (make_source p root_of c) [
          | err e ↦ (err e, h)
          | ok source ↦ commit (values h.sources.connections ++ c ∷ []) (with_added c source) h
        ]
  ]

  unfoldable pub remove_source : Text → Action (Shelf W) ErrorCategory (Unit {0})
  remove_source id h =
      let removal = commit (without id (values h.sources.connections)) (with_removed id) h in
      if has_key id h.sources.connections then removal else (err invalid_config, h)

  unfoldable pub reconnect : Connection → Action (Shelf W) ErrorCategory (Unit {0})
  unfolding is_same_file
  reconnect c h = elim (validate p c h.world) [
    | err e ↦ (err e, h)
    | ok _ ↦ elim (lookup c.id h.sources.connections) [
      | none ↦ (err invalid_config, h)
      | some old ↦
          if not (is_same_file old.location c.location)
          then (err invalid_config, h)
          else elim (make_source p root_of c) [
            | err e ↦ (err e, h)
            | ok source ↦
                commit (replaced c (values h.sources.connections)) (with_renewed c source) h
          ]
    ]
  ]
