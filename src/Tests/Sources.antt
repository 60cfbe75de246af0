-- ===== src/Tests/Sources.antt =====
-- A catalogue of one Azure vault, and one of a drive's file that is renewed.
use tarvaultsync.Prelude.{
  ℕ, ◌≡◌, ◌≢◌, refl, ◌∙◌, ap, Option, none, some, true, false, List, [], ◌∷◌, ◌==◌, nat_eq,
  ℕ_discrete, if◌then◌else◌, length, arith, Bool-cases, inl, inr,
}
use tarvaultsync.Prelude.Text.{Text, text, text_eq, is_alphanumeric}
use tarvaultsync.Prelude.Map.{lookup, insert}
use tarvaultsync.Prelude.Result.{ok, err}
use tarvaultsync.Core.{
  Bytes, FilePath, ErrorCategory, SourceRef, SourceVersion, StoreKind, source_error,
}
use tarvaultsync.Core as Core
use tarvaultsync.Core.Labels.{safe_label, is_label_byte}
use tarvaultsync.Azure.{AzureParts}
use tarvaultsync.Azure.Names.{valid_source}
use tarvaultsync.Vault.{VaultParts, CipherStore, storage}
use tarvaultsync.Vault.Source.{VaultSource, new_source, remote_source}
use tarvaultsync.Drive.{RemoteRef, google_drive, valid_id, is_valid_ref}
use tarvaultsync.Sources.{
  Location, file_system, azure_key_vault, drive, Connection, Catalogue, Sources, Shelf,
  SourcesParts, is_bad_location, validate, remote_vault, make_source,
}
use tarvaultsync.Sources.Edit.{
  is_same_file, read_catalogue, saved_connections, load_connections, open_sources, move_catalogue,
  write_bytes, fresh_bytes, acquire_lock, persist, commit, add, reconnect,
}
use tarvaultsync.Sources.Route.{routed}
use tarvaultsync.Sources.Consistent.{IsConsistent, Decodes}
use tarvaultsync.Sources.OnDisk.{IsDurable, IsOnDisk}
use tarvaultsync.Sources.Released.{Releases}
use tarvaultsync.Sources.Preserved.{Keeps}
use tarvaultsync.Sources.Change.{adding, change, here, next}
use tarvaultsync.Sources.Opened.{open_sources-IsConsistent, change-Keeps, Reaches-IsConsistent}
use tarvaultsync.Sources.Renewed.{place_at, routed-reconnect}
use tarvaultsync.Tests.Targets.{Disk, files, found}

-- The parts of the vault and of Azure are not called.
abbrev pub vault : VaultParts Disk
vault = record {
  os = files.os;
  symlink_metadata = λ path w. none;
  lock_exclusive = λ path w. (ok tt, w);
  create_new = λ path x w. (ok tt, w);
  fill_bytes = λ n w. ([], w);
  instant = λ w. 0;
  hash_password = λ passphrase salt. none;
  encrypt = λ key nonce aad x. none;
  decrypt = λ key nonce aad x. none;
  encode_manifest = λ m. none;
  decode_manifest = λ s. none;
  encode_envelope = λ e. none;
  decode_envelope = λ s. none;
}

abbrev azure : AzureParts Disk
azure = record {
  get = λ url w. (err source_error, w);
  decode_page = λ s. none;
  decode_secret = λ s. none;
  parse_url = λ s. none;
  now = λ w. ok 0;
}

-- A codec for no connection and for one Azure vault under its name
abbrev encode_location : Text → Location → Option Bytes
encode_location id (azure_key_vault name) = if id == name then some (b'A' ∷ name) else none
encode_location id _ = none

abbrev encode_list : List Connection → Option Bytes
encode_list [] = some []
encode_list (c ∷ []) = encode_location c.id c.location
encode_list (c ∷ d ∷ cs) = none

abbrev decode : Bytes → Option Catalogue
decode [] = some (record { version = 1; connections = [] })
decode (a ∷ name) = some (record {
  version = 1;
  connections = record { id = name; location = azure_key_vault name } ∷ [];
})

abbrev empty_store : CipherStore Disk
empty_store = record {
  read = λ w. (err storage, w);
  replace = λ x w. (err storage, w);
  disconnect = λ w. (ok tt, w);
}

abbrev parts : SourcesParts Disk
parts = record {
  files = files;
  vault = vault;
  azure = azure;
  path = text "/r/local/sources.json";
  is_dir = λ path w. true;
  is_irregular = λ path w. false;
  read_up_to = λ n path w. found w.kept;
  open_lock = λ path w. (ok tt, w);
  try_lock = λ path w. (ok tt, w);
  encode = λ c. if c.version == 1 then encode_list c.connections else none;
  decode = decode;
  remote_file = λ remote. empty_store;
}

decodes_location :
    (id : Text) (l : Location) (bytes : Bytes)
    → encode_location id l ≡ some bytes
    → decode bytes
      ≡ some (record { version = 1; connections = record { id = id; location = l } ∷ [] })
unfolding text_eq
decodes_location id (azure_key_vault name) bytes h = elim (Bool-cases (id == name)) [
  | inl e ↦ ground arith
  | inr e ↦ absurd (ground arith)
]
decodes_location id (file_system path) bytes h = absurd (ground arith)
decodes_location id (drive remote) bytes h = absurd (ground arith)

decodes_list :
    (cs : List Connection) (bytes : Bytes)
    → encode_list cs ≡ some bytes
    → decode bytes ≡ some (record { version = 1; connections = cs })
decodes_list [] bytes h = ground arith
decodes_list (c ∷ []) bytes h = decodes_location c.id c.location bytes h
decodes_list (c ∷ d ∷ cs) bytes h = absurd (ground arith)

parts-Decodes : Decodes parts
unfolding nat_eq
parts-Decodes c bytes h =
    let v : 1 ≡ c.version = ground arith in
    decodes_list c.connections bytes (ground arith)
    ∙ ap (λ (n : ℕ). some (record { version = n; connections = c.connections })) v

abbrev local : VaultSource Disk
local = record { vault = none; path = text "/r/vault"; connection = text "local"; remote = none }

abbrev pub blank : Disk
blank = record { kept = none; temp = [] }

abbrev opened : Sources Disk
opened = record { local = local; saved_bytes = none; connections = []; files = []; released = [] }

open_run : open_sources parts (text "/r") local blank ≡ ok opened
unfolding open_sources read_catalogue saved_connections load_connections
open_run = refl

abbrev kv : Connection
kv = record { id = text "my-vault"; location = azure_key_vault (text "my-vault") }

abbrev first : Shelf Disk
first = record { sources = opened; world = blank }

-- A new temporary file has another name than the catalogue.
apart : (temp : FilePath) → text "/r/.tmp1" ≡ temp → temp ≢ parts.path
apart temp h e =
    let n : length (text "/r/.tmp1") ≡ length parts.path = ap length (h ∙ e) in
    absurd (omega (arith, n))

parts-IsDurable : IsDurable parts
unfolding nat_eq ℕ_discrete text_eq
parts-IsDurable = record {
  open_lock-same = λ w. record { same_kind = refl; same_bytes = refl };
  try_lock-same = λ w. record { same_kind = refl; same_bytes = refl };
  new_temp-same = λ parent w. record { same_kind = refl; same_bytes = refl };
  new_temp-apart = λ parent temp w w' h. λ e. apart temp (ground arith) e;
  write_synced-same = λ temp x w h. record { same_kind = refl; same_bytes = refl };
  persist-failed = λ temp w e h. absurd (ground arith);
  persist-written = λ temp x w n h k. (refl, refl);
  drop_temp-same = λ temp w h. record { same_kind = refl; same_bytes = refl };
}

Reaches-IsConsistent_example :
    IsConsistent parts (change parts (adding kv) first).1.sources
    × IsOnDisk parts (change parts (adding kv) first).1
    × Releases opened (change parts (adding kv) first).1.sources
Reaches-IsConsistent_example =
    Reaches-IsConsistent parts (text "/r") local blank opened (change parts (adding kv) first).1
      parts-Decodes parts-IsDurable open_run (next first first (adding kv) (here first))

change-Keeps_example : Keeps parts first (change parts (adding kv) first)
change-Keeps_example =
    change-Keeps parts parts-Decodes (adding kv) first
      (open_sources-IsConsistent parts (text "/r") local blank opened open_run)

-- The addition succeeds.
add_run : (add parts kv first).0 ≡ ok tt
unfolding add validate is_bad_location make_source commit persist acquire_lock fresh_bytes
    read_catalogue write_bytes move_catalogue safe_label is_label_byte is_alphanumeric valid_source
    lookup insert text_eq nat_eq ℕ_discrete
add_run = refl

-- A codec that always succeeds
abbrev free_parts : SourcesParts Disk
free_parts = record parts { encode = λ c. some [] }

abbrev remote : Text → RemoteRef
remote credential = record {
  provider = google_drive;
  credential_id = credential;
  file_id = text "f1";
}

abbrev shared : Text → Connection
shared credential = record { id = text "drive"; location = drive (remote credential) }

abbrev connected : Shelf Disk
connected = record {
  sources = record {
    local = local;
    saved_bytes = none;
    connections = (text "drive", shared (text "c1")) ∷ [];
    files = (text "drive", local) ∷ [];
    released = [];
  };
  world = blank;
}

abbrev reference : SourceRef
reference = record { store = Core.google_drive; connection = text "drive"; entry = text "item" }

reconnect_run : (reconnect free_parts (shared (text "c2")) connected).0 ≡ ok tt
unfolding reconnect is_same_file validate is_bad_location make_source remote_vault remote_source
    new_source is_valid_ref valid_id commit persist acquire_lock fresh_bytes read_catalogue
    write_bytes move_catalogue safe_label is_label_byte is_alphanumeric lookup insert text_eq nat_eq
    ℕ_discrete
reconnect_run = refl

abbrev renewed : Shelf Disk
renewed = (reconnect free_parts (shared (text "c2")) connected).1

routed-reconnect_example :
    (routed reference renewed.sources ≡ routed reference connected.sources)
    × (place_at (lookup (text "drive") renewed.sources.connections)
        ≡ place_at (lookup (text "drive") connected.sources.connections))
routed-reconnect_example =
    routed-reconnect free_parts (shared (text "c2")) reference connected renewed
      (ap (λ r. (r, renewed)) reconnect_run)
