-- ===== src/Tests/World.antt =====
-- A world for the tests: files in a map, the fake store and target, and a clock.
use tarvaultsync.Prelude.{ℕ, Option, none, some, Bool, false, [], ◌∷◌, ◌++◌, length}
use tarvaultsync.Prelude.Text.{Text, text, text_eq, starts_with}
use tarvaultsync.Prelude.Map.{Map, lookup, insert, remove, has_key}
use tarvaultsync.Prelude.Result.{Result, ok, err}
use tarvaultsync.Core.{Bytes, Binding, fake, plain_text, fake_slot, alert, DeviceState}
use tarvaultsync.Core.Os.{Os, IoError, not_found}
use tarvaultsync.Core.Traits.{SourceConnection, LocalTarget}
use tarvaultsync.Core.Fakes.{
  FakeStore, FakeTarget, fake_get_version, fake_get_value, fake_validate, fake_apply,
}
use tarvaultsync.Core.Engine.{Parts}

pub record World : Type 0 where
  pub files : Map Bytes
  pub store : FakeStore
  pub target : FakeTarget
  pub clock : ℕ

abbrev pub move_file : Text → Text → World → Option Bytes → Result IoError (Unit {0}) × World
move_file from to w none = (err not_found, w)
move_file from to w (some x) = (ok tt, record w { files = insert to x (remove from w.files) })

abbrev pub content : Option Bytes → Bytes
content none = []
content (some x) = x

abbrev pub disk : Os World
disk = record {
  is_absolute = λ path. starts_with path (text "/");
  path_starts_with = λ path root. starts_with path root;
  has_parent_dir = λ path. false;
  parent = λ path. some (text "/root");
  with_extension = λ path extension. path ++ (b'.' ∷ extension);
  canonicalize = λ path w. some path;
  is_symlink = λ path w. false;
  exists = λ path w. has_key path w.files;
  read = λ path w. elim (lookup path w.files) [ none ↦ err not_found | some x ↦ ok x ];
  metadata_len = λ path w. elim (lookup path w.files) [ none ↦ none | some x ↦ some (length x) ];
  create_synced = λ path x w. (ok tt, record w { files = insert path x w.files });
  append = λ path x w.
      (ok tt, record w { files = insert path (content (lookup path w.files) ++ x) w.files });
  rename = λ from to w. move_file from to w (lookup from w.files);
  remove_file = λ path w. (ok tt, record w { files = remove path w.files });
  now = λ w. w.clock;
}

abbrev pub fake_source : SourceConnection World
fake_source = record {
  get_version = λ r w. let (v, s) = fake_get_version r w.store in (v, record w { store = s });
  get_value = λ r v w. let (x, s) = fake_get_value r v w.store in (x, record w { store = s });
}

abbrev pub fake_target : LocalTarget World
fake_target = record {
  validate = λ t kind w. (fake_validate t kind, w);
  is_missing = λ t w. false;
  apply_with_policy = λ t x policy w.
      let (r, target) = fake_apply t x w.target in (r, record w { target = target });
}

abbrev pub binding : Binding
binding = record {
  id = text "b1";
  source = record { store = fake; connection = text "fake"; entry = text "item" };
  secret_type = plain_text;
  target = fake_slot (text "one");
  missing_target = alert;
  schedule = record { interval_seconds = 1 };
}

abbrev pub parts : (DeviceState → Option Bytes) → (Bytes → Option DeviceState) → Parts World
parts encode decode = record {
  os = disk;
  config = record { version = 1; bindings = binding ∷ [] };
  state_path = text "s";
  events_path = text "e";
  source = fake_source;
  target = fake_target;
  encode_state = encode;
  decode_state = decode;
  encode_event = λ x. some (b'{' ∷ b'}' ∷ []);
}

abbrev pub start : Text → Bool → World
start version fail = record {
  files = [];
  store = record { version = version; reads = (0, 0) };
  target = record { applies = 0; fail = fail };
  clock = 7;
}
