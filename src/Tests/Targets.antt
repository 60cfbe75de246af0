-- ===== src/Tests/Targets.antt =====
-- A field of a `.env` file that is written, on a disk with one file and one temporary file.
use tarvaultsync.Prelude.{
  ◌≡◌, refl, ◌≢◌, ◌∙◌, ap, ◌⊎◌, Option, none, some, true, false, not, ◌&&◌, [], ◌∷◌, ◌==◌, nat_eq,
  ℕ_discrete, leb, length, arith,
}
use tarvaultsync.Prelude.Text.{
  text, text_eq, starts_with, split_once, strip_prefix, is_alphanumeric,
}
use tarvaultsync.Prelude.Result.{Result, ok, err, is_ok}
use tarvaultsync.Core.{
  Bytes, FilePath, SecretPayload, plain_text, secret_type_eq, policy_eq, TargetSpec,
  structured_field, dot_env, alert, ErrorCategory,
}
use tarvaultsync.Core.Os.{Os, IoError, not_found, other}
use tarvaultsync.Core.Validation.{is_key_byte, valid_field_key}
use tarvaultsync.Targets.Spaces.{trim_front, trim_start, trim_end, trim}
use tarvaultsync.Targets.KeyValue.{
  single_quoted, replace, encode_value, split_inclusive, contains_crlf, trim_line_end, ends_line,
  quoted_key, candidate, defines, rewritten, render_lines, has_line_break, render_key_value,
}
use tarvaultsync.Targets.KeyValue.{before, properties}
use tarvaultsync.Targets.KeyValue.Escape.{drop_blanks}
use tarvaultsync.Targets.KeyValue.Keys.{IsKey}
use tarvaultsync.Targets.KeyValue.Changed.{definitions_in}
use tarvaultsync.Targets.KeyValue.Written.{IsWritten}
use tarvaultsync.Targets.KeyValue.Laws.{render_key_value-IsWritten, is_ok-render_key_value}
use tarvaultsync.Targets.Documents.{JsonParts, YamlParts, pointer_parts, render_structured}
use tarvaultsync.Targets.Documents.Pointers.{pointer_to, pointer_parts-pointer_to}
use tarvaultsync.Targets.EnvFile.{Files}
use tarvaultsync.Targets.Credential.{Git}
use tarvaultsync.Targets.Writer.{
  file_of, check_file, checked_path, fill_temp, atomic_write, read_existing, validate_spec,
  validate, unwrap_or_default, rendered, apply_file, apply_valid, apply_with_policy,
}
use tarvaultsync.Targets.Writer.Atomic.{IsAtomic, Same}
use tarvaultsync.Targets.Writer.Applied.{
  Holds, apply_with_policy-Holds, apply_with_policy-IsWritten,
}

pub record Disk : Type 0 where
  pub kept : Option Bytes
  pub temp : Bytes

abbrev path : FilePath
path = text "/r/.env"

abbrev pub found : Option Bytes → Result IoError Bytes
found none = err not_found
found (some bytes) = ok bytes

abbrev os : Os Disk
os = record {
  is_absolute = λ path. starts_with path (text "/");
  path_starts_with = λ path root. starts_with path root;
  has_parent_dir = λ path. false;
  parent = λ path. some (text "/r");
  with_extension = λ path extension. path;
  canonicalize = λ path w. some path;
  is_symlink = λ path w. false;
  exists = λ path w. true;
  read = λ path w. found w.kept;
  metadata_len = λ path w. none;
  create_synced = λ path x w. (ok tt, w);
  append = λ path x w. (ok tt, w);
  rename = λ from to w. (ok tt, w);
  remove_file = λ path w. (ok tt, w);
  now = λ w. 0;
}

abbrev pub files : Files Disk
files = record {
  os = os;
  join = λ directory name. directory;
  file_name = λ path. some path;
  path_eq = λ a b. a == b;
  is_utf8 = λ bytes. true;
  new_temp = λ directory w. (ok (text "/r/.tmp1"), record w { temp = [] });
  set_private = λ temp w. (ok tt, w);
  write_synced = λ temp x w. (ok tt, record w { temp = x });
  persist_temp = λ temp path w. (ok tt, record w { kept = some w.temp });
  drop_temp = λ temp w. w;
}

apart : (temp : FilePath) → text "/r/.tmp1" ≡ temp → temp ≢ path
apart temp h e =
    let n : length (text "/r/.tmp1") ≡ length path = ap length (h ∙ e) in absurd (omega (arith, n))

files-IsAtomic : IsAtomic files path
unfolding nat_eq ℕ_discrete text_eq
files-IsAtomic = record {
  new_temp-same = λ directory w. refl;
  new_temp-apart = λ directory temp w w' h. λ e. apart temp (ground arith) e;
  set_private-same = λ temp w h. refl;
  write_synced-same = λ temp x w h. refl;
  persist-failed = λ temp w e h. absurd (ground arith);
  persist-written = λ temp x w h k. refl;
  drop_temp-same = λ temp w h. refl;
}

abbrev helper : Git Disk (Unit {0})
helper = record {
  spawn = λ w. (err other, w);
  has_stdin = λ child. false;
  write_all = λ child x w. (ok tt, w);
  close_stdin = λ child w. w;
  kill = λ child w. w;
  wait = λ child w. (ok false, w);
  url_match = λ url w. err other;
}

abbrev serde : JsonParts (Unit {0})
serde = record {
  empty_object = tt;
  from_slice = λ bytes. none;
  string = λ s. tt;
  set_pointer = λ value key new. none;
  to_vec_pretty = λ value. none;
}

abbrev edit : YamlParts (Unit {0}) (Unit {0}) (Unit {0}) (Unit {0})
edit = record {
  from_str = λ s. none;
  count_documents = λ file. 0;
  document = λ file. none;
  document_mapping = λ doc. none;
  document_get = λ doc key. none;
  node_get = λ node key. none;
  as_mapping = λ node. none;
  as_scalar = λ node. none;
  as_sequence = λ node. none;
  mapping_get = λ mapping key. none;
  set_and_print = λ file mapping key value. [];
}

abbrev prior : Bytes
prior = text "export KEY='old'\nZ=1\n"

abbrev after : Bytes
after = text "export KEY='n\\'1'\nZ=1\n"

abbrev payload : SecretPayload
payload = record { bytes = text "n'1"; kind = plain_text }

abbrev spec : TargetSpec
spec = structured_field path (text "KEY") dot_env

allowed_run : IsKey (text "KEY")
unfolding valid_field_key is_key_byte is_alphanumeric nat_eq ℕ_discrete
allowed_run = refl

render_run : render_key_value files.is_utf8 prior (text "KEY") payload single_quoted ≡ ok after
unfolding render_key_value encode_value replace render_lines rewritten defines candidate quoted_key
    split_inclusive contains_crlf trim_line_end ends_line trim trim_start trim_end trim_front
    starts_with split_once strip_prefix nat_eq ℕ_discrete text_eq
render_run = refl

render_key_value-IsWritten_example : IsWritten (text "KEY") (text "n'1") prior after
render_key_value-IsWritten_example =
    render_key_value-IsWritten files.is_utf8 prior (text "KEY") payload after allowed_run render_run

is_ok-render_key_value_example :
    is_ok (render_key_value (λ bytes. true) prior (text "KEY") payload properties) ≡ (
      true
      && true
      && not (has_line_break (text "n'1"))
      && leb (length (definitions_in properties (text "KEY") prior)) 1)
is_ok-render_key_value_example =
    is_ok-render_key_value (λ bytes. true) prior (text "KEY") payload properties

pointer_parts-pointer_to_example :
    pointer_parts (pointer_to (text "a/b" ∷ text "~1" ∷ [])) ≡ text "a/b" ∷ text "~1" ∷ []
pointer_parts-pointer_to_example = pointer_parts-pointer_to (text "a/b") (text "~1" ∷ []) (λ e. cc)

abbrev start : Disk
start = record { kept = some prior; temp = [] }

abbrev end : Disk
end = record { kept = some after; temp = after }

rendered_run : rendered files helper serde edit (text "/r") spec (some prior) payload ≡ ok after
unfolding rendered render_structured
rendered_run = render_run

valid_run : validate files helper serde edit (text "/r") spec plain_text start ≡ ok tt
unfolding validate validate_spec checked_path check_file file_of starts_with secret_type_eq nat_eq
    ℕ_discrete
valid_run = refl

apply_run :
    apply_with_policy files helper serde edit (text "/r") spec payload alert start ≡ (ok tt, end)
unfolding apply_with_policy apply_valid apply_file checked_path check_file file_of read_existing
    atomic_write fill_temp policy_eq starts_with nat_eq ℕ_discrete
apply_run = ground (arith, valid_run, rendered_run)

file_run : file_of spec ≡ ok (some path)
unfolding file_of
file_run = refl

apply_with_policy-IsWritten_example :
    (existing : Option Bytes) × (out : Bytes) × (read_existing files path start ≡ ok existing)
    × (files.os.read path end ≡ ok out)
    × IsWritten (text "KEY") payload.bytes (unwrap_or_default existing) out
apply_with_policy-IsWritten_example =
    apply_with_policy-IsWritten files helper serde edit (text "/r") path (text "KEY") payload alert
      start end files-IsAtomic allowed_run apply_run

apply_with_policy-Holds_example :
    let (r, w') = apply_with_policy files helper serde edit (text "/r") spec payload alert start in
    ((r ≡ ok tt) × Holds files helper serde edit (text "/r") path spec payload alert start w')
    ⊎ (((e : ErrorCategory) × (r ≡ err e)) × Same files path start w')
apply_with_policy-Holds_example =
    apply_with_policy-Holds files helper serde edit (text "/r") path spec payload alert start
      files-IsAtomic file_run

read_run : read_existing files path start ≡ ok (some prior)
unfolding read_existing
read_run = refl

-- In a `.properties` file, a line of the key `export` gets a second one in front of it.
export_run :
    render_key_value files.is_utf8
      (text "export a\n")
      (text "export")
      (record { bytes = text "v"; kind = plain_text })
      properties
    ≡ ok (text "export export=v\n")
unfolding render_key_value encode_value replace render_lines rewritten defines candidate before
    split_inclusive contains_crlf trim_line_end ends_line trim_start trim_front starts_with nat_eq
    ℕ_discrete text_eq
export_run = refl

-- A blank at the front of a value is written as it is, and a reader of `.properties` drops it.
blank_run : drop_blanks (encode_value properties (text " x")) ≡ text "x"
unfolding drop_blanks encode_value replace nat_eq ℕ_discrete
blank_run = refl
