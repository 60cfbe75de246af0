-- ===== src/Targets/Documents.antt =====
-- The documents that src/targets.rs edits: `render_structured`, `render_yaml_text`, `render_compose`
-- and `validate_env_file_relation`. `serde_json` and `yaml_edit` are parameters.
pub mod Pointers
use tarvaultsync.Prelude.{
  ℕ, suc, ◌+◌, Option, none, some, Bool, true, false, not, ◌&&◌, ◌||◌, List, [], ◌∷◌, ◌++◌, map,
  ◌==◌, nat_eq, any, contains, is_empty, if◌then◌else◌,
}
use tarvaultsync.Prelude.Text.{Text, text, text_eq, split, split_once}
use tarvaultsync.Prelude.Result.{Result, ok, err, map_err, ok_or}
use tarvaultsync.Prelude.Fallible.{◌>>=◌, ◌>>◌, refuse_if}
use tarvaultsync.Core.{
  Bytes, FilePath, SecretType, json, secret_type_eq, SecretPayload, StructuredFormat, dot_env,
  json_document, yaml, properties, ErrorCategory, target_error, invalid_config,
}
use tarvaultsync.Core.Os.{Os}
use tarvaultsync.Targets.KeyValue.{
  single_quoted, properties as properties_style, replace, has_line_break, render_key_value,
}

-- `serde_json` at `serde_json::Value`
pub record JsonParts (Value : Type 0) : Type 0 where
  pub empty_object : Value
  -- `from_slice` and `from_str`
  pub from_slice : Bytes → Option Value
  pub string : Text → Value
  -- `*value.pointer_mut(key)? = replacement`
  pub set_pointer : Value → Text → Value → Option Value
  pub to_vec_pretty : Value → Option Bytes

-- `yaml_edit` at `YamlFile`, its document, mappings and nodes
pub record YamlParts (File Document Mapping Node : Type 0) : Type 0 where
  pub from_str : Text → Option File
  pub count_documents : File → ℕ
  pub document : File → Option Document
  pub document_mapping : Document → Option Mapping
  pub document_get : Document → Text → Option Node
  pub node_get : Node → Text → Option Node
  pub as_mapping : Node → Option Mapping
  pub as_scalar : Node → Option Text
  pub as_sequence : Node → Option (List Node)
  pub mapping_get : Mapping → Text → Option Node
  -- `mapping.set(key, value)`, and then `file.to_string()`
  pub set_and_print : File → Mapping → Text → Text → Text

-- `replace` of two bytes by one
unfoldable pub replace_pair : ℕ → ℕ → ℕ → Text → Text
unfolding nat_eq
replace_pair a b with [] = []
replace_pair a b with (c ∷ []) = c ∷ []
replace_pair a b with (c ∷ d ∷ s) =
    let found = with ∷ replace_pair a b with s in
    let kept = c ∷ replace_pair a b with (d ∷ s) in if c == a && d == b then found else kept

unfoldable pub unescape_pointer : Text → Text
unescape_pointer s = replace_pair b'~' b'0' b'~' (replace_pair b'~' b'1' b'/' s)

-- `trim_start_matches('/')`
unfoldable pub trim_slashes : Text → Text
unfolding nat_eq
trim_slashes [] = []
trim_slashes (c ∷ s) = let rest = trim_slashes s in if c == b'/' then rest else c ∷ s

unfoldable pub pointer_parts : Text → List Text
pointer_parts pointer = map unescape_pointer (split b'/' (trim_slashes pointer))

abbrev pub and_then : {A B : Type 0} → Option A → (A → Option B) → Option B
and_then none f = none
and_then (some a) f = f a

abbrev pub is_none : {A : Type 0} → Option A → Bool
is_none none = true
is_none (some a) = false

module _ {File Document Mapping Node : Type 0} (edit : YamlParts File Document Mapping Node) where
  -- The loop over all parts but the last, and that one
  unfoldable pub descend : Mapping → Text → List Text → Result ErrorCategory (Mapping × Text)
  descend mapping part [] = ok (mapping, part)
  descend mapping part (next ∷ rest) =
      ok_or (and_then (edit.mapping_get mapping part) edit.as_mapping) target_error >>= λ inner.
      descend inner next rest

  unfoldable pub find_field : Mapping → List Text → Result ErrorCategory (Mapping × Text)
  find_field root [] = err invalid_config
  find_field root (part ∷ rest) = descend root part rest

  unfoldable pub render_yaml_text : Text → Text → Text → Result ErrorCategory Bytes
  unfolding nat_eq
  render_yaml_text source pointer value = do
    refuse_if (has_line_break value) target_error
    file ← ok_or (edit.from_str source) target_error
    refuse_if (not (edit.count_documents file == 1)) target_error
    doc ← ok_or (edit.document file) target_error
    refuse_if (is_empty (pointer_parts pointer) || any is_empty (pointer_parts pointer))
        invalid_config
    root ← ok_or (edit.document_mapping doc) target_error
    (mapping, last) ← find_field root (pointer_parts pointer)
    refuse_if (is_none (edit.mapping_get mapping last)) target_error
    ok (edit.set_and_print file mapping last value)

  module _ (is_utf8 : Bytes → Bool) where
    unfoldable pub render_yaml : Bytes → Text → SecretPayload → Result ErrorCategory Bytes
    render_yaml prior pointer payload = do
      refuse_if (not (is_utf8 prior)) target_error
      refuse_if (not (is_utf8 payload.bytes)) target_error
      render_yaml_text prior pointer payload.bytes

    unfoldable pub compose_pointer : Text → Text → Text
    compose_pointer service variable =
        text "/services/" ++ (service ++ (text "/environment/" ++ variable))

    unfoldable pub render_compose : Bytes → Text → SecretPayload → Result ErrorCategory Bytes
    render_compose prior key payload = do
      (service, variable) ← ok_or (split_once b':' key) invalid_config
      refuse_if (not (is_utf8 prior)) target_error
      refuse_if (not (is_utf8 payload.bytes)) target_error
      render_yaml_text prior (compose_pointer service variable)
          (replace b'$' (text "$$") payload.bytes)

    module _ {Value : Type 0} (serde : JsonParts Value) where
      unfoldable pub render_json : Bytes → Text → SecretPayload → Result ErrorCategory Bytes
      unfolding secret_type_eq
      render_json prior key payload = do
        value ←
            if is_empty prior
            then ok serde.empty_object
            else ok_or (serde.from_slice prior) target_error
        refuse_if (not (is_utf8 payload.bytes)) target_error
        replacement ←
            if payload.kind == json
            then ok_or (serde.from_slice payload.bytes) target_error
            else ok (serde.string payload.bytes)
        replaced ← ok_or (serde.set_pointer value key replacement) target_error
        ok_or (serde.to_vec_pretty replaced) target_error

      unfoldable pub render_structured :
          Bytes → Text → StructuredFormat → SecretPayload → Result ErrorCategory Bytes
      render_structured prior key dot_env payload =
          render_key_value is_utf8 prior key payload single_quoted
      render_structured prior key properties payload =
          render_key_value is_utf8 prior key payload properties_style
      render_structured prior key json_document payload = render_json prior key payload
      render_structured prior key yaml payload = render_yaml prior key payload
