-- ===== src/BrowserImport.antt =====
-- The import of a browser's export into a vault, src/browser_import.rs. `csv_core`, `serde_json`, the
-- test for UTF-8 and the file are parameters.
pub mod Quotes
pub mod Consent
use tarvaultsync.Prelude.{
  ℕ, suc, ◌+◌, ◌*◌, ◌/◌, ◌%◌, Option, none, some, Bool, true, false, not, ◌&&◌, ◌||◌, List, [], ◌∷◌,
  ◌++◌, ◌==◌, nat_eq, ltb, leb, length, all, any, contains, is_empty, if◌then◌else◌,
}
use tarvaultsync.Prelude.Text.{Text, text, text_eq, strip_prefix}
use tarvaultsync.Prelude.Map.{Map, lookup, insert}
use tarvaultsync.Prelude.Result.{Result, ok, err, map_err, ok_or}
use tarvaultsync.Prelude.Fallible.{◌>>=◌, ◌>>◌, refuse_if}
use tarvaultsync.Core.{Bytes, FilePath, SecretPayload, json}
use tarvaultsync.Core.Labels.{safe_label}
use tarvaultsync.Vault.{VaultParts}
use tarvaultsync.Vault.Source.{Host, is_unlocked, import_entries}

-- The messages
pub data ImportError : Type 0 where
  no_consent vault_locked bad_prefix not_opened not_read bad_file : ImportError
  invalid_csv malformed_quotes incomplete_csv not_imported : ImportError

abbrev pub max_bytes : ℕ
max_bytes = 8 * 1024 * 1024

pub data QuoteState : Type 0 where
  at_start in_plain in_quotes after_quote : QuoteState

abbrev pub is_separator : ℕ → Bool
is_separator c = c == b',' || c == b'\r' || c == b'\n'

-- The `match` of the loop
unfoldable pub next_state : QuoteState → ℕ → Result ImportError QuoteState
unfolding nat_eq
next_state at_start c =
    if c == b'"' then ok in_quotes else if is_separator c then ok at_start else ok in_plain
next_state in_plain c =
    if is_separator c then ok at_start else if c == b'"' then err malformed_quotes else ok in_plain
next_state in_quotes c = if c == b'"' then ok after_quote else ok in_quotes
next_state after_quote c =
    if is_separator c then ok at_start else if c == b'"' then ok in_quotes else err malformed_quotes

unfoldable pub end_state : QuoteState → Result ImportError (Unit {0})
end_state in_quotes = err incomplete_csv
end_state _ = ok tt

unfoldable pub quotes_from : QuoteState → Bytes → Result ImportError (Unit {0})
quotes_from state [] = end_state state
quotes_from state (c ∷ s) = elim (next_state state c) [
  | err e ↦ err e
  | ok state' ↦ quotes_from state' s
]

unfoldable pub strict_quotes : Bytes → Result ImportError (Unit {0})
strict_quotes s = quotes_from at_start s

-- The five columns, `note` being one with `notes`
unfoldable pub column_of : Bytes → Option Text
unfolding text_eq
column_of value =
    if value == text "name"
      || value == text "url"
      || value == text "username"
      || value == text "password"
    then some value
    else if value == text "note" || value == text "notes"
    then some (text "notes")
    else none

unfoldable pub columns_of : List Bytes → List Text → Result ImportError (List Text)
unfolding text_eq
columns_of [] names = ok names
columns_of (value ∷ values) names = elim (column_of value) [
  | none ↦ err invalid_csv
  | some name ↦
      if contains names name then err invalid_csv else columns_of values (names ++ name ∷ [])
]

unfoldable pub header_of : List Bytes → Result ImportError (List Text)
unfolding text_eq
header_of values = do
  names ← columns_of values []
  refuse_if
      (not
        (all (λ name. contains names name) (text "url" ∷ text "username" ∷ text "password" ∷ [])))
      invalid_csv
  ok names

-- `columns.iter().copied().zip(values).collect()`
abbrev pub record_of : List Text → List Bytes → Map Bytes → Map Bytes
record_of [] values m = m
record_of (name ∷ names) [] m = m
record_of (name ∷ names) (value ∷ values) m = record_of names values (insert name value m)

abbrev pub field_is_empty : Text → Map Bytes → Bool
field_is_empty name m = elim (lookup name m) [ none ↦ true | some value ↦ is_empty value ]

-- `format!("{:04}", n)` below 10000
abbrev pub four_digits : ℕ → Text
four_digits n = (48 + n / 1000 % 10) ∷ (48 + n / 100 % 10) ∷ (48 + n / 10 % 10) ∷ (48 + n % 10) ∷ []

pub record CsvParts : Type 0 where
  -- What `read_record` of `csv_core` gives up to the end of the input: the fields of each record, or
  -- `none` where the output or the six ends are full.
  pub read_records : Bytes → List (Option (List Bytes))
  pub is_utf8 : Bytes → Bool
  -- `serde_json::to_writer` of a record
  pub to_json : Map Bytes → Option Bytes

module _ (csv : CsvParts) where
  unfoldable pub entry_of :
      Text → List Text → List Bytes → ℕ → Result ImportError (Text × SecretPayload)
  unfolding nat_eq
  entry_of prefix columns values count = do
    refuse_if (not (length values == length columns) || leb 1000 count) invalid_csv
    refuse_if
        (field_is_empty (text "url") (record_of columns values [])
          || field_is_empty (text "password") (record_of columns values []))
        invalid_csv
    bytes ← ok_or (csv.to_json (record_of columns values [])) invalid_csv
    ok (prefix ++ (b'-' ∷ four_digits (count + 1)), record { bytes = bytes; kind = json })

  -- The loop over the records, behind the header
  unfoldable pub read_entries :
      Text
      → List Text
      → List (Option (List Bytes))
      → List (Text × SecretPayload)
      → Result ImportError (List (Text × SecretPayload))
  read_entries prefix columns [] entries = ok entries
  read_entries prefix columns (none ∷ records) entries = err invalid_csv
  read_entries prefix columns (some values ∷ records) entries =
      refuse_if (not (all csv.is_utf8 values)) invalid_csv >>= λ _.
      entry_of prefix columns values (length entries) >>= λ entry.
      read_entries prefix columns records (entries ++ entry ∷ [])

  unfoldable pub read_table :
      Text → List (Option (List Bytes)) → Result ImportError (List (Text × SecretPayload))
  read_table prefix [] = ok []
  read_table prefix (none ∷ records) = err invalid_csv
  read_table prefix (some values ∷ records) = do
    refuse_if (not (all csv.is_utf8 values)) invalid_csv
    columns ← header_of values
    read_entries prefix columns records []

  abbrev pub without_mark : Bytes → Bytes
  without_mark bytes = elim (strip_prefix (0xEF ∷ 0xBB ∷ 0xBF ∷ []) bytes) [
    | none ↦ bytes
    | some rest ↦ rest
  ]

  unfoldable pub parse : Bytes → Text → Result ImportError (List (Text × SecretPayload))
  parse bytes prefix = do
    refuse_if
        (is_empty bytes
          || ltb max_bytes (length bytes)
          || not (safe_label prefix)
          || ltb 48 (length prefix))
        invalid_csv
    strict_quotes (without_mark bytes)
    entries ← read_table prefix (csv.read_records (without_mark bytes))
    refuse_if (is_empty entries) invalid_csv
    ok entries

-- The selected file: its opening, `is_file` and length, and the bytes read, at most one over the limit
pub record Selected (W : Type 0) : Type 0 where
  pub metadata : FilePath → W → Option (Option (Bool × ℕ))
  pub read_up_to : ℕ → FilePath → W → Option Bytes

module _ {W : Type 0} (csv : CsvParts) (p : VaultParts W) (selected : Selected W) where
  unfoldable pub read_selected : FilePath → W → Result ImportError Bytes
  read_selected path w = elim (selected.metadata path w) [
    | none ↦ err not_opened
    | some none ↦ err not_read
    | some (some (is_file, size)) ↦
        if not is_file || ltb max_bytes size
        then err bad_file
        else ok_or (selected.read_up_to (max_bytes + 1) path w) not_read
  ]

  -- `tries` bounds the draws of a version for each entry.
  unfoldable pub import_parsed :
      ℕ → List (Text × SecretPayload) → Host W → Result ImportError ℕ × Host W
  import_parsed tries entries h =
      let (r, h') = import_entries p tries entries h in
      elim r [ ok _ ↦ (ok (length entries), h') | err _ ↦ (err not_imported, h') ]

  unfoldable pub import_file : ℕ → FilePath → Text → Bool → Host W → Result ImportError ℕ × Host W
  import_file tries path prefix consent h =
      if not consent
      then (err no_consent, h)
      else let (unlocked, h') = is_unlocked p h in
        if not unlocked
        then (err vault_locked, h')
        else if not (safe_label prefix) || ltb 48 (length prefix)
        then (err bad_prefix, h')
        else elim (read_selected path h'.world >>= λ bytes. parse csv bytes prefix) [
          | err e ↦ (err e, h')
          | ok entries ↦ import_parsed tries entries h'
        ]
