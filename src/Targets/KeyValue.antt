-- ===== src/Targets/KeyValue.antt =====
-- `render_key_value` of src/targets.rs: one key of a file of lines `key=value`.
pub mod Escape
pub mod Lines
pub mod Keys
pub mod Render
pub mod Changed
pub mod Values
pub mod Appended
pub mod Written
pub mod Laws
use tarvaultsync.Prelude.{
  ℕ, Option, none, some, Bool, true, false, not, ◌&&◌, ◌||◌, List, [], ◌∷◌, ◌++◌, ◌==◌, nat_eq, any,
  contains, is_empty, if◌then◌else◌,
}
use tarvaultsync.Prelude.Text.{Text, text, text_eq, starts_with, split_once, strip_prefix}
use tarvaultsync.Prelude.Result.{Result, ok, err}
use tarvaultsync.Core.{Bytes, SecretPayload, ErrorCategory, target_error}
use tarvaultsync.Targets.Spaces.{is_space, trim_start, trim}

pub data KeyValueStyle : Type 0 where
  single_quoted properties : KeyValueStyle

-- `str::replace` of one byte
unfoldable pub replace : ℕ → Bytes → Bytes → Bytes
unfolding nat_eq
replace b with [] = []
replace b with (c ∷ s) = if c == b then with ++ replace b with s else c ∷ replace b with s

unfoldable pub encode_value : KeyValueStyle → Bytes → Bytes
encode_value single_quoted value =
    b'\'' ∷ (replace b'\'' (text "\\'") (replace b'\\' (text "\\\\") value) ++ text "'")
encode_value properties value =
    replace b':' (text "\\:") (replace b'=' (text "\\=") (replace b'\\' (text "\\\\") value))

-- `split_inclusive('\n')`
abbrev pub cons_line : ℕ → List Bytes → List Bytes
cons_line c [] = (c ∷ []) ∷ []
cons_line c (l ∷ ls) = (c ∷ l) ∷ ls

unfoldable pub split_inclusive : Bytes → List Bytes
unfolding nat_eq
split_inclusive [] = []
split_inclusive (c ∷ s) =
    let rest = split_inclusive s in if c == b'\n' then (c ∷ []) ∷ rest else cons_line c rest

-- `contains("\r\n")`
unfoldable pub contains_crlf : Bytes → Bool
unfolding starts_with
contains_crlf [] = false
contains_crlf (c ∷ s) = starts_with (c ∷ s) (text "\r\n") || contains_crlf s

-- `trim_end_matches(['\r', '\n'])`
unfoldable pub trim_line_end : Bytes → Bytes
unfolding nat_eq
trim_line_end [] = []
trim_line_end (c ∷ s) =
    let rest = trim_line_end s in
    if is_empty rest && (c == b'\r' || c == b'\n') then [] else c ∷ rest

-- `ends_with('\n')`
unfoldable pub ends_line : Bytes → Bool
unfolding nat_eq
ends_line [] = false
ends_line (c ∷ []) = c == b'\n'
ends_line (c ∷ d ∷ s) = ends_line (d ∷ s)

-- `find` of a character, and the text before it
unfoldable pub before : (ℕ → Bool) → Bytes → Option Bytes
before p [] = none
before p (c ∷ s) =
    let rest = before p s in
    if p c then some [] else elim rest [ none ↦ none | some k ↦ some (c ∷ k) ]

-- `is_ascii_whitespace` is the five characters that it names: tab, line feed, form feed, carriage
-- return, space.
abbrev pub ends_key : ℕ → Bool
ends_key c = c == b'=' || c == b':' || (c == 9 || c == 10 || c == 12 || c == 13 || c == 32)

abbrev pub or_whole : Bytes → Option Bytes → Bytes
or_whole s none = s
or_whole s (some t) = t

abbrev pub trimmed_key : Option (Bytes × Bytes) → Option Bytes
trimmed_key none = none
trimmed_key (some (k, _)) = some (trim k)

-- The key before an equals sign, and behind an `export`
unfoldable pub quoted_key : Bytes → Option Bytes
quoted_key trimmed =
    trimmed_key (split_once b'=' (or_whole trimmed (strip_prefix (text "export ") trimmed)))

-- The key of a line, without its end
unfoldable pub candidate : KeyValueStyle → Bytes → Option Bytes
unfolding nat_eq
candidate properties body =
    let trimmed = trim_start body in
    if starts_with trimmed (text "#") || starts_with trimmed (text "!")
    then none
    else before ends_key trimmed
candidate single_quoted body = quoted_key (trim_start body)

-- `candidate == Some(key)`
abbrev pub is_candidate : Option Bytes → Text → Bool
is_candidate none key = false
is_candidate (some k) key = k == key

unfoldable pub defines : KeyValueStyle → Text → Bytes → Bool
defines style key line = is_candidate (candidate style (trim_line_end line)) key

-- What takes the place of a line that has the key
unfoldable pub rewritten : Text → Bytes → Bytes → Bytes → Bytes
rewritten key encoded newline line =
    (if starts_with (trim_start (trim_line_end line)) (text "export ") then text "export " else [])
    ++ (key ++ (b'=' ∷ (encoded ++ (if ends_line line then newline else []))))

-- The loop over the lines, with `found` and `out`
unfoldable pub render_lines :
    KeyValueStyle
    → Text
    → Bytes
    → Bytes
    → List Bytes
    → Bool
    → Bytes
    → Result ErrorCategory (Bool × Bytes)
render_lines style key encoded newline [] found out = ok (found, out)
render_lines style key encoded newline (line ∷ lines) found out =
    let replaced =
      render_lines style key encoded newline lines true
        (out ++ rewritten key encoded newline line) in
    let kept = render_lines style key encoded newline lines found (out ++ line) in
    if defines style key line then (if found then err target_error else replaced) else kept

-- `if !found` at the end
unfoldable pub appended : Text → Bytes → Bytes → Bytes → Bytes
appended key encoded newline out =
    (if not (is_empty out) && not (ends_line out) then out ++ newline else out)
    ++ (key ++ (b'=' ∷ (encoded ++ newline)))

abbrev pub newline_of : Bytes → Bytes
newline_of source = if contains_crlf source then text "\r\n" else text "\n"

abbrev pub has_line_break : Bytes → Bool
has_line_break value = any (λ b. b == b'\r' || b == b'\n' || b == 0) value

-- `is_utf8` is whether `std::str::from_utf8` succeeds.
unfoldable pub render_key_value :
    (Bytes → Bool) → Bytes → Text → SecretPayload → KeyValueStyle → Result ErrorCategory Bytes
unfolding nat_eq
render_key_value is_utf8 prior key payload style =
    let encoded = encode_value style payload.bytes in
    let newline = newline_of prior in
    if not (is_utf8 prior) || not (is_utf8 payload.bytes) || has_line_break payload.bytes
    then err target_error
    else elim (render_lines style key encoded newline (split_inclusive prior) false []) [
      | err e ↦ err e
      | ok (true, out) ↦ ok out
      | ok (false, out) ↦ ok (appended key encoded newline out)
    ]
