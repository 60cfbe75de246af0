-- ===== src/Targets/KeyValue/Escape.antt =====
-- The values that src/targets.rs writes, read back.
use tarvaultsync.Prelude.{
  ℕ, ◌≡◌, refl, ◌∙◌, ap, Option, none, some, Bool, true, false, not, ◌&&◌, ◌||◌, [], ◌∷◌, ◌++◌,
  ◌==◌, nat_eq, ℕ_discrete, all, if◌then◌else◌, arith, Bool-cases, inl, inr,
}
use tarvaultsync.Prelude.Text.{text}
use tarvaultsync.Core.{Bytes}
use tarvaultsync.Targets.KeyValue.{
  KeyValueStyle, single_quoted, properties, replace, encode_value, has_line_break,
}

-- A reader of single quotes: the value up to the closing quote, a backslash before a byte standing
-- for that byte, and the text behind the quote.
abbrev pub cons_value : ℕ → Option (Bytes × Bytes) → Option (Bytes × Bytes)
cons_value c none = none
cons_value c (some (v, rest)) = some (c ∷ v, rest)

unfoldable pub read_quoted : Bytes → Option (Bytes × Bytes)
unfolding nat_eq
read_quoted [] = none
read_quoted (c ∷ []) = if c == b'\'' then some ([], []) else none
read_quoted (c ∷ d ∷ s) =
    let escaped = cons_value d (read_quoted s) in
    let plain = cons_value c (read_quoted (d ∷ s)) in
    if c == b'\'' then some ([], d ∷ s) else if c == b'\\' then escaped else plain

-- A reader of `.properties`: blanks at the front go, and a backslash before a byte stands for it.
unfoldable pub unescape : Bytes → Bytes
unfolding nat_eq
unescape [] = []
unescape (c ∷ []) = c ∷ []
unescape (c ∷ d ∷ s) =
    let escaped = d ∷ unescape s in
    let plain = c ∷ unescape (d ∷ s) in if c == b'\\' then escaped else plain

unfoldable pub drop_blanks : Bytes → Bytes
unfolding nat_eq
drop_blanks [] = []
drop_blanks (c ∷ s) =
    let rest = drop_blanks s in if c == b' ' || c == b'\t' || c == 12 then rest else c ∷ s

-- The escapes of one byte, for the bytes that have one
unfoldable escape : (ℕ → Bool) → Bytes → Bytes
escape special [] = []
escape special (c ∷ s) = if special c then b'\\' ∷ c ∷ escape special s else c ∷ escape special s

abbrev in_quotes : ℕ → Bool
in_quotes c = c == b'\\' || c == b'\''

abbrev in_properties : ℕ → Bool
in_properties c = c == b'\\' || c == b'=' || c == b':'

replace-quotes :
    (v : Bytes) → replace b'\'' (text "\\'") (replace b'\\' (text "\\\\") v) ≡ escape in_quotes v
unfolding replace escape nat_eq
replace-quotes [] = refl
replace-quotes (c ∷ v) = ground (arith, replace-quotes v)

replace-properties :
    (v : Bytes)
    → replace b':' (text "\\:") (replace b'=' (text "\\=") (replace b'\\' (text "\\\\") v))
      ≡ escape in_properties v
unfolding replace escape nat_eq
replace-properties [] = refl
replace-properties (c ∷ v) = ground (arith, replace-properties v)

read_quoted-plain :
    (c : ℕ) (s : Bytes) → in_quotes c ≡ false → read_quoted (c ∷ s) ≡ cons_value c (read_quoted s)
unfolding read_quoted nat_eq
read_quoted-plain c [] h = ground arith
read_quoted-plain c (d ∷ s) h = ground arith

read_quoted-escaped :
    (c : ℕ) (s : Bytes) → read_quoted (b'\\' ∷ c ∷ s) ≡ cons_value c (read_quoted s)
unfolding read_quoted nat_eq ℕ_discrete
read_quoted-escaped c s = refl

read_quoted-escape :
    (v rest : Bytes) → read_quoted (escape in_quotes v ++ (b'\'' ∷ rest)) ≡ some (v, rest)
unfolding escape nat_eq
read_quoted-escape [] [] = unfold read_quoted in refl
read_quoted-escape [] (c ∷ rest) = unfold read_quoted in refl
read_quoted-escape (c ∷ v) rest = elim (Bool-cases (in_quotes c)) [
  | inl h ↦ rw h (
      read_quoted-escaped c (escape in_quotes v ++ (b'\'' ∷ rest))
      ∙ ap (cons_value c) (read_quoted-escape v rest))
  | inr h ↦ rw h (
      read_quoted-plain c (escape in_quotes v ++ (b'\'' ∷ rest)) h
      ∙ ap (cons_value c) (read_quoted-escape v rest))
]

unescape-plain : (c : ℕ) (s : Bytes) → in_properties c ≡ false → unescape (c ∷ s) ≡ c ∷ unescape s
unfolding unescape nat_eq
unescape-plain c [] h = refl
unescape-plain c (d ∷ s) h = ground arith

unescape-escaped : (c : ℕ) (s : Bytes) → unescape (b'\\' ∷ c ∷ s) ≡ c ∷ unescape s
unfolding unescape nat_eq ℕ_discrete
unescape-escaped c s = refl

unescape-escape : (v : Bytes) → unescape (escape in_properties v) ≡ v
unfolding escape nat_eq
unescape-escape [] = unfold unescape in refl
unescape-escape (c ∷ v) = elim (Bool-cases (in_properties c)) [
  | inl h ↦ rw h (unescape-escaped c (escape in_properties v) ∙ ap (λ s. c ∷ s) (unescape-escape v))
  | inr h ↦ rw h (unescape-plain c (escape in_properties v) h ∙ ap (λ s. c ∷ s) (unescape-escape v))
]

-- The single-quoted form reads back to the value, with nothing left over.
pub read_quoted-encode_value :
    (v : Bytes)
    → (q : Bytes) × (encode_value single_quoted v ≡ b'\'' ∷ q) × (read_quoted q ≡ some (v, []))
unfolding encode_value
read_quoted-encode_value v = (
  replace b'\'' (text "\\'") (replace b'\\' (text "\\\\") v) ++ text "'",
  refl,
  rw (replace-quotes v) (read_quoted-escape v []),
)

pub unescape-encode_value : (v : Bytes) → unescape (encode_value properties v) ≡ v
unfolding encode_value
unescape-encode_value v = rw (replace-properties v) (unescape-escape v)

-- Neither form breaks a line that the value does not break.
abbrev pub is_clean : ℕ → Bool
is_clean c = not (c == b'\r') && not (c == b'\n')

pub all-append : (p : ℕ → Bool) (xs ys : Bytes) → all p (xs ++ ys) ≡ (all p xs && all p ys)
all-append p [] ys = refl
all-append p (x ∷ xs) ys = ground (arith, all-append p xs ys)

escape-clean :
    (special : ℕ → Bool) (v : Bytes)
    → all is_clean v ≡ true
    → all is_clean (escape special v) ≡ true
unfolding escape nat_eq
escape-clean special [] h = refl
escape-clean special (c ∷ v) h = ground (arith, escape-clean special v)

clean_value : (v : Bytes) → has_line_break v ≡ false → all is_clean v ≡ true
unfolding nat_eq
clean_value [] h = refl
clean_value (c ∷ v) h = ground (arith, clean_value v)

pub encode_value-clean :
    (style : KeyValueStyle) (v : Bytes)
    → has_line_break v ≡ false
    → all is_clean (encode_value style v) ≡ true
unfolding encode_value nat_eq ℕ_discrete
encode_value-clean single_quoted v h =
    let inner = escape-clean in_quotes v (clean_value v h) in
    let whole : all is_clean (escape in_quotes v ++ text "'") ≡ true =
      all-append is_clean (escape in_quotes v) (text "'") ∙ rw inner refl in
    rw (replace-quotes v) whole
encode_value-clean properties v h =
    rw (replace-properties v) (escape-clean in_properties v (clean_value v h))
