-- ===== src/Targets/KeyValue/Keys.antt =====
-- The key of a line `key=…` that src/targets.rs writes.
use tarvaultsync.Prelude.{
  ℕ, ◌≡◌, refl, ◌≢◌, ◌∙◌, ap, inl, inr, ◌⊎◌, none, some, Bool, true, false, not, ◌&&◌, ◌||◌, [],
  ◌∷◌, ◌++◌, ◌==◌, nat_eq, ℕ_discrete, all, leb, arith,
}
use mathlib.Core.List.{reverse, reverse-append, reverse-reverse}
use tarvaultsync.Prelude.Text.{Text, text, text_eq, split_once, strip_prefix, is_alphanumeric}
use tarvaultsync.Core.{Bytes, dot_env}
use tarvaultsync.Core.Validation.{is_key_byte, valid_field_key}
use tarvaultsync.Targets.Spaces.{
  is_space, is_space_2, is_space_3, trim_front, trim_start, trim_end, trim,
}
use tarvaultsync.Targets.KeyValue.{single_quoted, candidate, or_whole, trimmed_key, quoted_key}
use tarvaultsync.Targets.KeyValue.Escape.{is_clean, all-append}

trim_front-id :
    (two : ℕ → ℕ → Bool) (three : ℕ → ℕ → ℕ → Bool) (c : ℕ) (s : Bytes)
    → is_space c ≡ false
    → ((b : ℕ) → two c b ≡ false)
    → ((b d : ℕ) → three c b d ≡ false)
    → trim_front two three (c ∷ s) ≡ c ∷ s
unfolding trim_front
trim_front-id two three c [] h p q = ground arith
trim_front-id two three c (b ∷ []) h p q = ground (arith, p b)
trim_front-id two three c (b ∷ d ∷ s) h p q = ground (arith, p b, q b d)

key_space : (c : ℕ) → is_key_byte c ≡ true → is_space c ≡ false
unfolding is_key_byte is_alphanumeric nat_eq
key_space c h = ground arith

trim_start-key : (c : ℕ) (s : Bytes) → is_key_byte c ≡ true → trim_start (c ∷ s) ≡ c ∷ s
unfolding trim_start is_key_byte is_alphanumeric nat_eq
trim_start-key c s h =
    trim_front-id is_space_2 is_space_3 c s (key_space c h) (λ b. ground arith)
      (λ b d. ground arith)

key_space_2 : (c b : ℕ) → is_key_byte c ≡ true → is_space_2 b c ≡ false
unfolding is_key_byte is_alphanumeric nat_eq
key_space_2 c b h = ground arith

-- A key byte is none of the third bytes of a space.
abbrev is_third : ℕ → Bool
is_third c =
    c == 0x80 || ((leb 0x80 c && leb c 0x8A) || c == 0xA8 || c == 0xA9 || c == 0xAF) || c == 0x9F

key_third : (c : ℕ) → is_key_byte c ≡ true → is_third c ≡ false
unfolding is_key_byte is_alphanumeric nat_eq
key_third c h = ground arith

third_false :
    (x1 x2 y1 y2 z1 z2 u1 u2 c1 c2 c3 : Bool)
    → (c1 || c2 || c3) ≡ false
    → ((x1 && x2 && c1) || (y1 && y2 && c2) || (z1 && z2 && c3) || (u1 && u2 && c1)) ≡ false
third_false x1 x2 y1 y2 z1 z2 u1 u2 c1 c2 c3 h = ground arith

key_space_3 : (c b a : ℕ) → is_key_byte c ≡ true → is_space_3 a b c ≡ false
key_space_3 c b a h =
    third_false (a == 0xE1) (b == 0x9A) (a == 0xE2) (b == 0x80) (a == 0xE2) (b == 0x81) (a == 0xE3)
      (b == 0x80) (c == 0x80) ((leb 0x80 c && leb c 0x8A) || c == 0xA8 || c == 0xA9 || c == 0xAF)
      (c == 0x9F) (key_third c h)

pub all-reverse : (p : ℕ → Bool) (s : Bytes) → all p s ≡ true → all p (reverse s) ≡ true
all-reverse p [] h = refl
all-reverse p (c ∷ s) h =
    rw (reverse-append (c ∷ []) s)
      (all-append p (reverse s) (c ∷ []) ∙ ground (arith, all-reverse p s))

pub key_ne_equal : (c : ℕ) → is_key_byte c ≡ true → (c == b'=') ≡ false
unfolding is_key_byte is_alphanumeric nat_eq
key_ne_equal c h = ground arith

equal_ne_key : (c : ℕ) → is_key_byte c ≡ true → (b'=' == c) ≡ false
unfolding is_key_byte is_alphanumeric nat_eq
equal_ne_key c h = ground arith

space_ne_key : (c : ℕ) → is_key_byte c ≡ true → (b' ' == c) ≡ false
unfolding is_key_byte is_alphanumeric nat_eq
space_ne_key c h = ground arith

key_clean : (c : ℕ) → is_key_byte c ≡ true → is_clean c ≡ true
unfolding is_key_byte is_alphanumeric nat_eq
key_clean c h = ground arith

pub keys_clean : (s : Bytes) → all is_key_byte s ≡ true → all is_clean s ≡ true
keys_clean [] h = refl
keys_clean (c ∷ s) h = ground (arith, key_clean c, keys_clean s)

trim_back-key :
    (s : Bytes)
    → all is_key_byte s ≡ true
    → trim_front (λ b a. is_space_2 a b) (λ c b a. is_space_3 a b c) s ≡ s
trim_back-key [] h = unfold trim_front in refl
trim_back-key (c ∷ s) h =
    trim_front-id (λ b a. is_space_2 a b) (λ c b a. is_space_3 a b c) c s
      (key_space c (ground arith)) (λ b. key_space_2 c b (ground arith))
      (λ b d. key_space_3 c b d (ground arith))

trim_end-key : (s : Bytes) → all is_key_byte s ≡ true → trim_end s ≡ s
unfolding trim_end
trim_end-key s h =
    ap reverse (trim_back-key (reverse s) (all-reverse is_key_byte s h)) ∙ reverse-reverse s

trim-key : (s : Bytes) → all is_key_byte s ≡ true → trim s ≡ s
unfolding trim
trim-key [] h = unfold trim_start trim_end trim_front in refl
trim-key (c ∷ s) h = rw (trim_start-key c s (ground arith)) (trim_end-key (c ∷ s) h)

split_once-key :
    (key rest : Bytes)
    → all is_key_byte key ≡ true
    → split_once b'=' (key ++ (b'=' ∷ rest)) ≡ some (key, rest)
unfolding split_once
split_once-key [] rest h = unfold nat_eq ℕ_discrete in refl
split_once-key (c ∷ key) rest h = ground (arith, key_ne_equal c, split_once-key key rest)

-- No key starts with `export` and a space.
strip_prefix-key :
    (word key rest : Bytes)
    → all (λ c. not (c == b'=')) word ≡ true
    → all is_key_byte key ≡ true
    → strip_prefix (word ++ text " ") (key ++ (b'=' ∷ rest)) ≡ none
unfolding strip_prefix
strip_prefix-key [] [] rest w h = unfold nat_eq ℕ_discrete in refl
strip_prefix-key [] (c ∷ key) rest w h = ground (arith, space_ne_key c)
strip_prefix-key (d ∷ word) [] rest w h = ground arith
strip_prefix-key (d ∷ word) (c ∷ key) rest w h = ground (arith, strip_prefix-key word key rest)

export_ne_equal : all (λ c. not (c == b'=')) (text "export") ≡ true
unfolding nat_eq ℕ_discrete
export_ne_equal = refl

e_key : is_key_byte b'e' ≡ true
unfolding is_key_byte is_alphanumeric nat_eq ℕ_discrete
e_key = refl

strip_prefix_self : (s t : Bytes) → strip_prefix s (s ++ t) ≡ some t
unfolding strip_prefix
strip_prefix_self [] t = refl
strip_prefix_self (c ∷ s) t = ground (arith, strip_prefix_self s t)

-- The line as it stands behind an `export`, or with none
abbrev pub assignment : Text → Bytes → Bytes
assignment key encoded = key ++ (b'=' ∷ encoded)

-- A key that `validate_config` lets through
abbrev pub IsKey : Text → Type 0
IsKey key = valid_field_key key dot_env ≡ true

pub key_bytes : (key : Text) → IsKey key → all is_key_byte key ≡ true
unfolding valid_field_key
key_bytes key h = ground arith

key_ne_nil : (key : Text) → IsKey key → key ≢ []
unfolding valid_field_key
key_ne_nil [] h e = cc
key_ne_nil (c ∷ key) h e = ground arith

-- What follows the optional `export`
quoted_key-bare :
    (key rest : Bytes) → all is_key_byte key ≡ true → quoted_key (assignment key rest) ≡ some key
unfolding quoted_key
quoted_key-bare key rest h =
    ap (λ o. trimmed_key (split_once b'=' (or_whole (assignment key rest) o)))
      (strip_prefix-key (text "export") key rest export_ne_equal h)
    ∙ ap trimmed_key (split_once-key key rest h)
    ∙ ap some (trim-key key h)

quoted_key-export :
    (key rest : Bytes)
    → all is_key_byte key ≡ true
    → quoted_key (text "export " ++ assignment key rest) ≡ some key
unfolding quoted_key
quoted_key-export key rest h =
    ap (λ o. trimmed_key (split_once b'=' (or_whole (text "export " ++ assignment key rest) o)))
      (strip_prefix_self (text "export ") (assignment key rest))
    ∙ ap trimmed_key (split_once-key key rest h)
    ∙ ap some (trim-key key h)

-- The optional `export`
abbrev pub IsPrefix : Bytes → Type 0
IsPrefix s = (s ≡ []) ⊎ (s ≡ text "export ")

-- An assignment, with `export` or not, has its key.
pub candidate-assignment :
    (p key rest : Bytes)
    → IsPrefix p
    → IsKey key
    → candidate single_quoted (p ++ assignment key rest) ≡ some key
unfolding candidate
candidate-assignment p [] rest e k = absurd (key_ne_nil [] k refl)
candidate-assignment p (c ∷ key) rest (inl e) k =
    let h = key_bytes (c ∷ key) k in
    rw e (
      ap quoted_key (trim_start-key c (key ++ (b'=' ∷ rest)) (ground arith))
      ∙ quoted_key-bare (c ∷ key) rest h)
candidate-assignment p (c ∷ key) rest (inr e) k =
    let h = key_bytes (c ∷ key) k in
    rw e (
      ap quoted_key (trim_start-key b'e' (text "xport " ++ assignment (c ∷ key) rest) e_key)
      ∙ quoted_key-export (c ∷ key) rest h)
