-- ===== src/Targets/KeyValue/Values.antt =====
-- The value of a line that `render_key_value` of src/targets.rs writes, read back.
use tarvaultsync.Prelude.{
  ◌≡◌, refl, ◌∙◌, sym, ap, inl, inr, Option, none, some, true, not, [], ◌∷◌, ◌++◌, ◌==◌, nat_eq,
  ℕ_discrete, if◌then◌else◌, all, arith,
}
use mathlib.Core.List.{append_assoc}
use tarvaultsync.Prelude.Text.{text_eq, split_once}
use tarvaultsync.Core.{Bytes}
use tarvaultsync.Core.Validation.{is_key_byte}
use tarvaultsync.Targets.KeyValue.{single_quoted, encode_value}
use tarvaultsync.Targets.KeyValue.Escape.{read_quoted, read_quoted-encode_value, all-append}
use tarvaultsync.Targets.KeyValue.Keys.{IsKey, IsPrefix, assignment, key_bytes, key_ne_equal}

-- The value of a line `key='value'`, with nothing behind the closing quote
abbrev pub whole_value : Option (Bytes × Bytes) → Option Bytes
whole_value none = none
whole_value (some (v, [])) = some v
whole_value (some (v, c ∷ rest)) = none

abbrev pub open_value : Option (Bytes × Bytes) → Option Bytes
open_value none = none
open_value (some (k, [])) = none
open_value (some (k, c ∷ q)) =
    let value = whole_value (read_quoted q) in if c == b'\'' then value else none

unfoldable pub value_of : Bytes → Option Bytes
unfolding nat_eq
value_of body = open_value (split_once b'=' body)

split_once-free :
    (s rest : Bytes)
    → all (λ c. not (c == b'=')) s ≡ true
    → split_once b'=' (s ++ (b'=' ∷ rest)) ≡ some (s, rest)
unfolding split_once
split_once-free [] rest h = unfold nat_eq ℕ_discrete in refl
split_once-free (c ∷ s) rest h = ground (arith, split_once-free s rest)

key_free : (s : Bytes) → all is_key_byte s ≡ true → all (λ c. not (c == b'=')) s ≡ true
key_free [] h = refl
key_free (c ∷ s) h = ground (arith, key_ne_equal c, key_free s)

prefix_free : (q : Bytes) → IsPrefix q → all (λ c. not (c == b'=')) q ≡ true
unfolding nat_eq ℕ_discrete
prefix_free q (inl e) = rw e refl
prefix_free q (inr e) = rw e refl

open_value-quoted :
    (k q v : Bytes) → read_quoted q ≡ some (v, []) → open_value (some (k, b'\'' ∷ q)) ≡ some v
unfolding nat_eq ℕ_discrete
open_value-quoted k q v h = rw h refl

-- A line that is written reads back to its value.
pub value_of-assignment :
    (q key v : Bytes)
    → IsPrefix q
    → IsKey key
    → value_of (q ++ assignment key (encode_value single_quoted v)) ≡ some v
unfolding value_of
value_of-assignment q key v p k =
    let (inner, e, r) = read_quoted-encode_value v in
    let free : all (λ c. not (c == b'=')) (q ++ key) ≡ true =
      all-append (λ c. not (c == b'=')) q key
      ∙ rw (prefix_free q p) (key_free key (key_bytes key k)) in
    ap (λ s. open_value (split_once b'=' s))
      (sym (append_assoc q key (b'=' ∷ encode_value single_quoted v)))
    ∙ ap open_value (split_once-free (q ++ key) (encode_value single_quoted v) free)
    ∙ ap (λ s. open_value (some (q ++ key, s))) e
    ∙ open_value-quoted (q ++ key) inner v r
