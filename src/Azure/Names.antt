-- ===== src/Azure/Names.antt =====
-- `valid_source` and `valid_version` of src/azure.rs: the names that may stand in a URL.
use tarvaultsync.Prelude.{ℕ, ◌≡◌, refl, arith, true, Bool, false, not, ◌&&◌, ◌||◌, [], ◌∷◌}
use tarvaultsync.Prelude.{all, length, leb, ◌==◌, nat_eq}
use tarvaultsync.Prelude.Text.{Text, text, text_eq, is_alphanumeric, starts_with}
use tarvaultsync.Core.Labels.{safe_version, is_label_byte}
use tarvaultsync.Core.{SourceRef, azure, store_eq}

-- `u8::is_ascii_alphabetic` and `u8::is_ascii_hexdigit`
is_alphabetic : ℕ → Bool
is_alphabetic b = (leb b'A' b && leb b b'Z') || (leb b'a' b && leb b b'z')

is_hexdigit : ℕ → Bool
is_hexdigit b =
    (leb b'0' b && leb b b'9') || (leb b'A' b && leb b b'F') || (leb b'a' b && leb b b'f')

-- `as_bytes()[0]` and `as_bytes().last()`; the length test stands before both.
first_is : (ℕ → Bool) → Text → Bool
first_is p [] = false
first_is p (b ∷ s) = p b

last_is : (ℕ → Bool) → Text → Bool
last_is p [] = false
last_is p (b ∷ []) = p b
last_is p (b ∷ c ∷ s) = last_is p (c ∷ s)

-- `contains("--")`
has_double_dash : Text → Bool
unfolding starts_with
has_double_dash [] = false
has_double_dash (b ∷ s) = starts_with (b ∷ s) (text "--") || has_double_dash s

is_name_byte : ℕ → Bool
unfolding is_alphanumeric nat_eq
is_name_byte b = is_alphanumeric b || b == b'-'

unfoldable pub valid_source : SourceRef → Bool
unfolding is_alphabetic is_alphanumeric first_is last_is has_double_dash is_name_byte store_eq
valid_source s =
    s.store == azure
    && leb 3 (length s.connection)
    && leb (length s.connection) 24
    && first_is is_alphabetic s.connection
    && last_is is_alphanumeric s.connection
    && not (has_double_dash s.connection)
    && all is_name_byte s.connection
    && leb 1 (length s.entry)
    && leb (length s.entry) 127
    && all is_name_byte s.entry

unfoldable pub valid_version : Text → Bool
unfolding nat_eq is_hexdigit
valid_version v = length v == 32 && all is_hexdigit v

hexdigit-label : (b : ℕ) → is_hexdigit b ≡ true → is_label_byte b ≡ true
unfolding is_hexdigit is_label_byte is_alphanumeric nat_eq
hexdigit-label b h = ground arith

all-label : (v : Text) → all is_hexdigit v ≡ true → all is_label_byte v ≡ true
all-label [] h = refl
all-label (b ∷ v) h = ground (arith, hexdigit-label b, all-label v)

-- A version of Azure passes the engine's check.
pub valid_version-safe_version : (v : Text) → valid_version v ≡ true → safe_version v ≡ true
unfolding valid_version safe_version nat_eq
valid_version-safe_version v h = ground (arith, all-label v)
