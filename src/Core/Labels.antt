-- ===== src/Core/Labels.antt =====
-- The checks on names in src/core.rs.
use tarvaultsync.Prelude.{ℕ, Option, none, some, Bool, true, not, ◌&&◌, ◌||◌}
use tarvaultsync.Prelude.{all, length, is_empty, leb, ◌==◌, nat_eq}
use tarvaultsync.Prelude.Text.{Text, text, text_eq, is_alphanumeric, starts_with, split}

-- The bytes of labels and of versions.
unfoldable pub is_label_byte : ℕ → Bool
unfolding is_alphanumeric nat_eq
is_label_byte b = is_alphanumeric b || b == b'-' || b == b'_' || b == b'.'

unfoldable pub safe_version : Text → Bool
unfolding is_label_byte
safe_version v = not (is_empty v) && leb (length v) 128 && all is_label_byte v

unfoldable pub safe_label : Text → Bool
unfolding is_label_byte
safe_label v = not (is_empty v) && leb (length v) 64 && all is_label_byte v

is_host_byte : ℕ → Bool
unfolding is_alphanumeric nat_eq
is_host_byte b = is_alphanumeric b || b == b'.' || b == b'-' || b == b':'

unfoldable pub safe_host : Text → Bool
unfolding is_host_byte
safe_host host = not (is_empty host) && leb (length host) 253 && all is_host_byte host

-- One part of a credential path.
unfoldable pub safe_git_part : Text → Bool
unfolding is_label_byte text_eq
safe_git_part part =
    not (is_empty part)
    && not (part == text ".")
    && not (part == text "..")
    && all is_label_byte part

unfoldable pub safe_git_path : Option Text → Bool
unfolding safe_git_part starts_with split
safe_git_path none = true
safe_git_path (some p) =
    not (is_empty p)
    && leb (length p) 512
    && not (starts_with p (text "/"))
    && all safe_git_part (split b'/' p)

is_username_byte : ℕ → Bool
unfolding nat_eq
is_username_byte b = leb 0x21 b && leb b 0x7e && not (b == b'=') && not (b == b'\\')

unfoldable pub safe_git_username : Text → Bool
unfolding is_username_byte
safe_git_username name = not (is_empty name) && leb (length name) 128 && all is_username_byte name
