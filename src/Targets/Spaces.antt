-- ===== src/Targets/Spaces.antt =====
-- `str::trim_start`, `trim_end` and `trim` on UTF-8: the characters of Unicode's White_Space.
use tarvaultsync.Prelude.{ℕ, Bool, ◌&&◌, ◌||◌, [], ◌∷◌, ◌==◌, nat_eq, leb, if◌then◌else◌}
use mathlib.Core.List.{reverse}
use tarvaultsync.Core.{Bytes}

-- U+0009 to U+000D and the space
abbrev pub is_space : ℕ → Bool
is_space a = (leb 9 a && leb a 13) || a == 32

-- U+0085, U+00A0
abbrev pub is_space_2 : ℕ → ℕ → Bool
is_space_2 a b = a == 0xC2 && (b == 0x85 || b == 0xA0)

-- U+1680, U+2000 to U+200A, U+2028, U+2029, U+202F, U+205F, U+3000
abbrev pub is_space_3 : ℕ → ℕ → ℕ → Bool
is_space_3 a b c =
    (a == 0xE1 && b == 0x9A && c == 0x80)
    || (a == 0xE2
        && b == 0x80
        && ((leb 0x80 c && leb c 0x8A) || c == 0xA8 || c == 0xA9 || c == 0xAF))
    || (a == 0xE2 && b == 0x81 && c == 0x9F)
    || (a == 0xE3 && b == 0x80 && c == 0x80)

-- Without the characters at the front that one, two or three bytes make a space
unfoldable pub trim_front : (ℕ → ℕ → Bool) → (ℕ → ℕ → ℕ → Bool) → Bytes → Bytes
unfolding nat_eq
trim_front two three [] = []
trim_front two three (a ∷ []) = if is_space a then [] else a ∷ []
trim_front two three (a ∷ b ∷ []) =
    let one = trim_front two three (b ∷ []) in
    if is_space a then one else if two a b then [] else a ∷ b ∷ []
trim_front two three (a ∷ b ∷ c ∷ s) =
    let after_one = trim_front two three (b ∷ c ∷ s) in
    let after_two = trim_front two three (c ∷ s) in
    let after_three = trim_front two three s in
    if is_space a
    then after_one
    else if two a b
    then after_two
    else if three a b c
    then after_three
    else a ∷ b ∷ c ∷ s

unfoldable pub trim_start : Bytes → Bytes
unfolding nat_eq
trim_start s = trim_front is_space_2 is_space_3 s

unfoldable pub trim_end : Bytes → Bytes
unfolding nat_eq
trim_end s = reverse (trim_front (λ b a. is_space_2 a b) (λ c b a. is_space_3 a b c) (reverse s))

-- `str::trim`
unfoldable pub trim : Bytes → Bytes
trim s = trim_end (trim_start s)
