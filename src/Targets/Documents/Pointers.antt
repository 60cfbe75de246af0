-- ===== src/Targets/Documents/Pointers.antt =====
-- The pointers that src/targets.rs splits into the keys of mappings.
use tarvaultsync.Prelude.{
  ℕ, ◌≡◌, refl, ◌≢◌, ◌∙◌, ap, inl, inr, true, false, not, List, [], ◌∷◌, ◌++◌, map, ◌==◌, nat_eq,
  ℕ_discrete, all, if◌then◌else◌, arith, Bool-cases,
}
use mathlib.Core.List.{append-nil}
use tarvaultsync.Prelude.Text.{Text, text, split}
use tarvaultsync.Targets.Documents.{replace_pair, unescape_pointer, trim_slashes, pointer_parts}

-- RFC 6901: `~` is written `~0`, and `/` is written `~1`.
abbrev pub escape_byte : ℕ → Text → Text
escape_byte c s =
    if c == b'~' then b'~' ∷ b'0' ∷ s else if c == b'/' then b'~' ∷ b'1' ∷ s else c ∷ s

unfoldable pub escape : Text → Text
unfolding nat_eq
escape [] = []
escape (c ∷ s) = let rest = escape s in escape_byte c rest

-- The pointer to a field below mappings at the keys
unfoldable pub pointer_to : List Text → Text
pointer_to [] = []
pointer_to (key ∷ keys) = b'/' ∷ (escape key ++ pointer_to keys)

-- After the first replacement, only the `~` are still written with two bytes.
abbrev tildes : Text → Text
tildes [] = []
tildes (c ∷ s) = let rest = tildes s in if c == b'~' then b'~' ∷ b'0' ∷ rest else c ∷ rest

replace_pair-skip :
    (a b with c : ℕ) (s : Text)
    → (c == a) ≡ false
    → replace_pair a b with (c ∷ s) ≡ c ∷ replace_pair a b with s
unfolding replace_pair
replace_pair-skip a b with c [] h = refl
replace_pair-skip a b with c (d ∷ s) h = rw h refl

equal_byte : (c d : ℕ) → (c == d) ≡ true → d ≡ c
unfolding nat_eq
equal_byte c d h = ground arith

found_slash :
    (s : Text) → replace_pair b'~' b'1' b'/' (text "~1" ++ s) ≡ b'/' ∷ replace_pair b'~' b'1' b'/' s
unfolding replace_pair nat_eq ℕ_discrete
found_slash s = refl

kept_tilde :
    (s : Text)
    → replace_pair b'~' b'1' b'/' (text "~0" ++ s) ≡ b'~' ∷ b'0' ∷ replace_pair b'~' b'1' b'/' s
kept_tilde s =
    unfold replace_pair nat_eq ℕ_discrete in
    ap (λ (t : Text). b'~' ∷ t)
      (replace_pair-skip b'~' b'1' b'/' b'0' s (unfold nat_eq ℕ_discrete in refl))

found_tilde :
    (s : Text) → replace_pair b'~' b'0' b'~' (text "~0" ++ s) ≡ b'~' ∷ replace_pair b'~' b'0' b'~' s
unfolding replace_pair nat_eq ℕ_discrete
found_tilde s = refl

slashes : (s : Text) → replace_pair b'~' b'1' b'/' (escape s) ≡ tildes s
unfolding escape
slashes [] = unfold replace_pair in refl
slashes (c ∷ s) = elim (Bool-cases (c == b'~')) [
  | inl h ↦ rw h (kept_tilde (escape s) ∙ ap (λ t. b'~' ∷ b'0' ∷ t) (slashes s))
  | inr h ↦ elim (Bool-cases (c == b'/')) [
    | inl k ↦
        rw (h, k)
          (found_slash (escape s)
            ∙ ap (λ t. b'/' ∷ t) (slashes s)
            ∙ ap (λ (d : ℕ). d ∷ tildes s) (equal_byte c b'/' k))
    | inr k ↦
        rw (h, k) (replace_pair-skip b'~' b'1' b'/' c (escape s) h ∙ ap (λ t. c ∷ t) (slashes s))
  ]
]

tildes_lem : (s : Text) → replace_pair b'~' b'0' b'~' (tildes s) ≡ s
tildes_lem [] = unfold replace_pair in refl
tildes_lem (c ∷ s) = elim (Bool-cases (c == b'~')) [
  | inl h ↦ rw h (
      found_tilde (tildes s)
      ∙ ap (λ t. b'~' ∷ t) (tildes_lem s)
      ∙ ap (λ (d : ℕ). d ∷ s) (equal_byte c b'~' h))
  | inr h ↦ rw h (replace_pair-skip b'~' b'0' b'~' c (tildes s) h ∙ ap (λ t. c ∷ t) (tildes_lem s))
]

unescape_pointer-escape : (s : Text) → unescape_pointer (escape s) ≡ s
unfolding unescape_pointer
unescape_pointer-escape s = ap (replace_pair b'~' b'0' b'~') (slashes s) ∙ tildes_lem s

-- An escaped key has no slash.
escape-has_no_slash : (s : Text) → all (λ c. not (c == b'/')) (escape s) ≡ true
unfolding escape nat_eq ℕ_discrete
escape-has_no_slash [] = refl
escape-has_no_slash (c ∷ s) = ground (arith, escape-has_no_slash s)

split-free : (s : Text) → all (λ c. not (c == b'/')) s ≡ true → split b'/' s ≡ s ∷ []
unfolding split
split-free [] h = refl
split-free (c ∷ s) h = ground (arith, split-free s)

split-free-slash :
    (s rest : Text)
    → all (λ c. not (c == b'/')) s ≡ true
    → split b'/' (s ++ (b'/' ∷ rest)) ≡ s ∷ split b'/' rest
unfolding split
split-free-slash [] rest h = unfold nat_eq ℕ_discrete in refl
split-free-slash (c ∷ s) rest h = ground (arith, split-free-slash s rest)

split-pointer_to :
    (key : Text) (keys : List Text)
    → map unescape_pointer (split b'/' (escape key ++ pointer_to keys)) ≡ key ∷ keys
unfolding pointer_to
split-pointer_to key [] = rw append-nil (
    ap (map unescape_pointer) (split-free (escape key) (escape-has_no_slash key))
    ∙ ap (λ k. k ∷ []) (unescape_pointer-escape key))
split-pointer_to key (next ∷ keys) =
    ap (map unescape_pointer)
      (split-free-slash (escape key) (escape next ++ pointer_to keys) (escape-has_no_slash key))
    ∙ ap (λ k. k ∷ map unescape_pointer (split b'/' (escape next ++ pointer_to keys)))
        (unescape_pointer-escape key)
    ∙ ap (λ ks. key ∷ ks) (split-pointer_to next keys)

trim_slashes-escape :
    (key rest : Text) → key ≢ [] → trim_slashes (b'/' ∷ (escape key ++ rest)) ≡ escape key ++ rest
unfolding trim_slashes escape nat_eq ℕ_discrete
trim_slashes-escape [] rest h = absurd (h refl)
trim_slashes-escape (c ∷ key) rest h = ground arith

-- The pointer that names keys, escaped as RFC 6901 says, splits into these keys, if the first is not
-- empty.
pub pointer_parts-pointer_to :
    (key : Text) (keys : List Text)
    → key ≢ []
    → pointer_parts (pointer_to (key ∷ keys)) ≡ key ∷ keys
unfolding pointer_parts pointer_to
pointer_parts-pointer_to key keys h =
    ap (λ s. map unescape_pointer (split b'/' s)) (trim_slashes-escape key (pointer_to keys) h)
    ∙ split-pointer_to key keys
