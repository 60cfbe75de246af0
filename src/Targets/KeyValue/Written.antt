-- ===== src/Targets/KeyValue/Written.antt =====
-- The file that a run of `render_key_value` of src/targets.rs leaves, in the single-quoted style.
use tarvaultsync.Prelude.{
  ◌≡◌, refl, ◌∙◌, sym, ap, subst, inl, inr, some, Bool, true, false, not, ◌||◌, List, [], ◌∷◌, ◌++◌,
  map, nat_eq, ℕ_discrete, if◌then◌else◌, all, All, length, arith, Bool-cases,
}
use mathlib.Core.List.{append-nil}
use tarvaultsync.Prelude.Text.{Text, text_eq}
use tarvaultsync.Prelude.Result.{ok, Result-cases}
use tarvaultsync.Core.{Bytes, SecretPayload}
use tarvaultsync.Targets.KeyValue.{
  KeyValueStyle, single_quoted, encode_value, split_inclusive, contains_crlf, trim_line_end,
  candidate, is_candidate, defines, render_lines, appended, newline_of, has_line_break,
  render_key_value,
}
use tarvaultsync.Targets.KeyValue.Escape.{is_clean, all-append, encode_value-clean}
use tarvaultsync.Targets.KeyValue.Lines.{
  IsNewline, concat, bodies, split_inclusive-IsLines, concat-split,
}
use tarvaultsync.Targets.KeyValue.Keys.{
  IsKey, IsPrefix, assignment, candidate-assignment, key_bytes, keys_clean,
}
use tarvaultsync.Targets.KeyValue.Render.{filter, one_if, new_line, hits, map_none}
use tarvaultsync.Targets.KeyValue.Values.{value_of, value_of-assignment}
use tarvaultsync.Targets.KeyValue.Changed.{
  has_candidate, definitions, definitions_in, others, filter_in, filter_out, filter-append,
  bodies-changed, others-changed, definitions-changed,
}
use tarvaultsync.Targets.KeyValue.Appended.{bodies-appended}

newline_of-IsNewline : (s : Bytes) → IsNewline (newline_of s)
newline_of-IsNewline s = elim (Bool-cases (contains_crlf s)) [
  | inl h ↦ rw h (inr refl)
  | inr h ↦ rw h (inl refl)
]

-- What a run that ends has done
abbrev pub IsRun :
    (Bytes → Bool) → KeyValueStyle → Bytes → Text → Bytes → Bytes → Bool → Bytes → Type 0
IsRun is_utf8 style prior key value out f o =
    (is_utf8 prior ≡ true)
    × (is_utf8 value ≡ true)
    × (has_line_break value ≡ false)
    × (render_lines style key (encode_value style value) (newline_of prior) (split_inclusive prior)
          false []
        ≡ ok (f, o))
    × (out ≡ (if f then o else appended key (encode_value style value) (newline_of prior) o))

pub render_key_value-IsRun :
    (is_utf8 : Bytes → Bool) (style : KeyValueStyle) (prior : Bytes) (key : Text)
    (payload : SecretPayload) (out : Bytes)
    → render_key_value is_utf8 prior key payload style ≡ ok out
    → (f : Bool) × (o : Bytes) × IsRun is_utf8 style prior key payload.bytes out f o
unfolding render_key_value
render_key_value-IsRun is_utf8 style prior key payload out h =
    let run =
      render_lines style key (encode_value style payload.bytes) (newline_of prior)
        (split_inclusive prior) false [] in
    elim (Bool-cases
      (not (is_utf8 prior) || not (is_utf8 payload.bytes) || has_line_break payload.bytes)) [
        | inl g ↦ absurd (ground arith)
        | inr g ↦ elim (Result-cases run) [
          | inl ((true, o), r) ↦
              (true, o, (ground arith, ground arith, ground arith, r, ground arith))
          | inl ((false, o), r) ↦
              (false, o, (ground arith, ground arith, ground arith, r, ground arith))
          | inr (e, r) ↦ absurd (ground arith)
        ]
      ]

-- The loop finds as many lines of the key as there are.
length-hits :
    (style : KeyValueStyle) (key encoded newline : Bytes) (ls : List Bytes)
    → length (filter (λ b. is_candidate (candidate style b) key) (map trim_line_end ls))
      ≡ hits style key encoded newline ls
unfolding defines
length-hits style key encoded newline [] = refl
length-hits style key encoded newline (l ∷ ls) =
    ground (arith, length-hits style key encoded newline ls)

pub length-definitions :
    (style : KeyValueStyle) (key encoded newline s : Bytes)
    → length (definitions_in style key s) ≡ hits style key encoded newline (split_inclusive s)
unfolding bodies
length-definitions style key encoded newline s =
    length-hits style key encoded newline (split_inclusive s)

empty_list : (xs : List Bytes) → length xs ≡ 0 → xs ≡ []
empty_list [] h = refl
empty_list (x ∷ xs) h = absurd (ground arith)

-- The file after a run: one line of the key, which reads back to the value, and the others as before.
abbrev pub IsWritten : Text → Bytes → Bytes → Bytes → Type 0
IsWritten key value prior out =
    (b : Bytes) × (definitions key out ≡ b ∷ [])
    × (value_of b ≡ some value)
    × (others key out ≡ others key prior)

module _ (key prior value : Bytes) (is_key : IsKey key) (clean : has_line_break value ≡ false) where
  abbrev encoded : Bytes
  encoded = encode_value single_quoted value

  abbrev newline : Bytes
  newline = newline_of prior

  abbrev IsNew : Bytes → Type 0
  IsNew b = (q : Bytes) × IsPrefix q × (b ≡ q ++ assignment key encoded)

  one-IsNew :
      (bs : List Bytes) → length bs ≡ 1 → All IsNew bs → (b : Bytes) × (bs ≡ b ∷ []) × IsNew b
  one-IsNew [] n a = absurd (ground arith)
  one-IsNew (b ∷ []) n (h, a) = (b, refl, h)
  one-IsNew (b ∷ c ∷ bs) n a = absurd (ground arith)

  encoded_clean : all is_clean encoded ≡ true
  encoded_clean = encode_value-clean single_quoted value clean

  replaced-IsWritten :
      (o : Bytes)
      → o ≡ concat (map (new_line single_quoted key encoded newline) (split_inclusive prior))
      → hits single_quoted key encoded newline (split_inclusive prior) ≡ 1
      → IsWritten key value prior o
  replaced-IsWritten o e n =
      let end = newline_of-IsNewline prior in
      let ls = split_inclusive prior in
      let same =
        ap bodies e
        ∙ bodies-changed key encoded newline is_key encoded_clean end ls
            (split_inclusive-IsLines prior) in
      let (count, new) = definitions-changed key encoded newline is_key encoded_clean end ls in
      let (b, one, (q, p, f)) =
        one-IsNew
          (filter (has_candidate key)
            (map trim_line_end (map (new_line single_quoted key encoded newline) ls)))
          (count ∙ n) new in
      (
        b,
        ap (filter (has_candidate key)) same ∙ one,
        ap value_of f ∙ value_of-assignment q key value p is_key,
        ap (filter (λ b. not (has_candidate key b))) same
            ∙ others-changed key encoded newline is_key encoded_clean end ls
            ∙ unfold bodies in refl,
      )

  new_defines : has_candidate key (assignment key encoded) ≡ true
  unfolding text_eq
  new_defines =
      ap (λ o. is_candidate o key) (candidate-assignment [] key encoded (inl refl) is_key)
      ∙ ground arith

  assignment_clean : all is_clean (assignment key encoded) ≡ true
  unfolding nat_eq ℕ_discrete
  assignment_clean =
      all-append is_clean key (b'=' ∷ encoded)
      ∙ rw (keys_clean key (key_bytes key is_key)) encoded_clean

  none_defined :
      hits single_quoted key encoded newline (split_inclusive prior) ≡ 0
      → definitions key prior ≡ []
  none_defined n =
      empty_list (definitions key prior)
        (length-definitions single_quoted key encoded newline prior ∙ n)

  appended-IsWritten :
      hits single_quoted key encoded newline (split_inclusive prior) ≡ 0
      → IsWritten key value prior (appended key encoded newline prior)
  appended-IsWritten n =
      let new = assignment key encoded in
      let same =
        bodies-appended key encoded newline prior assignment_clean (newline_of-IsNewline prior) in
      (
        new,
        ap (filter (has_candidate key)) same
            ∙ filter-append (has_candidate key) (bodies prior) (new ∷ [])
            ∙ ap (λ ds. ds ++ filter (has_candidate key) (new ∷ [])) (none_defined n)
            ∙ filter_in (has_candidate key) new [] new_defines,
        value_of-assignment [] key value (inl refl) is_key,
        ap (filter (λ b. not (has_candidate key b))) same
            ∙ filter-append (λ b. not (has_candidate key b)) (bodies prior) (new ∷ [])
            ∙ ap (λ ds. others key prior ++ ds)
                (filter_out (λ b. not (has_candidate key b)) new [] (ap not new_defines))
            ∙ append-nil (others key prior),
      )

  pub run-IsWritten :
      (f : Bool) (o out : Bytes)
      → o ≡ concat (map (new_line single_quoted key encoded newline) (split_inclusive prior))
      → hits single_quoted key encoded newline (split_inclusive prior) ≡ one_if f
      → out ≡ (if f then o else appended key encoded newline o)
      → IsWritten key value prior out
  run-IsWritten true o out e n h =
      subst (IsWritten key value prior) (sym h) (replaced-IsWritten o e n)
  run-IsWritten false o out e n h =
      let same : o ≡ prior =
        e
        ∙ ap concat (map_none single_quoted key encoded newline (split_inclusive prior) n)
        ∙ concat-split prior in
      subst (IsWritten key value prior) (sym (h ∙ ap (appended key encoded newline) same))
        (appended-IsWritten n)
