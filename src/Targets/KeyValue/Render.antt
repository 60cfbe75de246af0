-- ===== src/Targets/KeyValue/Render.antt =====
-- The loop of `render_key_value`: which lines it rewrites, and when it refuses.
use tarvaultsync.Prelude.{
  ℕ, ◌+◌, ◌≤◌, ◌≡◌, refl, ◌∙◌, ap, inl, inr, Bool, true, false, List, [], ◌∷◌, ◌++◌, map,
  if◌then◌else◌, arith, Bool-cases,
}
use mathlib.Core.List.{append_assoc, append-nil}
use tarvaultsync.Prelude.Text.{Text}
use tarvaultsync.Prelude.Result.{ok}
use tarvaultsync.Core.{Bytes}
use tarvaultsync.Targets.KeyValue.{KeyValueStyle, defines, rewritten, render_lines}
use tarvaultsync.Targets.KeyValue.Lines.{concat}

abbrev pub filter {ℓ} : {A : Type ℓ} → (A → Bool) → List A → List A
filter p [] = []
filter p (x ∷ xs) = let rest = filter p xs in if p x then x ∷ rest else rest

abbrev pub one_if : Bool → ℕ
one_if true = 1
one_if false = 0

module _ (style : KeyValueStyle) (key : Text) (encoded newline : Bytes) where
  abbrev pub new_line : Bytes → Bytes
  new_line l = if defines style key l then rewritten key encoded newline l else l

  abbrev pub hits : List Bytes → ℕ
  hits [] = 0
  hits (l ∷ ls) = one_if (defines style key l) + hits ls

  -- A loop that ends has rewritten each line that has the key; there is at most one.
  pub render_lines_ok :
      (ls : List Bytes) (found f : Bool) (out o : Bytes)
      → render_lines style key encoded newline ls found out ≡ ok (f, o)
      → (o ≡ out ++ concat (map new_line ls)) × (one_if found + hits ls ≡ one_if f)
  unfolding render_lines
  render_lines_ok [] found f out o h = (ground (arith, append-nil out), ground arith)
  render_lines_ok (l ∷ ls) found f out o h = elim (Bool-cases (defines style key l)) [
    | inl d ↦ elim (Bool-cases found) [
      | inl t ↦ absurd (ground arith)
      | inr t ↦
          let (e, n) =
            render_lines_ok ls true f (out ++ rewritten key encoded newline l) o (ground arith) in
          rw d (
            e ∙ append_assoc out (rewritten key encoded newline l) (concat (map new_line ls)),
            ground arith,
          )
    ]
    | inr d ↦
        let (e, n) = render_lines_ok ls found f (out ++ l) o (ground arith) in
        rw d (e ∙ append_assoc out l (concat (map new_line ls)), ground arith)
  ]

  pub render_lines_total :
      (ls : List Bytes) (found : Bool) (out : Bytes)
      → one_if found + hits ls ≤ 1
      → (f : Bool) × (o : Bytes) × (render_lines style key encoded newline ls found out ≡ ok (f, o))
  unfolding render_lines
  render_lines_total [] found out h = (found, out, refl)
  render_lines_total (l ∷ ls) found out h = elim (Bool-cases (defines style key l)) [
    | inl d ↦ elim (Bool-cases found) [
      | inl t ↦ absurd (ground arith)
      | inr t ↦
          let (f, o, e) =
            render_lines_total ls true (out ++ rewritten key encoded newline l) (ground arith) in
          (f, o, ground arith)
    ]
    | inr d ↦
        let (f, o, e) = render_lines_total ls found (out ++ l) (ground arith) in
        (f, o, ground arith)
  ]

  pub map_none : (ls : List Bytes) → hits ls ≡ 0 → map new_line ls ≡ ls
  map_none [] h = refl
  map_none (l ∷ ls) h = elim (Bool-cases (defines style key l)) [
    | inl d ↦ absurd (ground arith)
    | inr d ↦ rw d (ap (λ rest. l ∷ rest) (map_none ls (ground arith)))
  ]
