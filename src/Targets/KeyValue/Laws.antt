-- ===== src/Targets/KeyValue/Laws.antt =====
-- When `render_key_value` of src/targets.rs succeeds, and what it leaves then.
use tarvaultsync.Prelude.{
  ◌≤◌, ◌≡◌, refl, ◌∙◌, sym, ap, inl, inr, Bool, true, false, not, ◌&&◌, ◌||◌, List, [], nat_eq,
  length, leb, arith, Bool-cases,
}
use tarvaultsync.Prelude.Text.{Text, text_eq}
use tarvaultsync.Prelude.Result.{ok, is_ok, Result-cases}
use tarvaultsync.Core.{Bytes, SecretPayload}
use tarvaultsync.Targets.KeyValue.{
  KeyValueStyle, single_quoted, encode_value, split_inclusive, render_lines, newline_of,
  has_line_break, render_key_value,
}
use tarvaultsync.Targets.KeyValue.Keys.{IsKey}
use tarvaultsync.Targets.KeyValue.Render.{one_if, hits, render_lines_ok, render_lines_total}
use tarvaultsync.Targets.KeyValue.Changed.{definitions_in}
use tarvaultsync.Targets.KeyValue.Written.{
  IsWritten, render_key_value-IsRun, run-IsWritten, length-definitions,
}

one_if-le : (f : Bool) → one_if f ≤ 1
one_if-le true = omega arith
one_if-le false = omega arith

-- The loop ends when at most one line has the key.
is_ok-render_lines :
    (style : KeyValueStyle) (key encoded newline : Bytes) (ls : List Bytes)
    → is_ok (render_lines style key encoded newline ls false [])
      ≡ leb (hits style key encoded newline ls) 1
is_ok-render_lines style key encoded newline ls =
    elim (Bool-cases (leb (hits style key encoded newline ls) 1)) [
      | inl t ↦
          let (f, o, e) = render_lines_total style key encoded newline ls false [] (ground arith) in
          rw t (rw e refl)
      | inr t ↦ rw t (elim (Result-cases (render_lines style key encoded newline ls false [])) [
        | inl ((f, o), e) ↦
            let (_, n) = render_lines_ok style key encoded newline ls false f [] o e in
            absurd (ground (arith, one_if-le f))
        | inr (e, h) ↦ rw h refl
      ])
    ]

-- In a file of single-quoted values, a key that the configuration allows: when a rewriting succeeds,
-- exactly one line of the new file has the key, its quoted value reads back to the payload with
-- nothing behind it, and the lines that do not have the key are the ones of the old file, in order.
pub render_key_value-IsWritten :
    (is_utf8 : Bytes → Bool) (prior : Bytes) (key : Text) (payload : SecretPayload) (out : Bytes)
    → IsKey key
    → render_key_value is_utf8 prior key payload single_quoted ≡ ok out
    → IsWritten key payload.bytes prior out
render_key_value-IsWritten is_utf8 prior key payload out k h =
    let value = payload.bytes in
    let encoded = encode_value single_quoted value in
    let (f, o, (u, v, clean, run, e)) =
      render_key_value-IsRun is_utf8 single_quoted prior key payload out h in
    let (r, n) =
      render_lines_ok single_quoted key encoded (newline_of prior) (split_inclusive prior) false f
        [] o run in
    run-IsWritten key prior value k clean f o out r (omega (arith, n)) e

-- A rewriting in either style succeeds exactly when the file and the value are UTF-8, the value has
-- no line break and no zero byte, and at most one line of the file has the key in that style.
pub is_ok-render_key_value :
    (is_utf8 : Bytes → Bool) (prior : Bytes) (key : Text) (payload : SecretPayload)
    (style : KeyValueStyle)
    → is_ok (render_key_value is_utf8 prior key payload style) ≡ (
        is_utf8 prior
        && is_utf8 payload.bytes
        && not (has_line_break payload.bytes)
        && leb (length (definitions_in style key prior)) 1)
unfolding render_key_value
is_ok-render_key_value is_utf8 prior key payload style =
    let encoded = encode_value style payload.bytes in
    let newline = newline_of prior in
    let loop =
      is_ok-render_lines style key encoded newline (split_inclusive prior)
      ∙ ap (λ n. leb n 1) (sym (length-definitions style key encoded newline prior)) in
    elim (Bool-cases
      (not (is_utf8 prior) || not (is_utf8 payload.bytes) || has_line_break payload.bytes)) [
        | inl g ↦ ground arith
        | inr g ↦
            elim (Result-cases
              (render_lines style key encoded newline (split_inclusive prior) false [])) [
                | inl ((true, o), r) ↦ ground arith
                | inl ((false, o), r) ↦ ground arith
                | inr (e, r) ↦ ground arith
              ]
      ]
