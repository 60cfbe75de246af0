-- ===== src/Targets/KeyValue/Appended.antt =====
-- The end of `render_key_value` of src/targets.rs: the key was not there and is put behind the rest.
use tarvaultsync.Prelude.{
  ◌≡◌, refl, ◌≢◌, ◌∙◌, sym, ap, inl, inr, true, false, not, ◌&&◌, List, [], ◌∷◌, ◌++◌, map,
  if◌then◌else◌, all, All, is_empty, Bool-cases,
}
use mathlib.Core.List.{append_assoc, append-nil, map-append}
use tarvaultsync.Prelude.Text.{text}
use tarvaultsync.Core.{Bytes}
use tarvaultsync.Targets.KeyValue.{split_inclusive, trim_line_end, ends_line, appended}
use tarvaultsync.Targets.KeyValue.Escape.{is_clean}
use tarvaultsync.Targets.KeyValue.Lines.{
  has_no_feed, IsLines, IsLine, IsTerminated, IsNewline, concat, bodies, bodies-concat,
  split_inclusive-IsLines, concat-split, trim-append, trim-clean, trim-IsNewline, clean-has_no_feed,
  append-IsTerminated, ends-IsTerminated, ends-unterminated,
}
use tarvaultsync.Targets.KeyValue.Keys.{assignment}
use tarvaultsync.Targets.KeyValue.Changed.{append-ne-nil}

-- The text with its last line ended
abbrev close : Bytes → Bytes → Bytes
close newline s = if not (is_empty s) && not (ends_line s) then s ++ newline else s

ends_line-append : (l s : Bytes) → s ≢ [] → ends_line (l ++ s) ≡ ends_line s
unfolding ends_line
ends_line-append [] s h = refl
ends_line-append (c ∷ []) [] h = absurd (h refl)
ends_line-append (c ∷ []) (d ∷ s) h = refl
ends_line-append (c ∷ d ∷ l) s h = ends_line-append (d ∷ l) s h

is_empty-ne : (s : Bytes) → s ≢ [] → is_empty s ≡ false
is_empty-ne [] h = absurd (h refl)
is_empty-ne (c ∷ s) h = refl

close-append : (newline l s : Bytes) → s ≢ [] → close newline (l ++ s) ≡ l ++ close newline s
close-append newline l s h = elim (Bool-cases (ends_line s)) [
  | inl e ↦
      rw (ends_line-append l s h, is_empty-ne (l ++ s) (append-ne-nil l s h), is_empty-ne s h, e)
        refl
  | inr e ↦
      rw (ends_line-append l s h, is_empty-ne (l ++ s) (append-ne-nil l s h), is_empty-ne s h, e)
        (append_assoc l s newline)
]

IsTerminated-ne : (l : Bytes) → IsTerminated l → l ≢ []
IsTerminated-ne l (b, n, e) z = append-ne-nil b (text "\n") (λ q. cc) (sym e ∙ z)

IsLine-ne : (l : Bytes) → IsLine l → l ≢ []
IsLine-ne l (inl t) = IsTerminated-ne l t
IsLine-ne l (inr (n, ne)) = ne

concat-ne : (l : Bytes) (ls : List Bytes) → IsLines (l ∷ ls) → concat (l ∷ ls) ≢ []
concat-ne l [] t = rw append-nil (IsLine-ne l t)
concat-ne l (m ∷ ls) (t, more) = append-ne-nil l (concat (m ∷ ls)) (concat-ne m ls more)

-- The lines of the closed text: all of them end, and their bodies are those of the text.
abbrev IsClosed : Bytes → List Bytes → Type 0
IsClosed newline ls =
    (cs : List Bytes) × All IsTerminated cs
    × (close newline (concat ls) ≡ concat cs)
    × (map trim_line_end cs ≡ map trim_line_end ls)

close_terminated : (newline l : Bytes) → IsTerminated l → close newline (l ++ []) ≡ l ++ []
close_terminated newline l t =
    rw (append-nil l, ends-IsTerminated l t, is_empty-ne l (IsTerminated-ne l t)) refl

close_unterminated :
    (newline l : Bytes)
    → has_no_feed l ≡ true
    → l ≢ []
    → close newline (l ++ []) ≡ (l ++ newline) ++ []
close_unterminated newline l n ne =
    rw (append-nil l, append-nil (l ++ newline), ends-unterminated l n, is_empty-ne l ne) refl

module _ (newline : Bytes) (end : IsNewline newline) where
  close_line : (l : Bytes) → IsLine l → IsClosed newline (l ∷ [])
  close_line l (inl t) = (l ∷ [], (t, tt), close_terminated newline l t, refl)
  close_line l (inr (n, ne)) = (
    (l ++ newline) ∷ [],
    (append-IsTerminated l newline n end, tt),
    close_unterminated newline l n ne,
    ap (λ b. b ∷ []) (trim-append l newline (trim-IsNewline newline end)),
  )

  close-IsLines : (ls : List Bytes) → IsLines ls → IsClosed newline ls
  close-IsLines [] t = ([], tt, refl, refl)
  close-IsLines (l ∷ []) t = close_line l t
  close-IsLines (l ∷ m ∷ ls) (t, more) =
      let (cs, all, e, b) = close-IsLines (m ∷ ls) more in
      (
        l ∷ cs,
        (t, all),
        close-append newline l (concat (m ∷ ls)) (concat-ne m ls more) ∙ ap (λ s. l ++ s) e,
        ap (λ bs. trim_line_end l ∷ bs) b,
      )

All-snoc-IsLines :
    (cs : List Bytes) (l : Bytes) → All IsTerminated cs → IsTerminated l → IsLines (cs ++ l ∷ [])
All-snoc-IsLines [] l a t = inl t
All-snoc-IsLines (c ∷ []) l (h, a) t = (h, inl t)
All-snoc-IsLines (c ∷ d ∷ cs) l (h, a) t = (h, All-snoc-IsLines (d ∷ cs) l a t)

concat-snoc : (cs : List Bytes) (l : Bytes) → concat (cs ++ l ∷ []) ≡ concat cs ++ l
concat-snoc [] l = append-nil l
concat-snoc (c ∷ cs) l = ap (λ s. c ++ s) (concat-snoc cs l) ∙ sym (append_assoc c (concat cs) l)

-- The bodies of the lines are those of the text before, and the new one behind them.
pub bodies-appended :
    (key encoded newline s : Bytes)
    → all is_clean (assignment key encoded) ≡ true
    → IsNewline newline
    → bodies (appended key encoded newline s) ≡ bodies s ++ assignment key encoded ∷ []
unfolding appended
bodies-appended key encoded newline s clean end =
    let ls = split_inclusive s in
    let l = assignment key encoded ++ newline in
    let (cs, a, e, b) = close-IsLines newline end ls (split_inclusive-IsLines s) in
    let t =
      append-IsTerminated (assignment key encoded) newline
        (clean-has_no_feed (assignment key encoded) clean) end in
    let whole : appended key encoded newline s ≡ concat (cs ++ l ∷ []) =
      ap (λ t. close newline t ++ (key ++ (b'=' ∷ (encoded ++ newline)))) (sym (concat-split s))
      ∙ ap (λ t. t ++ (key ++ (b'=' ∷ (encoded ++ newline)))) e
      ∙ ap (λ t. concat cs ++ t) (sym (append_assoc key (b'=' ∷ encoded) newline))
      ∙ sym (concat-snoc cs l) in
    let last : trim_line_end l ≡ assignment key encoded =
      trim-append (assignment key encoded) newline (trim-IsNewline newline end)
      ∙ trim-clean (assignment key encoded) clean in
    ap bodies whole
    ∙ bodies-concat (cs ++ l ∷ []) (All-snoc-IsLines cs l a t)
    ∙ map-append trim_line_end cs (l ∷ [])
    ∙ ap (λ bs. bs ++ trim_line_end l ∷ []) b
    ∙ ap (λ m. map trim_line_end ls ++ m ∷ []) last
    ∙ unfold bodies in refl
