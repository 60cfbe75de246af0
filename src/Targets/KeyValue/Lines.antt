-- ===== src/Targets/KeyValue/Lines.antt =====
-- The lines of a text, without their ends.
use tarvaultsync.Prelude.{
  ℕ, ◌≡◌, refl, ◌≢◌, ◌∙◌, sym, ap, subst, ◌⊎◌, inl, inr, Bool, true, false, not, List, [], ◌∷◌,
  ◌++◌, map, ◌==◌, nat_eq, ℕ_discrete, all, arith, Bool-cases,
}
use mathlib.Core.List.{append_assoc, append-nil}
use tarvaultsync.Prelude.Text.{text}
use tarvaultsync.Core.{Bytes}
use tarvaultsync.Targets.KeyValue.{split_inclusive, cons_line, trim_line_end, ends_line}
use tarvaultsync.Targets.KeyValue.Escape.{is_clean, all-append}

abbrev pub has_no_feed : Bytes → Bool
has_no_feed s = all (λ c. not (c == b'\n')) s

-- A line with its line feed
abbrev pub IsTerminated : Bytes → Type 0
IsTerminated l = (b : Bytes) × (has_no_feed b ≡ true) × (l ≡ b ++ text "\n")

-- The last line may have none.
abbrev pub IsLine : Bytes → Type 0
IsLine l = IsTerminated l ⊎ ((has_no_feed l ≡ true) × (l ≢ []))

abbrev pub IsLines : List Bytes → Type 0
IsLines [] = Unit
IsLines (l ∷ []) = IsLine l
IsLines (l ∷ m ∷ ls) = IsTerminated l × IsLines (m ∷ ls)

abbrev pub concat : List Bytes → Bytes
concat [] = []
concat (l ∷ ls) = l ++ concat ls

unfoldable pub bodies : Bytes → List Bytes
bodies s = map trim_line_end (split_inclusive s)

split-terminated :
    (b s : Bytes)
    → has_no_feed b ≡ true
    → split_inclusive (b ++ (b'\n' ∷ s)) ≡ (b ++ text "\n") ∷ split_inclusive s
unfolding split_inclusive nat_eq ℕ_discrete
split-terminated [] s h = refl
split-terminated (c ∷ b) s h = ground (arith, split-terminated b s)

split-unterminated :
    (c : ℕ) (b : Bytes) → has_no_feed (c ∷ b) ≡ true → split_inclusive (c ∷ b) ≡ (c ∷ b) ∷ []
unfolding split_inclusive nat_eq
split-unterminated c [] h = ground arith
split-unterminated c (d ∷ b) h = ground (arith, split-unterminated d b)

IsTerminated-cons :
    (c : ℕ) (l : Bytes) → not (c == b'\n') ≡ true → IsTerminated l → IsTerminated (c ∷ l)
unfolding nat_eq
IsTerminated-cons c l h (b, n, e) = (c ∷ b, ground arith, ap (λ s. c ∷ s) e)

IsLines-cons_line :
    (c : ℕ) (ls : List Bytes) → not (c == b'\n') ≡ true → IsLines ls → IsLines (cons_line c ls)
unfolding nat_eq
IsLines-cons_line c [] h t = inr (ground arith, λ e. ground arith)
IsLines-cons_line c (l ∷ []) h (inl t) = inl (IsTerminated-cons c l h t)
IsLines-cons_line c (l ∷ []) h (inr (n, ne)) = inr (ground arith, λ e. ground arith)
IsLines-cons_line c (l ∷ m ∷ ls) h (t, more) = (IsTerminated-cons c l h t, more)

IsLines-feed : (ls : List Bytes) → IsLines ls → IsLines (text "\n" ∷ ls)
unfolding nat_eq
IsLines-feed [] t = inl ([], refl, refl)
IsLines-feed (l ∷ ls) t = (([], refl, refl), t)

concat-cons_line : (c : ℕ) (ls : List Bytes) → concat (cons_line c ls) ≡ c ∷ concat ls
concat-cons_line c [] = refl
concat-cons_line c (l ∷ ls) = refl

ends_line-feed : (b : Bytes) → ends_line (b ++ text "\n") ≡ true
unfolding ends_line nat_eq ℕ_discrete
ends_line-feed [] = refl
ends_line-feed (c ∷ []) = refl
ends_line-feed (c ∷ d ∷ b) = ends_line-feed (d ∷ b)

pub split_inclusive-IsLines : (s : Bytes) → IsLines (split_inclusive s)
unfolding split_inclusive nat_eq
split_inclusive-IsLines [] = tt
split_inclusive-IsLines (c ∷ s) = elim (Bool-cases (c == b'\n')) [
  | inl h ↦
      let e : b'\n' ≡ c = ground arith in
      rw h (
        subst (λ (d : ℕ). IsLines ((d ∷ []) ∷ split_inclusive s)) e
          (IsLines-feed (split_inclusive s) (split_inclusive-IsLines s)))
  | inr h ↦
      rw h (IsLines-cons_line c (split_inclusive s) (ground arith) (split_inclusive-IsLines s))
]

split-IsTerminated :
    (l s : Bytes) → IsTerminated l → split_inclusive (l ++ s) ≡ l ∷ split_inclusive s
split-IsTerminated l s (b, n, e) = rw e (rw append_assoc (split-terminated b s n))

split-IsLine : (l : Bytes) → IsLine l → split_inclusive (l ++ []) ≡ l ∷ []
split-IsLine l (inl t) = split-IsTerminated l [] t ∙ unfold split_inclusive in refl
split-IsLine [] (inr (n, ne)) = absurd (ne refl)
split-IsLine (c ∷ b) (inr (n, ne)) = rw append-nil (split-unterminated c b n)

-- A list of lines is what its text splits into.
pub split-concat : (ls : List Bytes) → IsLines ls → split_inclusive (concat ls) ≡ ls
split-concat [] t = unfold split_inclusive in refl
split-concat (l ∷ []) t = split-IsLine l t
split-concat (l ∷ m ∷ ls) (t, more) =
    split-IsTerminated l (concat (m ∷ ls)) t ∙ ap (λ rest. l ∷ rest) (split-concat (m ∷ ls) more)

pub bodies-concat : (ls : List Bytes) → IsLines ls → bodies (concat ls) ≡ map trim_line_end ls
unfolding bodies
bodies-concat ls t = ap (map trim_line_end) (split-concat ls t)

pub concat-split : (s : Bytes) → concat (split_inclusive s) ≡ s
unfolding split_inclusive
concat-split [] = refl
concat-split (c ∷ s) = elim (Bool-cases (c == b'\n')) [
  | inl h ↦ rw h (ap (λ t. c ∷ t) (concat-split s))
  | inr h ↦ rw h (concat-cons_line c (split_inclusive s) ∙ ap (λ t. c ∷ t) (concat-split s))
]

-- Line feeds and carriage returns at the end of a line make no difference to its body.
pub trim-append : (s e : Bytes) → trim_line_end e ≡ [] → trim_line_end (s ++ e) ≡ trim_line_end s
unfolding trim_line_end
trim-append [] e h = h
trim-append (c ∷ s) e h = ground (arith, trim-append s e h)

pub trim-clean : (s : Bytes) → all is_clean s ≡ true → trim_line_end s ≡ s
unfolding trim_line_end
trim-clean [] h = refl
trim-clean (c ∷ s) h = ground (arith, trim-clean s)

pub clean-has_no_feed : (s : Bytes) → all is_clean s ≡ true → has_no_feed s ≡ true
clean-has_no_feed [] h = refl
clean-has_no_feed (c ∷ s) h = ground (arith, clean-has_no_feed s)

-- Either end of line
abbrev pub IsNewline : Bytes → Type 0
IsNewline e = (e ≡ text "\n") ⊎ (e ≡ text "\r\n")

pub trim-IsNewline : (e : Bytes) → IsNewline e → trim_line_end e ≡ []
unfolding trim_line_end nat_eq ℕ_discrete
trim-IsNewline e (inl h) = rw h refl
trim-IsNewline e (inr h) = rw h refl

pub append-IsTerminated : (s e : Bytes) → has_no_feed s ≡ true → IsNewline e → IsTerminated (s ++ e)
unfolding nat_eq ℕ_discrete
append-IsTerminated s e n (inl h) = (s, n, ap (λ t. s ++ t) h)
append-IsTerminated s e n (inr h) = (
  s ++ text "\r",
  all-append (λ c. not (c == b'\n')) s (text "\r") ∙ rw n refl,
  ap (λ t. s ++ t) h ∙ sym (append_assoc s (text "\r") (text "\n")),
)

pub ends-IsTerminated : (l : Bytes) → IsTerminated l → ends_line l ≡ true
ends-IsTerminated l (b, n, e) = rw e (ends_line-feed b)

pub ends-unterminated : (l : Bytes) → has_no_feed l ≡ true → ends_line l ≡ false
unfolding ends_line
ends-unterminated [] n = refl
ends-unterminated (c ∷ []) n = ground arith
ends-unterminated (c ∷ d ∷ l) n = ground (arith, ends-unterminated (d ∷ l))
