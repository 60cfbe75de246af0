-- ===== src/BrowserImport/Quotes.antt =====
-- `strict_quotes` of src/browser_import.rs and the grammar of well-quoted tables.
use tarvaultsync.Prelude.{
  ℕ, ◌≡◌, refl, ◌≢◌, ◌∙◌, sym, ap, subst, ◌⊎◌, inl, inr, Bool, true, false, not, ◌&&◌, [], ◌∷◌,
  ◌++◌, ◌==◌, nat_eq, ℕ_discrete, all, if◌then◌else◌, arith, Bool-cases,
}
use mathlib.Core.List.{append_assoc, append-nil}
use tarvaultsync.Prelude.Text.{text}
use tarvaultsync.Prelude.Result.{ok, Result-cases}
use tarvaultsync.Core.{Bytes}
use tarvaultsync.BrowserImport.{
  is_separator, QuoteState, at_start, in_plain, in_quotes, after_quote, next_state, end_state,
  quotes_from, strict_quotes,
}

abbrev pub is_plain : ℕ → Bool
is_plain c = not (c == b'"') && not (is_separator c)

-- A quoted value, with its quotes written twice
unfoldable pub double : Bytes → Bytes
unfolding nat_eq
double [] = []
double (c ∷ s) = let rest = double s in if c == b'"' then b'"' ∷ b'"' ∷ rest else c ∷ rest

-- A field is bare, with no quote and no separator, or stands in quotes.
pub data Field : Type 0 where
  bare : (s : Bytes) → all is_plain s ≡ true → Field
  quoted : Bytes → Field

abbrev pub print : Field → Bytes
print (bare s h) = s
print (quoted v) = b'"' ∷ (double v ++ text "\"")

-- A table: fields, and a comma or an end of line between two of them
pub data IsTable : Bytes → Type 0 where
  last_field : (f : Field) → IsTable (print f)
  next_field :
      (f : Field) (c : ℕ) (s : Bytes)
      → is_separator c ≡ true
      → IsTable s
      → IsTable (print f ++ (c ∷ s))

-- What may stand behind a field
abbrev Tail : Bytes → Type 0
Tail t = (t ≡ []) ⊎ ((c : ℕ) × (s : Bytes) × (t ≡ c ∷ s) × (is_separator c ≡ true) × IsTable s)

abbrev InPlain : Bytes → Type 0
InPlain t = (b : Bytes) × (rest : Bytes) × (t ≡ b ++ rest) × (all is_plain b ≡ true) × Tail rest

abbrev InQuotes : Bytes → Type 0
InQuotes t = (v : Bytes) × (rest : Bytes) × (t ≡ double v ++ (b'"' ∷ rest)) × Tail rest

abbrev AfterQuote : Bytes → Type 0
AfterQuote t = Tail t ⊎ ((s : Bytes) × (t ≡ b'"' ∷ s) × InQuotes s)

abbrev Accepts : QuoteState → Bytes → Type 0
Accepts at_start t = IsTable t
Accepts in_plain t = InPlain t
Accepts in_quotes t = InQuotes t
Accepts after_quote t = AfterQuote t

field-Tail : (f : Field) (rest : Bytes) → Tail rest → IsTable (print f ++ rest)
field-Tail f rest (inl e) =
    subst (λ r. IsTable (print f ++ r)) (sym e)
      (subst IsTable (sym (append-nil (print f))) (last_field f))
field-Tail f rest (inr (c, s, e, k, t)) =
    subst (λ r. IsTable (print f ++ r)) (sym e) (next_field f c s k t)

plain-IsTable : (c : ℕ) (s : Bytes) → is_plain c ≡ true → InPlain s → IsTable (c ∷ s)
plain-IsTable c s h (b, rest, e, p, t) =
    subst IsTable (ap (λ r. c ∷ r) (sym e)) (field-Tail (bare (c ∷ b) (ground arith)) rest t)

quoted-IsTable : (s : Bytes) → InQuotes s → IsTable (b'"' ∷ s)
quoted-IsTable s (v, rest, e, t) =
    subst IsTable (ap (λ r. b'"' ∷ r) (append_assoc (double v) (text "\"") rest ∙ sym e))
      (field-Tail (quoted v) rest t)

end_Accepts : (state : QuoteState) → end_state state ≡ ok tt → Accepts state []
unfolding end_state
end_Accepts at_start h = last_field (bare [] refl)
end_Accepts in_plain h = ([], [], refl, refl, inl refl)
end_Accepts in_quotes h = absurd (ground arith)
end_Accepts after_quote h = inl (inl refl)

separated : (c : ℕ) (s : Bytes) → is_separator c ≡ true → IsTable s → Tail (c ∷ s)
separated c s h t = inr (c, s, refl, h, t)

byte_eq : (a c : ℕ) → (c == a) ≡ true → a ≡ c
unfolding nat_eq
byte_eq a c h = ground arith

double-quote : (v : Bytes) → double (b'"' ∷ v) ≡ b'"' ∷ b'"' ∷ double v
unfolding double nat_eq ℕ_discrete
double-quote v = refl

double-other : (c : ℕ) (v : Bytes) → (c == b'"') ≡ false → double (c ∷ v) ≡ c ∷ double v
unfolding double
double-other c v h = rw h refl

again : (s : Bytes) → AfterQuote s → InQuotes (b'"' ∷ s)
again s (inl t) = ([], s, unfold double in refl, t)
again s (inr (s', e, (v, rest, f, t))) = (
  b'"' ∷ v,
  rest,
  ap (λ r. b'"' ∷ r) e
      ∙ ap (λ r. b'"' ∷ b'"' ∷ r) f
      ∙ ap (λ r. r ++ (b'"' ∷ rest)) (sym (double-quote v)),
  t,
)

inside : (c : ℕ) (s : Bytes) → (c == b'"') ≡ false → InQuotes s → InQuotes (c ∷ s)
inside c s h (v, rest, e, t) =
    (c ∷ v, rest, ap (λ r. c ∷ r) e ∙ ap (λ r. r ++ (b'"' ∷ rest)) (sym (double-other c v h)), t)

longer : (c : ℕ) (s : Bytes) → is_plain c ≡ true → InPlain s → InPlain (c ∷ s)
longer c s h (b, rest, e, p, t) = (c ∷ b, rest, ap (λ r. c ∷ r) e, ground arith, t)

-- One byte back
step_back :
    (state state' : QuoteState) (c : ℕ) (s : Bytes)
    → next_state state c ≡ ok state'
    → Accepts state' s
    → Accepts state (c ∷ s)
unfolding next_state
step_back at_start state' c s h a = elim (Bool-cases (c == b'"')) [
  | inl q ↦
      let e : state' ≡ in_quotes = ground arith in
      subst (λ (d : ℕ). IsTable (d ∷ s)) (byte_eq b'"' c q)
        (quoted-IsTable s (subst (λ st. Accepts st s) e a))
  | inr q ↦ elim (Bool-cases (is_separator c)) [
    | inl k ↦
        let e : state' ≡ at_start = ground arith in
        next_field (bare [] refl) c s k (subst (λ st. Accepts st s) e a)
    | inr k ↦
        let e : state' ≡ in_plain = ground arith in
        plain-IsTable c s (ground arith) (subst (λ st. Accepts st s) e a)
  ]
]
step_back in_plain state' c s h a = elim (Bool-cases (is_separator c)) [
  | inl k ↦
      let e : state' ≡ at_start = ground arith in
      ([], c ∷ s, refl, refl, separated c s k (subst (λ st. Accepts st s) e a))
  | inr k ↦ elim (Bool-cases (c == b'"')) [
    | inl q ↦ absurd (ground arith)
    | inr q ↦
        let e : state' ≡ in_plain = ground arith in
        longer c s (ground arith) (subst (λ st. Accepts st s) e a)
  ]
]
step_back in_quotes state' c s h a = elim (Bool-cases (c == b'"')) [
  | inl q ↦
      let e : state' ≡ after_quote = ground arith in
      subst (λ (d : ℕ). InQuotes (d ∷ s)) (byte_eq b'"' c q)
        (again s (subst (λ st. Accepts st s) e a))
  | inr q ↦
      let e : state' ≡ in_quotes = ground arith in inside c s q (subst (λ st. Accepts st s) e a)
]
step_back after_quote state' c s h a = elim (Bool-cases (is_separator c)) [
  | inl k ↦
      let e : state' ≡ at_start = ground arith in
      inl (separated c s k (subst (λ st. Accepts st s) e a))
  | inr k ↦ elim (Bool-cases (c == b'"')) [
    | inl q ↦
        let e : state' ≡ in_quotes = ground arith in
        inr (s, ap (λ (d : ℕ). d ∷ s) (sym (byte_eq b'"' c q)), subst (λ st. Accepts st s) e a)
    | inr q ↦ absurd (ground arith)
  ]
]

accepted : (state : QuoteState) (s : Bytes) → quotes_from state s ≡ ok tt → Accepts state s
unfolding quotes_from
accepted state [] h = end_Accepts state h
accepted state (c ∷ s) h = elim (Result-cases (next_state state c)) [
  | inr (e, q) ↦ absurd (ground arith)
  | inl (state', q) ↦ step_back state state' c s q (accepted state' s (ground arith))
]

-- The run over a field ends behind it.
plain_run :
    (b rest : Bytes)
    → all is_plain b ≡ true
    → quotes_from in_plain (b ++ rest) ≡ quotes_from in_plain rest
unfolding quotes_from next_state
plain_run [] rest h = refl
plain_run (c ∷ b) rest h = ground (arith, plain_run b rest)

quoted_run :
    (v rest : Bytes)
    → quotes_from in_quotes (double v ++ (b'"' ∷ rest)) ≡ quotes_from after_quote rest
unfolding quotes_from next_state double nat_eq ℕ_discrete
quoted_run [] rest = refl
quoted_run (c ∷ v) rest = elim (Bool-cases (c == b'"')) [
  | inl h ↦ rw h (quoted_run v rest)
  | inr h ↦ ground (arith, quoted_run v rest)
]

at_separator :
    (state : QuoteState) (c : ℕ) (s : Bytes)
    → state ≢ in_quotes
    → is_separator c ≡ true
    → quotes_from state (c ∷ s) ≡ quotes_from at_start s
unfolding quotes_from next_state nat_eq
at_separator at_start c s n h = ground arith
at_separator in_plain c s n h = ground arith
at_separator in_quotes c s n h = absurd (n refl)
at_separator after_quote c s n h = ground arith

plain_start :
    (c : ℕ) (s : Bytes) → is_plain c ≡ true → quotes_from at_start (c ∷ s) ≡ quotes_from in_plain s
unfolding quotes_from next_state
plain_start c s h = ground arith

quote_start : (s : Bytes) → quotes_from at_start (b'"' ∷ s) ≡ quotes_from in_quotes s
unfolding quotes_from next_state nat_eq ℕ_discrete
quote_start s = refl

-- The state behind a field
abbrev behind : Field → QuoteState
behind (bare [] h) = at_start
behind (bare (c ∷ s) h) = in_plain
behind (quoted v) = after_quote

field_run :
    (f : Field) (rest : Bytes)
    → quotes_from at_start (print f ++ rest) ≡ quotes_from (behind f) rest
field_run (bare [] h) rest = refl
field_run (bare (c ∷ b) h) rest =
    plain_start c (b ++ rest) (ground arith) ∙ plain_run b rest (ground arith)
field_run (quoted v) rest =
    quote_start ((double v ++ text "\"") ++ rest)
    ∙ ap (quotes_from in_quotes) (append_assoc (double v) (text "\"") rest)
    ∙ quoted_run v rest

behind-ne : (f : Field) → behind f ≢ in_quotes
behind-ne (bare [] h) e = cc
behind-ne (bare (c ∷ s) h) e = cc
behind-ne (quoted v) e = cc

behind-end : (f : Field) → quotes_from (behind f) [] ≡ ok tt
unfolding quotes_from end_state
behind-end (bare [] h) = refl
behind-end (bare (c ∷ s) h) = refl
behind-end (quoted v) = refl

complete : (s : Bytes) → IsTable s → quotes_from at_start s ≡ ok tt
complete _ (last_field f) =
    ap (quotes_from at_start) (sym (append-nil (print f))) ∙ field_run f [] ∙ behind-end f
complete _ (next_field f c s h t) =
    field_run f (c ∷ s) ∙ at_separator (behind f) c s (behind-ne f) h ∙ complete s t

-- The check passes exactly the tables: fields with a comma or an end of line between two, each bare,
-- with neither quote nor separator, or in quotes, with its quotes written twice.
pub strict_quotes-IsTable :
    (s : Bytes) → (strict_quotes s ≡ ok tt → IsTable s) × (IsTable s → strict_quotes s ≡ ok tt)
unfolding strict_quotes
strict_quotes-IsTable s = (λ h. accepted at_start s h, λ t. complete s t)
