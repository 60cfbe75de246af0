-- ===== src/Sources/Find.antt =====
-- The connections of src/sources.rs in a list and in a map: the first with an id.
use tarvaultsync.Prelude.{
  ◌≡◌, refl, ◌∙◌, ap, inl, inr, Option, none, some, Bool, true, false, List, [], ◌∷◌, ◌++◌, ◌==◌,
  nat_eq, if◌then◌else◌, arith, Option-cases, Bool-cases,
}
use tarvaultsync.Prelude.Text.{Text, text_eq, text_lt}
use tarvaultsync.Prelude.Map.{Map, lookup, has_key, insert, remove, lookup-insert, lookup-remove}
use tarvaultsync.Sources.{
  file_system, azure_key_vault, drive, Connection, values, without, replaced,
}

-- The connection of an id in a saved list
abbrev pub find : Text → List Connection → Option Connection
find id [] = none
find id (c ∷ cs) = let rest = find id cs in if c.id == id then some c else rest

-- Does a connection have a vault that is kept in memory?
abbrev pub has_vault : Option Connection → Bool
has_vault none = false
has_vault (some c) = elim c.location [
  | file_system _ ↦ true
  | azure_key_vault _ ↦ false
  | drive _ ↦ true
]

-- Each connection is under its id.
abbrev pub IsKeyed : Map Connection → Type 0
IsKeyed [] = Unit
IsKeyed ((k, c) ∷ m) = (c.id ≡ k) × IsKeyed m

pub insert-IsKeyed : (c : Connection) (m : Map Connection) → IsKeyed m → IsKeyed (insert c.id c m)
unfolding insert
insert-IsKeyed c [] t = (refl, tt)
insert-IsKeyed c ((k, d) ∷ m) (e, t) = elim (Bool-cases (k == c.id)) [
  | inl h ↦ rw h (refl, t)
  | inr h ↦ elim (Bool-cases (text_lt c.id k)) [
    | inl l ↦ rw (h, l) (refl, (e, t))
    | inr l ↦ rw (h, l) (e, insert-IsKeyed c m t)
  ]
]

pub remove-IsKeyed : (id : Text) (m : Map Connection) → IsKeyed m → IsKeyed (remove id m)
unfolding remove
remove-IsKeyed id [] t = tt
remove-IsKeyed id ((k, d) ∷ m) (e, t) = elim (Bool-cases (k == id)) [
  | inl h ↦ rw h (remove-IsKeyed id m t)
  | inr h ↦ rw h (e, remove-IsKeyed id m t)
]

pub find-values : (id : Text) (m : Map Connection) → IsKeyed m → find id (values m) ≡ lookup id m
unfolding lookup
find-values id [] t = refl
find-values id ((k, c) ∷ m) (e, t) =
    ap (λ j. if j == id then some c else find id (values m)) e
    ∙ ap (λ o. if k == id then some c else o) (find-values id m t)

pub find-append :
    (id : Text) (cs : List Connection) (c : Connection)
    → find id (cs ++ c ∷ [])
      ≡ (elim (find id cs) [ some d ↦ some d | none ↦ (if c.id == id then some c else none) ])
find-append id [] c = refl
find-append id (d ∷ cs) c = elim (Bool-cases (d.id == id)) [
  | inl h ↦ rw h refl
  | inr h ↦ rw h (find-append id cs c)
]

pub find-without :
    (id j : Text) (cs : List Connection)
    → find id (without j cs) ≡ (if j == id then none else find id cs)
find-without id j [] = ground arith
find-without id j (c ∷ cs) = ground (arith, find-without id j cs)

pub find-replaced :
    (id : Text) (new : Connection) (cs : List Connection)
    → find id (replaced new cs)
      ≡ (elim (find id cs) [ none ↦ none | some d ↦ (if new.id == id then some new else some d) ])
find-replaced id new [] = refl
find-replaced id new (c ∷ cs) = ground (arith, find-replaced id new cs)

pub key_same : (j id : Text) → (j == id) ≡ true → j ≡ id
unfolding text_eq
key_same j id h = ground arith

pub unknown :
    (id : Text) (c : Connection) (m : Map Connection)
    → has_key c.id m ≡ false
    → (c.id == id) ≡ true
    → lookup id m ≡ none
unknown id c m h e = elim (Option-cases (lookup id m)) [
  | inl n ↦ n
  | inr (d, n) ↦ let found = ap (λ j. lookup j m) (key_same c.id id e) ∙ n in absurd (ground arith)
]

pub added_cases :
    (id : Text) (c : Connection) (o : Option Connection)
    → ((c.id == id) ≡ true → o ≡ none)
    → (elim o [ some d ↦ some d | none ↦ (if c.id == id then some c else none) ])
      ≡ (if c.id == id then some c else o)
added_cases id c none h = refl
added_cases id c (some d) h = elim (Bool-cases (c.id == id)) [
  | inl e ↦ absurd (ground (arith, h e))
  | inr e ↦ rw e refl
]

pub reconnected_cases :
    (id : Text) (c old : Connection) (o : Option Connection)
    → ((c.id == id) ≡ true → o ≡ some old)
    → (elim o [ none ↦ none | some d ↦ (if c.id == id then some c else some d) ])
      ≡ (if c.id == id then some c else o)
reconnected_cases id c old none h = elim (Bool-cases (c.id == id)) [
  | inl e ↦ absurd (ground (arith, h e))
  | inr e ↦ rw e refl
]
reconnected_cases id c old (some d) h = refl

module _ {V : Type 0} where
  pub has_key-insert :
      (j k : Text) (v : V) (m : Map V)
      → has_key j (insert k v m) ≡ (if k == j then true else has_key j m)
  has_key-insert j k v m = elim (Bool-cases (k == j)) [
    | inl h ↦ ground (arith, lookup-insert j k v m)
    | inr h ↦ ground (arith, lookup-insert j k v m)
  ]

  pub has_key-remove :
      (j k : Text) (m : Map V) → has_key j (remove k m) ≡ (if k == j then false else has_key j m)
  has_key-remove j k m = elim (Bool-cases (k == j)) [
    | inl h ↦ ground (arith, lookup-remove j k m)
    | inr h ↦ ground (arith, lookup-remove j k m)
  ]

has_vault-if :
    (b : Bool) (x y : Option Connection)
    → has_vault (if b then x else y) ≡ (if b then has_vault x else has_vault y)
has_vault-if true x y = refl
has_vault-if false x y = refl

pub has_vault-insert :
    (j : Text) (c : Connection) (m : Map Connection)
    → has_vault (lookup j (insert c.id c m))
      ≡ (if c.id == j then has_vault (some c) else has_vault (lookup j m))
has_vault-insert j c m =
    ap has_vault (lookup-insert j c.id c m) ∙ has_vault-if (c.id == j) (some c) (lookup j m)

pub has_vault-remove :
    (j k : Text) (m : Map Connection)
    → has_vault (lookup j (remove k m)) ≡ (if k == j then false else has_vault (lookup j m))
has_vault-remove j k m =
    ap has_vault (lookup-remove j k m) ∙ has_vault-if (k == j) none (lookup j m)

pub no_vault :
    (id : Text) (m : Map Connection) → has_key id m ≡ false → has_vault (lookup id m) ≡ false
no_vault id m h = elim (Option-cases (lookup id m)) [
  | inl n ↦ rw n refl
  | inr (c, n) ↦ absurd (ground arith)
]
