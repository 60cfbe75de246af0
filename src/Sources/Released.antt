-- ===== src/Sources/Released.antt =====
-- The vaults that leave the catalogue of src/sources.rs.
use tarvaultsync.Prelude.{
  ◌≡◌, ◌∙◌, sym, ap, subst, ◌⊎◌, inl, inr, Option, none, some, false, List, ◌==◌, arith,
  Option-cases, Bool-cases,
}
use tarvaultsync.Prelude.Text.{Text, text_eq}
use tarvaultsync.Prelude.Map.{Map, lookup, has_key, remove, lookup-insert, lookup-remove}
use tarvaultsync.Prelude.Result.{Result-cases}
use tarvaultsync.Core.{Bytes}
use tarvaultsync.Azure.Newest.{Mem}
use tarvaultsync.Vault.Source.{VaultSource}
use tarvaultsync.Sources.{Connection, Sources, Shelf, SourcesParts, insert_some, release}
use tarvaultsync.Sources.Edit.{persist, commit}
use tarvaultsync.Sources.Find.{key_same, no_vault}
use tarvaultsync.Sources.Consistent.{IsConsistent}
use tarvaultsync.Sources.Change.{Change, change}
use tarvaultsync.Sources.Kept.{Edit, added, removed, renewed, change-Edits}

module _ {W : Type 0} where
  abbrev pub locked : VaultSource W → VaultSource W
  locked v = record v { vault = none }

  -- A vault of the first catalogue is in the second one, or was set aside, locked; what was set aside
  -- stays there.
  pub record Releases (s s' : Sources W) : Type 0 where
    pub left :
        (id : Text) (v : VaultSource W)
        → lookup id s.files ≡ some v
        → (lookup id s'.files ≡ some v) ⊎ Mem (locked v) s'.released
    pub grows : (v : VaultSource W) → Mem v s.released → Mem v s'.released

  pub Releases-trans : (a b c : Sources W) → Releases a b → Releases b c → Releases a c
  Releases-trans a b c f g = record {
    left = λ id v h. elim (f.left id v h) [ inl k ↦ g.left id v k | inr m ↦ inr (g.grows _ m) ];
    grows = λ v m. g.grows v (f.grows v m);
  }

  pub Releases-refl : (s : Sources W) → Releases s s
  Releases-refl s = record { left = λ id v h. inl h; grows = λ v m. m }

  release-Mem :
      (o : Option (VaultSource W)) (vs : List (VaultSource W)) (v : VaultSource W)
      → o ≡ some v
      → Mem (locked v) (release o vs)
  release-Mem none vs v h = absurd (ground arith)
  release-Mem (some u) vs v h = let e : v ≡ u = ground arith in inl (ap locked e)

  release-grows :
      (o : Option (VaultSource W)) (vs : List (VaultSource W)) (v : VaultSource W)
      → Mem v vs
      → Mem v (release o vs)
  release-grows none vs v m = m
  release-grows (some u) vs v m = inr m

  removed-left :
      (id j : Text) (files : Map (VaultSource W)) (vs : List (VaultSource W)) (v : VaultSource W)
      → lookup j files ≡ some v
      → (lookup j (remove id files) ≡ some v) ⊎ Mem (locked v) (release (lookup id files) vs)
  removed-left id j files vs v h = elim (Bool-cases (id == j)) [
    | inr e ↦ inl (lookup-remove j id files ∙ rw e h)
    | inl e ↦
        inr (release-Mem (lookup id files) vs v (ap (λ k. lookup k files) (key_same id j e) ∙ h))
  ]

  renewed-left :
      (id j : Text) (source : Option (VaultSource W)) (files : Map (VaultSource W))
      (vs : List (VaultSource W)) (v : VaultSource W)
      → lookup j files ≡ some v
      → (lookup j (insert_some id source files) ≡ some v)
        ⊎ Mem (locked v) (release (lookup id files) vs)
  renewed-left id j none files vs v h = inl h
  renewed-left id j (some u) files vs v h = elim (Bool-cases (id == j)) [
    | inr e ↦ inl (lookup-insert j id u files ∙ rw e h)
    | inl e ↦
        inr (release-Mem (lookup id files) vs v (ap (λ k. lookup k files) (key_same id j e) ∙ h))
  ]

  added-left :
      (id j : Text) (source : Option (VaultSource W)) (files : Map (VaultSource W))
      (v : VaultSource W)
      → lookup id files ≡ none
      → lookup j files ≡ some v
      → lookup j (insert_some id source files) ≡ some v
  added-left id j none files v n h = h
  added-left id j (some u) files v n h = elim (Bool-cases (id == j)) [
    | inr e ↦ lookup-insert j id u files ∙ rw e h
    | inl e ↦
        let gone : none ≡ some v = sym n ∙ ap (λ k. lookup k files) (key_same id j e) ∙ h in
        absurd (ground arith)
  ]

  no_key :
      (id : Text) (files : Map (VaultSource W)) → has_key id files ≡ false → lookup id files ≡ none
  no_key id files h = elim (Option-cases (lookup id files)) [
    | inl n ↦ n
    | inr (v, n) ↦ absurd (ground arith)
  ]

module _ {W : Type 0} (p : SourcesParts W) where
  Edit-Releases :
      (h : Shelf W) (f : Sources W → Sources W) (saved : Option Bytes)
      → Edit p h f
      → IsConsistent p h.sources
      → Releases h.sources (f (record h.sources { saved_bytes = saved }))
  Edit-Releases h _ saved (added c source k) t = record {
    left = λ id v e. inl (
        added-left c.id id source h.sources.files v
          (no_key c.id h.sources.files (t.vaulted c.id ∙ no_vault c.id h.sources.connections k)) e);
    grows = λ v m. m;
  }
  Edit-Releases h _ saved (removed id) t = record {
    left = λ j v e. removed-left id j h.sources.files h.sources.released v e;
    grows = λ v m. release-grows (lookup id h.sources.files) h.sources.released v m;
  }
  Edit-Releases h _ saved (renewed c source) t = record {
    left = λ j v e. renewed-left c.id j source h.sources.files h.sources.released v e;
    grows = λ v m. release-grows (lookup c.id h.sources.files) h.sources.released v m;
  }

  commit_cases :
      (cs : List Connection) (f : Sources W → Sources W) (h : Shelf W)
      → ((commit p cs f h).1.sources ≡ h.sources)
        ⊎ ((saved : Option Bytes) × ((commit p cs f h).1.sources
              ≡ f (record h.sources { saved_bytes = saved })))
  unfolding commit
  commit_cases cs f h =
      elim (Result-cases
        (persist p h.sources.saved_bytes (record { version = 1; connections = cs }) h.world).0) [
          | inl (bytes, q) ↦ inr (some bytes, ground arith)
          | inr (e, q) ↦ inl (ground arith)
        ]

  pub change-Releases :
      (c : Change) (h : Shelf W)
      → IsConsistent p h.sources
      → Releases h.sources (change p c h).1.sources
  change-Releases c h t = elim (change-Edits p c h) [
    | inl e ↦ subst (λ r. Releases h.sources r.sources) (sym e) (Releases-refl h.sources)
    | inr (cs, f, edit, e) ↦
        subst (λ r. Releases h.sources r.1.sources) (sym e)
          (elim (commit_cases cs f h) [
            | inl q ↦ subst (Releases h.sources) (sym q) (Releases-refl h.sources)
            | inr (saved, q) ↦ subst (Releases h.sources) (sym q) (Edit-Releases h f saved edit t)
          ])
  ]
