-- ===== src/Sources/Consistent.antt =====
-- The catalogue that src/sources.rs holds in memory, and the bytes that it takes for its file's.
use tarvaultsync.Prelude.{
  ◌≡◌, refl, ◌∙◌, sym, ap, ◌⊎◌, inl, inr, Option, none, some, Bool, true, false, List, [], ◌∷◌,
  ◌++◌, ◌==◌, nat_eq, if◌then◌else◌, arith, All, Option-cases, Bool-cases,
}
use tarvaultsync.Prelude.Text.{Text, text_eq}
use tarvaultsync.Prelude.Map.{Map, lookup, has_key, insert, remove, lookup-insert, lookup-remove}
use tarvaultsync.Prelude.Result.{ok, Action, pure, ◌>>=◌, ◌>>◌, Result-cases}
use tarvaultsync.Prelude.Steps.{bind_ok}
use tarvaultsync.Core.{Bytes, ErrorCategory}
use tarvaultsync.Sources.{
  Connection, Catalogue, Sources, Shelf, SourcesParts, values, without, replaced, insert_some,
  release,
}
use tarvaultsync.Azure.{is_some}
use tarvaultsync.Vault.Source.{VaultSource}
use tarvaultsync.Sources.Edit.{
  read_catalogue, fresh_bytes, write_bytes, acquire_lock, persist, commit, with_added, with_removed,
  with_renewed,
}
use tarvaultsync.Sources.Find.{
  find, has_vault, IsKeyed, insert-IsKeyed, remove-IsKeyed, find-values, find-append, find-without,
  find-replaced, key_same, unknown, added_cases, reconnected_cases, has_key-insert, has_key-remove,
  has_vault-insert, has_vault-remove,
}

abbrev pub IsLocked : {W : Type 0} → VaultSource W → Type 0
IsLocked v = v.vault ≡ none

release-IsLocked :
    {W : Type 0} (o : Option (VaultSource W)) (vs : List (VaultSource W))
    → All IsLocked vs
    → All IsLocked (release o vs)
release-IsLocked none vs a = a
release-IsLocked (some v) vs a = (refl, a)

module _ {W : Type 0} (p : SourcesParts W) where
  -- The bytes that are held decode to the connections in memory.
  abbrev pub IsSavedAs : Option Bytes → Map Connection → Type 0
  IsSavedAs none m = (id : Text) → lookup id m ≡ none
  IsSavedAs (some bytes) m =
      (c : Catalogue) × (p.decode bytes ≡ some c)
      × (c.version ≡ 1)
      × ((id : Text) → find id c.connections ≡ lookup id m)

  pub record IsConsistent (s : Sources W) : Type 0 where
    pub keyed : IsKeyed s.connections
    -- The vaults in memory are those of the connections that have one.
    pub vaulted : (id : Text) → has_key id s.files ≡ has_vault (lookup id s.connections)
    pub saved : IsSavedAs s.saved_bytes s.connections
    -- A vault that left the map is locked.
    pub locked : All IsLocked s.released

  -- A `persist` that succeeds found the file as it was known, and wrote the encoded catalogue.
  fresh_bytes_ok :
      (expected : Option Bytes) (c : Catalogue) (w : W) (bytes : Bytes)
      → fresh_bytes p expected c w ≡ ok bytes
      → p.encode c ≡ some bytes
  unfolding fresh_bytes
  fresh_bytes_ok expected c w bytes h = elim (Result-cases (read_catalogue p w)) [
    | inr (e, q) ↦ absurd (ground arith)
    | inl (current, q) ↦ elim (Option-cases (p.encode c)) [
      | inl n ↦ ground arith
      | inr (b, n) ↦ ground arith
    ]
  ]

  persist_ok :
      (expected : Option Bytes) (c : Catalogue) (w w' : W) (bytes : Bytes)
      → persist p expected c w ≡ (ok bytes, w')
      → p.encode c ≡ some bytes
  unfolding persist
  persist_ok expected c w w' bytes h =
      let rest : Bytes → Action W ErrorCategory Bytes = λ b. write_bytes p b >> pure b in
      let check : Action W ErrorCategory Bytes = λ w. (fresh_bytes p expected c w, w) in
      let (_, w1, _, h1) = bind_ok (acquire_lock p) (λ _. check >>= rest) w w' bytes h in
      let (b, w2, h2, h3) = bind_ok check rest w1 w' bytes h1 in
      let (_, w3, _, h4) = bind_ok (write_bytes p b) (λ _. pure b) w2 w' bytes h3 in
      fresh_bytes_ok expected c w1 bytes (ground arith)

  pub commit_ok :
      (cs : List Connection) (change : Sources W → Sources W) (h h' : Shelf W)
      → commit p cs change h ≡ (ok tt, h')
      → (bytes : Bytes) × (p.encode (record { version = 1; connections = cs }) ≡ some bytes)
        × (h'.sources ≡ change (record h.sources { saved_bytes = some bytes }))
  unfolding commit
  commit_ok cs change h h' e =
      let c : Catalogue = record { version = 1; connections = cs } in
      let run = persist p h.sources.saved_bytes c h.world in
      elim (Result-cases run.0) [
        | inr (x, q) ↦ absurd (ground arith)
        | inl (bytes, q) ↦ (
          bytes,
          persist_ok h.sources.saved_bytes c h.world run.1 bytes (ap (λ r. (r, run.1)) q),
          ground arith,
        )
      ]

  vaulted_removed :
      (id j : Text) (s : Sources W)
      → IsConsistent s
      → has_key j (remove id s.files) ≡ has_vault (lookup j (remove id s.connections))
  vaulted_removed id j s t =
      has_key-remove j id s.files
      ∙ ap (λ (b : Bool). if id == j then false else b) (t.vaulted j)
      ∙ sym (has_vault-remove j id s.connections)

  pub vaulted_added :
      (c : Connection) (source : Option (VaultSource W)) (j : Text) (m : Map Connection)
      (vaults : Map (VaultSource W))
      → ((id : Text) → has_key id vaults ≡ has_vault (lookup id m))
      → has_vault (some c) ≡ is_some source
      → (has_vault (some c) ≡ true) ⊎ (has_vault (lookup c.id m) ≡ false)
      → has_key j (insert_some c.id source vaults) ≡ has_vault (lookup j (insert c.id c m))
  vaulted_added c none j m vaults t v (inl o) = absurd (ground arith)
  vaulted_added c none j m vaults t v (inr o) = elim (Bool-cases (c.id == j)) [
    | inl h ↦
        t j
        ∙ ap (λ k. has_vault (lookup k m)) (sym (key_same c.id j h))
        ∙ o
        ∙ sym v
        ∙ sym (has_vault-insert j c m ∙ rw h refl)
    | inr h ↦ t j ∙ sym (has_vault-insert j c m ∙ rw h refl)
  ]
  vaulted_added c (some u) j m vaults t v o =
      has_key-insert j c.id u vaults
      ∙ ap (λ (b : Bool). if c.id == j then true else b) (t j)
      ∙ ap (λ (b : Bool). if c.id == j then b else has_vault (lookup j m)) (sym v)
      ∙ sym (has_vault-insert j c m)

  -- What was encoded decodes to what it was.
  abbrev pub Decodes : Type 0
  Decodes = (c : Catalogue) (bytes : Bytes) → p.encode c ≡ some bytes → p.decode bytes ≡ some c

  module _ (decodes : Decodes) where
    saved_as :
        (cs : List Connection) (m : Map Connection) (bytes : Bytes)
        → p.encode (record { version = 1; connections = cs }) ≡ some bytes
        → ((id : Text) → find id cs ≡ lookup id m)
        → IsSavedAs (some bytes) m
    saved_as cs m bytes e f =
        let c : Catalogue = record { version = 1; connections = cs } in
        (c, decodes c bytes e, refl, f)

    pub find-added :
        (c : Connection) (m : Map Connection)
        → IsKeyed m
        → has_key c.id m ≡ false
        → (id : Text) → find id (values m ++ c ∷ []) ≡ lookup id (insert c.id c m)
    find-added c m t h id =
        let both : find id (values m ++ c ∷ []) ≡ (elim (lookup id m) [
          | some d ↦ some d
          | none ↦ (if c.id == id then some c else none)
        ]) =
          find-append id (values m) c ∙ rw (find-values id m t) refl in
        both
        ∙ added_cases id c (lookup id m) (λ e. unknown id c m h e)
        ∙ sym (lookup-insert id c.id c m)

    pub find-reconnected :
        (c old : Connection) (m : Map Connection)
        → IsKeyed m
        → lookup c.id m ≡ some old
        → (id : Text) → find id (replaced c (values m)) ≡ lookup id (insert c.id c m)
    find-reconnected c old m t h id =
        let both : find id (replaced c (values m)) ≡ (elim (lookup id m) [
          | none ↦ none
          | some d ↦ (if c.id == id then some c else some d)
        ]) =
          find-replaced id c (values m) ∙ rw (find-values id m t) refl in
        both
        ∙ reconnected_cases id c old (lookup id m)
            (λ e. ap (λ j. lookup j m) (sym (key_same c.id id e)) ∙ h)
        ∙ sym (lookup-insert id c.id c m)

    find-removed :
        (j : Text) (m : Map Connection)
        → IsKeyed m
        → (id : Text) → find id (without j (values m)) ≡ lookup id (remove j m)
    find-removed j m t id =
        find-without id j (values m) ∙ rw (find-values id m t) (sym (lookup-remove id j m))

    pub with_removed-IsConsistent :
        (id : Text) (s : Sources W) (bytes : Bytes)
        → IsConsistent s
        → p.encode (record { version = 1; connections = without id (values s.connections) })
          ≡ some bytes
        → IsConsistent (with_removed p id (record s { saved_bytes = some bytes }))
    with_removed-IsConsistent id s bytes t e = record {
      keyed = remove-IsKeyed id s.connections t.keyed;
      vaulted = λ j. vaulted_removed id j s t;
      saved =
          saved_as (without id (values s.connections)) (remove id s.connections) bytes e
            (find-removed id s.connections t.keyed);
      locked = release-IsLocked (lookup id s.files) s.released t.locked;
    }

    pub with_added-IsConsistent :
        (c : Connection) (source : Option (VaultSource W)) (s : Sources W) (cs : List Connection)
        (bytes : Bytes)
        → IsConsistent s
        → has_vault (some c) ≡ is_some source
        → (has_vault (some c) ≡ true) ⊎ (has_vault (lookup c.id s.connections) ≡ false)
        → p.encode (record { version = 1; connections = cs }) ≡ some bytes
        → ((id : Text) → find id cs ≡ lookup id (insert c.id c s.connections))
        → IsConsistent (with_added p c source (record s { saved_bytes = some bytes }))
    with_added-IsConsistent c source s cs bytes t v o e f = record {
      keyed = insert-IsKeyed c s.connections t.keyed;
      vaulted = λ j. vaulted_added c source j s.connections s.files t.vaulted v o;
      saved = saved_as cs (insert c.id c s.connections) bytes e f;
      locked = t.locked;
    }

    -- The same when a vault is replaced and locked
    pub with_renewed-IsConsistent :
        (c : Connection) (source : Option (VaultSource W)) (s : Sources W) (cs : List Connection)
        (bytes : Bytes)
        → IsConsistent s
        → has_vault (some c) ≡ is_some source
        → has_vault (some c) ≡ true
        → p.encode (record { version = 1; connections = cs }) ≡ some bytes
        → ((id : Text) → find id cs ≡ lookup id (insert c.id c s.connections))
        → IsConsistent (with_renewed p c source (record s { saved_bytes = some bytes }))
    with_renewed-IsConsistent c source s cs bytes t v o e f =
        with_added-IsConsistent c source
          (record s { released = release (lookup c.id s.files) s.released }) cs bytes
          (record {
            keyed = t.keyed;
            vaulted = t.vaulted;
            saved = t.saved;
            locked = release-IsLocked (lookup c.id s.files) s.released t.locked;
          })
          v (inl o) e f
