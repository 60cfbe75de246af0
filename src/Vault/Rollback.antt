-- ===== src/Vault/Rollback.antt =====
-- What a `put` of src/vault.rs that fails leaves behind.
use tarvaultsync.Prelude.{
  ℕ, zero, suc, ◌≡◌, refl, ◌∙◌, sym, subst, ◌⊎◌, inl, inr, none, some, Bool, true, false, not, ◌||◌,
  ltb, ◌/◌, arith, Bool-cases, Option-cases, length,
}
use tarvaultsync.Prelude.Text.{Text, text_eq}
use tarvaultsync.Prelude.Map.{Map, lookup, insert, remove, has_key, lookup-insert, lookup-remove}
use tarvaultsync.Prelude.Result.{ok, err, Result-cases}
use tarvaultsync.Core.{SecretPayload}
use tarvaultsync.Vault.{
  VaultParts, VaultError, EntryMeta, SealedPayload, locked, seal_payload, lock_for_update,
  max_vault_bytes,
}
use tarvaultsync.Core.Labels.{safe_label}
use tarvaultsync.Vault.Local.{
  LocalVault, Session, Halt, failure, put_content, undo_put, old_sealed, draw_version, persist_or,
  persist, store_entry, touch, cleared, reload_inner, put,
}
use tarvaultsync.Vault.Idle.{touched, touch_cases}

-- The two vaults hold the same entries and the same payloads.
abbrev pub Agree : {W : Type 0} → LocalVault W → LocalVault W → Type 0
Agree v u =
    ((id : Text) → lookup id u.manifest.entries ≡ lookup id v.manifest.entries)
    × ((version : Text) → lookup version u.sealed ≡ lookup version v.sealed)

module _ {V : Type 0} where
  -- A new key put in and taken out again
  undo_insert :
      (j k : Text) (v : V) (m : Map V)
      → lookup k m ≡ none
      → lookup j (remove k (insert k v m)) ≡ lookup j m
  undo_insert j k v m n = rw (lookup-remove, lookup-insert) (ground arith)

  -- The value of a key replaced and put back
  undo_replace :
      (j k : Text) (v old : V) (m : Map V)
      → lookup k m ≡ some old
      → lookup j (insert k old (remove k (insert k v m))) ≡ lookup j m
  undo_replace j k v old m o = rw (lookup-insert, lookup-remove, lookup-insert) (ground arith)

  remove_absent : (j k : Text) (m : Map V) → lookup k m ≡ none → lookup j (remove k m) ≡ lookup j m
  remove_absent j k m n = rw lookup-remove (ground arith)

  pub reinsert :
      (j k : Text) (v : V) (m : Map V)
      → lookup k m ≡ some v
      → lookup j (insert k v (remove k m)) ≡ lookup j m
  reinsert j k v m n = rw (lookup-insert, lookup-remove) (ground arith)

  still_absent : (j k : Text) (m : Map V) → lookup j m ≡ none → lookup j (remove k m) ≡ none
  still_absent j k m n = rw lookup-remove (ground arith)

  insert_alike :
      (j k : Text) (v : V) (m n : Map V)
      → lookup j m ≡ lookup j n
      → lookup j (insert k v m) ≡ lookup j (insert k v n)
  insert_alike j k v m n h = rw (lookup-insert, lookup-insert) (ground arith)

module _ {W : Type 0} where
  undo_put-Agree :
      (id : Text) (meta : EntryMeta) (payload : SealedPayload) (v : LocalVault W)
      → lookup meta.version v.sealed ≡ none
      → let old = lookup id v.manifest.entries in
        Agree v
          (undo_put id meta.version old (old_sealed old v.sealed) (put_content id meta payload v))
  unfolding undo_put put_content
  undo_put-Agree id meta payload v fresh =
      let entries = v.manifest.entries in
      elim (Option-cases (lookup id entries)) [
        | inl n ↦ rw n (
          λ j. undo_insert j id meta entries n,
          λ j. undo_insert j meta.version payload v.sealed fresh,
        )
        | inr (old, o) ↦
            let rest = remove old.version v.sealed in
            let undone = λ (j : Text).
              undo_insert j meta.version payload rest
                (still_absent meta.version old.version v.sealed fresh) in
            elim (Option-cases (lookup old.version v.sealed)) [
              | inl n ↦
                  rw (o, n)
                    (
                      λ j. undo_replace j id meta old entries o,
                      λ j. undone j ∙ remove_absent j old.version v.sealed n,
                    )
              | inr (before, n) ↦
                  rw (o, n)
                    (
                      λ j. undo_replace j id meta old entries o,
                      λ j.
                          insert_alike j old.version before
                            (remove meta.version (insert meta.version payload rest)) rest (undone j)
                          ∙ reinsert j old.version before v.sealed n,
                    )
            ]
      ]

abbrev pub Agree-refl : {W : Type 0} → (v : LocalVault W) → Agree v v
Agree-refl v = (λ id. refl, λ version. refl)

pub Agree-as : {W : Type 0} → (v u u' : LocalVault W) → u' ≡ u → Agree v u → Agree v u'
Agree-as v u u' e a = subst (Agree v) (sym e) a

module _ {W : Type 0} (p : VaultParts W) where
  draw_version-free :
      (tries : ℕ) (taken : Text → Bool) (w w' : W) (c : Text)
      → draw_version p tries taken w ≡ (ok c, w')
      → taken c ≡ false
  unfolding draw_version
  draw_version-free zero taken w w' c q = absurd (ground arith)
  draw_version-free (suc tries) taken w w' c q =
      ground (arith, draw_version-free tries taken (p.fill_bytes 16 w).1 w' c)

  store_entry-Agree :
      (tries : ℕ) (id : Text) (payload : SecretPayload) (s s' : Session W) (h : Halt)
      → store_entry p tries id payload s ≡ (err h, s')
      → Agree s.vault s'.vault
  unfolding store_entry persist_or
  store_entry-Agree tries id payload s s' h q =
      let v = s.vault in
      let taken = λ (c : Text). has_key c v.sealed in
      let w = (draw_version p tries taken s.world).1 in
      elim (Result-cases (draw_version p tries taken s.world).0) [
        | inr (e, d) ↦ Agree-as v v s'.vault (ground arith) (Agree-refl v)
        | inl (version, d) ↦
            elim (Result-cases (seal_payload p v.key id version payload.bytes w).0) [
              | inr (e, r) ↦ Agree-as v v s'.vault (ground arith) (Agree-refl v)
              | inl (sealed, r) ↦
                  let meta : EntryMeta = record { kind = payload.kind; version = version } in
                  let fresh = draw_version-free tries taken s.world w version (ground arith) in
                  let old = lookup id v.manifest.entries in
                  elim (Result-cases
                    (persist p (put_content id meta sealed v) false
                      (seal_payload p v.key id version payload.bytes w).1).0) [
                        | inl (u, k) ↦ absurd (ground arith)
                        | inr (e, k) ↦
                            let undone =
                              undo_put id version old (old_sealed old v.sealed)
                                (put_content id meta sealed v) in
                            Agree-as v undone s'.vault (ground arith)
                              (undo_put-Agree id meta sealed v (ground arith))
                      ]
            ]
      ]

  pub reload_err :
      (s : Session W) (e : VaultError)
      → (reload_inner p true s).0 ≡ err e
      → (reload_inner p true s).1.vault ≡ s.vault
  unfolding reload_inner
  reload_err s e q = ground arith

  locked_put :
      (tries : ℕ) (id : Text) (payload : SecretPayload) (s t s' : Session W) (h : Halt)
      → touch p s ≡ (err locked, t)
      → put p tries id payload s ≡ (err h, s')
      → (h ≡ failure locked) × (s'.vault ≡ t.vault)
  unfolding put
  locked_put tries id payload s t s' h q k = ground arith

  -- After `touch`: the checks, the lock, and what is read back
  after_touch :
      (tries : ℕ) (id : Text) (payload : SecretPayload) (s s' t : Session W) (h : Halt)
      → touch p s ≡ (ok tt, t)
      → put p tries id payload s ≡ (err h, s')
      → (s'.vault ≡ t.vault)
        ⊎ ((s1 : Session W) × (s2 : Session W) × (s1.vault ≡ t.vault)
            × (reload_inner p true s1 ≡ (ok tt, s2))
            × (store_entry p tries id payload s2 ≡ (err h, s')))
  unfolding put
  after_touch tries id payload s s' t h q k =
      let refused = not (safe_label id) || ltb (max_vault_bytes / 2) (length payload.bytes) in
      elim (Bool-cases refused) [
        | inl r ↦ inl (ground arith)
        | inr r ↦ elim (Result-cases (lock_for_update p t.vault.path t.world).0) [
          | inr (e, l) ↦ inl (ground arith)
          | inl (u, l) ↦
              let s1 : Session W = record t {
                world = (lock_for_update p t.vault.path t.world).1;
              } in
              elim (Result-cases (reload_inner p true s1).0) [
                | inr (e, m) ↦ inl (ground (arith, reload_err s1 e m))
                | inl (u, m) ↦
                    inr (s1, (reload_inner p true s1).1, refl, ground arith, ground arith)
              ]
        ]
      ]

  -- `put` fails in one of three ways: with the vault as it was; locked, with nothing left in it; or
  -- with the entries and payloads that it had just read back from the file.
  pub put-rolls_back :
      (tries : ℕ) (id : Text) (payload : SecretPayload) (s s' : Session W) (h : Halt)
      → put p tries id payload s ≡ (err h, s')
      → Agree s.vault s'.vault
        ⊎ ((h ≡ failure locked) × (s'.vault ≡ cleared s.vault))
        ⊎ ((s1 : Session W) × (s2 : Session W) × (reload_inner p true s1 ≡ (ok tt, s2))
            × Agree s.vault s1.vault
            × Agree s2.vault s'.vault)
  put-rolls_back tries id payload s s' h q = elim (touch_cases p s) [
    | inl t ↦
        inr (inl (locked_put tries id payload s (record s { vault = cleared s.vault }) s' h t q))
    | inr t ↦ elim (after_touch tries id payload s s' (touched p s) h t q) [
      | inl e ↦ inl (Agree-as s.vault (touched p s).vault s'.vault e (Agree-refl s.vault))
      | inr (s1, s2, e, r, k) ↦ inr (
          inr (
            s1,
            s2,
            r,
            Agree-as s.vault (touched p s).vault s1.vault e (Agree-refl s.vault),
            store_entry-Agree tries id payload s2 s' h k,
          ))
    ]
  ]
