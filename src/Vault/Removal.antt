-- ===== src/Vault/Removal.antt =====
-- What a `remove` of src/vault.rs that fails leaves behind.
use tarvaultsync.Prelude.{
  ◌≡◌, refl, subst, ◌⊎◌, inl, inr, some, true, false, [], ◌∷◌, ◌==◌, nat_eq, any, arith, Bool-cases,
  Option-cases,
}
use tarvaultsync.Prelude.Text.{Text, text_eq}
use tarvaultsync.Prelude.Map.{Map, lookup, insert, remove, lookup-nil, lookup-cons}
use tarvaultsync.Prelude.Result.{ok, err, Result-cases}
use tarvaultsync.Core.{Bytes}
use tarvaultsync.Vault.{
  VaultParts, VaultError, EntryMeta, Envelope, SealedPayload, Manifest, manifest_eq, locked,
  is_bad_entry, manifest_aad, parse_envelope, open_manifest, lock_for_update,
}
use tarvaultsync.Vault.Local.{
  LocalVault, Session, cleared, touch, read_ciphertext, reload_inner, persist, persist_or,
  drop_entry, remove_entry, with_content,
}
use tarvaultsync.Vault.Idle.{touched, touch_cases}
use tarvaultsync.Vault.Rollback.{Agree, Agree-refl, Agree-as, reinsert, reload_err}

is_bad_entry-payload :
    (sealed : Map SealedPayload) (id : Text) (meta : EntryMeta)
    → is_bad_entry sealed (id, meta) ≡ false
    → (x : SealedPayload) × (lookup meta.version sealed ≡ some x)
unfolding is_bad_entry
is_bad_entry-payload sealed id meta h = elim (Option-cases (lookup meta.version sealed)) [
  | inl n ↦ absurd (ground arith)
  | inr (x, n) ↦ (x, n)
]

any-payload :
    (sealed : Map SealedPayload) (id : Text) (old : EntryMeta) (m : Map EntryMeta)
    → any (is_bad_entry sealed) m ≡ false
    → lookup id m ≡ some old
    → (x : SealedPayload) × (lookup old.version sealed ≡ some x)
any-payload sealed id old [] h q = absurd (ground (arith, lookup-nil {V = EntryMeta} id))
any-payload sealed id old ((j, meta) ∷ m) h q = elim (Bool-cases (j == id)) [
  | inl e ↦
      let same : meta ≡ old = ground (arith, lookup-cons id j meta m) in
      is_bad_entry-payload sealed j old
        (subst (λ x. is_bad_entry sealed (j, x) ≡ false) same (ground arith))
  | inr e ↦ any-payload sealed id old m (ground arith) (ground (arith, lookup-cons id j meta m))
]

module _ {W : Type 0} (p : VaultParts W) where
  open_manifest_ok :
      (e : Envelope) (key : Bytes) (m : Manifest)
      → open_manifest p e key ≡ ok m
      → any (is_bad_entry e.sealed) m.entries ≡ false
  unfolding open_manifest
  open_manifest_ok e key m q =
      elim (Option-cases
        (p.decrypt key e.manifest_nonce (manifest_aad e.salt) e.manifest_ciphertext)) [
          | inl n ↦ absurd (ground arith)
          | inr (plaintext, n) ↦ elim (Option-cases (p.decode_manifest plaintext)) [
            | inl d ↦ absurd (ground arith)
            | inr (found, d) ↦ ground arith
          ]
        ]

  reload_ok :
      (s t : Session W)
      → reload_inner p true s ≡ (ok tt, t)
      → (e : Envelope) × (open_manifest p e s.vault.key ≡ ok t.vault.manifest)
        × (e.sealed ≡ t.vault.sealed)
  unfolding reload_inner
  reload_ok s t q = elim (Result-cases (read_ciphertext p s.vault s.world).0) [
    | inr (x, r) ↦ absurd (ground arith)
    | inl (x, r) ↦ elim (Result-cases (parse_envelope p x)) [
      | inr (y, d) ↦ absurd (ground arith)
      | inl (e, d) ↦ elim (Result-cases (open_manifest p e s.vault.key)) [
        | inr (y, o) ↦ absurd (ground arith)
        | inl (m, o) ↦ (e, ground arith, ground arith)
      ]
    ]
  ]

  -- After a reload every entry has its payload.
  reload-payload :
      (s t : Session W) (id : Text) (old : EntryMeta)
      → reload_inner p true s ≡ (ok tt, t)
      → lookup id t.vault.manifest.entries ≡ some old
      → (x : SealedPayload) × (lookup old.version t.vault.sealed ≡ some x)
  reload-payload s t id old q l =
      let (e, o, same) = reload_ok s t q in
      any-payload t.vault.sealed id old t.vault.manifest.entries
        (subst (λ m. any (is_bad_entry m) t.vault.manifest.entries ≡ false) same
          (open_manifest_ok e s.vault.key t.vault.manifest o))
        l

  drop_entry-Agree :
      (id : Text) (s s' : Session W) (e : VaultError)
      → ((old : EntryMeta)
          → lookup id s.vault.manifest.entries ≡ some old
          → (x : SealedPayload) × (lookup old.version s.vault.sealed ≡ some x))
      → drop_entry p id s ≡ (err e, s')
      → Agree s.vault s'.vault
  unfolding drop_entry persist_or
  drop_entry-Agree id s s' e payload q =
      let v = s.vault in
      elim (Option-cases (lookup id v.manifest.entries)) [
        | inl n ↦ Agree-as v v s'.vault (ground arith) (Agree-refl v)
        | inr (old, n) ↦
            let (x, l) = payload old n in
            let next : LocalVault W =
              with_content (remove id v.manifest.entries) (remove old.version v.sealed) v in
            let undone : LocalVault W =
              with_content (insert id old (remove id v.manifest.entries))
                (insert old.version x (remove old.version v.sealed)) v in
            elim (Result-cases (persist p next false s.world).0) [
              | inl (u, k) ↦ absurd (ground arith)
              | inr (f, k) ↦ Agree-as v undone s'.vault (ground arith) (
                λ j. reinsert j id old v.manifest.entries n,
                λ j. reinsert j old.version x v.sealed l,
              )
            ]
      ]

  locked_remove :
      (id : Text) (s t s' : Session W) (e : VaultError)
      → touch p s ≡ (err locked, t)
      → remove_entry p id s ≡ (err e, s')
      → (e ≡ locked) × (s'.vault ≡ t.vault)
  unfolding remove_entry
  locked_remove id s t s' e q k = ground arith

  after_touch :
      (id : Text) (s s' t : Session W) (e : VaultError)
      → touch p s ≡ (ok tt, t)
      → remove_entry p id s ≡ (err e, s')
      → (s'.vault ≡ t.vault)
        ⊎ ((s1 : Session W) × (s2 : Session W) × (s1.vault ≡ t.vault)
            × (reload_inner p true s1 ≡ (ok tt, s2))
            × (drop_entry p id s2 ≡ (err e, s')))
  unfolding remove_entry
  after_touch id s s' t e q k = elim (Result-cases (lock_for_update p t.vault.path t.world).0) [
    | inr (f, l) ↦ inl (ground arith)
    | inl (u, l) ↦
        let s1 : Session W = record t { world = (lock_for_update p t.vault.path t.world).1 } in
        elim (Result-cases (reload_inner p true s1).0) [
          | inr (f, m) ↦ inl (ground (arith, reload_err p s1 f m))
          | inl (u, m) ↦ inr (s1, (reload_inner p true s1).1, refl, ground arith, ground arith)
        ]
  ]

  -- `remove` fails in one of three ways: with the vault as it was; locked, with nothing left in it; or
  -- with the entries and payloads that it had just read back from the file.
  pub remove_entry-rolls_back :
      (id : Text) (s s' : Session W) (e : VaultError)
      → remove_entry p id s ≡ (err e, s')
      → Agree s.vault s'.vault
        ⊎ ((e ≡ locked) × (s'.vault ≡ cleared s.vault))
        ⊎ ((s1 : Session W) × (s2 : Session W) × (reload_inner p true s1 ≡ (ok tt, s2))
            × Agree s.vault s1.vault
            × Agree s2.vault s'.vault)
  remove_entry-rolls_back id s s' e q = elim (touch_cases p s) [
    | inl t ↦ inr (inl (locked_remove id s (record s { vault = cleared s.vault }) s' e t q))
    | inr t ↦ elim (after_touch id s s' (touched p s) e t q) [
      | inl same ↦ inl (Agree-as s.vault (touched p s).vault s'.vault same (Agree-refl s.vault))
      | inr (s1, s2, same, r, k) ↦ inr (
          inr (
            s1,
            s2,
            r,
            Agree-as s.vault (touched p s).vault s1.vault same (Agree-refl s.vault),
            drop_entry-Agree id s2 s' e (λ old. reload-payload s1 s2 id old r) k,
          ))
    ]
  ]
