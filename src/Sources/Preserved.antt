-- ===== src/Sources/Preserved.antt =====
-- Each operation of src/sources.rs on a consistent catalogue, when it succeeds and when it fails.
use tarvaultsync.Prelude.{
  ◌≡◌, refl, ◌∙◌, sym, ap, subst, ◌⊎◌, inl, inr, Option, none, some, true, false, ◌||◌, List, [],
  ◌∷◌, ◌++◌, nat_eq, leb, length, arith, Option-cases, Bool-cases,
}
use tarvaultsync.Prelude.Text.{Text, text_eq}
use tarvaultsync.Prelude.Map.{lookup, has_key}
use tarvaultsync.Prelude.Result.{Result, ok, err, map_err, Result-cases}
use tarvaultsync.Core.{Bytes, FilePath, ErrorCategory, invalid_config}
use tarvaultsync.Azure.{is_some}
use tarvaultsync.Vault.Source.{VaultSource, new_source}
use tarvaultsync.Sources.{
  Location, file_system, azure_key_vault, drive, Connection, Sources, Shelf, SourcesParts, values,
  without, replaced, validate, remote_vault, some_source, make_source,
}
use tarvaultsync.Sources.Edit.{
  is_same_file, persist, commit, add, remove_source, reconnect, root_of, with_added, with_renewed,
  with_removed,
}
use tarvaultsync.Sources.Find.{has_vault, no_vault}
use tarvaultsync.Sources.Consistent.{
  IsConsistent, Decodes, commit_ok, find-added, find-reconnected, with_added-IsConsistent,
  with_removed-IsConsistent, with_renewed-IsConsistent,
}

is_same_file-has_vault :
    (old new : Location) (id : Text)
    → is_same_file old new ≡ true
    → has_vault (some (record { id = id; location = new })) ≡ true
unfolding is_same_file
is_same_file-has_vault old (file_system path) id h = refl
is_same_file-has_vault (file_system path) (azure_key_vault name) id h = absurd (ground arith)
is_same_file-has_vault (azure_key_vault other) (azure_key_vault name) id h = absurd (ground arith)
is_same_file-has_vault (drive remote) (azure_key_vault name) id h = absurd (ground arith)
is_same_file-has_vault old (drive remote) id h = refl

module _ {W : Type 0} (p : SourcesParts W) where
  some_source_ok :
      (r : Result ErrorCategory (VaultSource W)) (source : Option (VaultSource W))
      → some_source p r ≡ ok source
      → is_some source ≡ true
  some_source_ok (ok v) source h = ground arith
  some_source_ok (err e) source h = absurd (ground arith)

  made :
      (root : Option FilePath) (id : Text) (l : Location) (source : Option (VaultSource W))
      → make_source p root (record { id = id; location = l }) ≡ ok source
      → has_vault (some (record { id = id; location = l })) ≡ is_some source
  unfolding make_source
  made root id (file_system path) source h =
      sym (some_source_ok (map_err (λ _. invalid_config) (new_source path id)) source h)
  made root id (azure_key_vault name) source h = ground arith
  made none id (drive remote) source h = absurd (ground arith)
  made (some directory) id (drive remote) source h =
      sym (some_source_ok (remote_vault p directory id remote) source h)

  pub make_source_ok :
      (root : Option FilePath) (c : Connection) (source : Option (VaultSource W))
      → make_source p root c ≡ ok source
      → has_vault (some c) ≡ is_some source
  make_source_ok root c source h = made root c.id c.location source h

  -- After an error the memory is as it was.
  commit_failed :
      (cs : List Connection) (change : Sources W → Sources W) (h h' : Shelf W) (e : ErrorCategory)
      → commit p cs change h ≡ (err e, h')
      → h'.sources ≡ h.sources
  unfolding commit
  commit_failed cs change h h' e q =
      let run =
        persist p h.sources.saved_bytes (record { version = 1; connections = cs }) h.world in
      elim (Result-cases run.0) [
        | inl (bytes, r) ↦ absurd (ground arith)
        | inr (x, r) ↦ ground arith
      ]

  -- It succeeds with a consistent catalogue, or fails with the memory as it was.
  abbrev pub Keeps : Shelf W → Result ErrorCategory (Unit {0}) × Shelf W → Type 0
  Keeps h run =
      ((run.0 ≡ ok tt) × IsConsistent p run.1.sources)
      ⊎ (((e : ErrorCategory) × (run.0 ≡ err e)) × (run.1.sources ≡ h.sources))

  refused :
      (h : Shelf W) (run : Result ErrorCategory (Unit {0}) × Shelf W) (e : ErrorCategory)
      → run ≡ (err e, h)
      → Keeps h run
  refused h run e q = inr ((e, ap (λ r. r.0) q), ap (λ r. r.1.sources) q)

  commit-Keeps :
      (cs : List Connection) (change : Sources W → Sources W) (h : Shelf W)
      (run : Result ErrorCategory (Unit {0}) × Shelf W)
      → run ≡ commit p cs change h
      → ((bytes : Bytes)
          → p.encode (record { version = 1; connections = cs }) ≡ some bytes
          → IsConsistent p (change (record h.sources { saved_bytes = some bytes })))
      → Keeps h run
  commit-Keeps cs change h run q next =
      let w = (commit p cs change h).1 in
      elim (Result-cases (commit p cs change h).0) [
        | inl (tt, r) ↦
            let (bytes, e, f) = commit_ok p cs change h w (ap (λ x. (x, w)) r) in
            inl (
              ap (λ x. x.0) q ∙ r,
              subst (IsConsistent p) (sym (ap (λ x. x.1.sources) q ∙ f)) (next bytes e),
            )
        | inr (e, r) ↦ inr (
          (e, ap (λ x. x.0) q ∙ r),
          ap (λ x. x.1.sources) q ∙ commit_failed cs change h w e (ap (λ x. (x, w)) r),
        )
      ]

  module _ (decodes : Decodes p) where
    pub add-Keeps : (c : Connection) (h : Shelf W) → IsConsistent p h.sources → Keeps h (add p c h)
    unfolding add
    add-Keeps c h t = elim (Result-cases (validate p c h.world)) [
      | inr (e, v) ↦ refused h (add p c h) e (ground arith)
      | inl (_, v) ↦
          elim (Bool-cases
            (leb 64 (length h.sources.connections) || has_key c.id h.sources.connections)) [
              | inl g ↦ refused h (add p c h) invalid_config (ground arith)
              | inr g ↦ elim (Result-cases (make_source p (root_of p) c)) [
                | inr (e, m) ↦ refused h (add p c h) e (ground arith)
                | inl (source, m) ↦
                    commit-Keeps (values h.sources.connections ++ c ∷ []) (with_added p c source) h
                      (add p c h) (ground arith)
                      (λ bytes e.
                        let new : has_key c.id h.sources.connections ≡ false = ground arith in
                        with_added-IsConsistent p decodes c source h.sources
                          (values h.sources.connections ++ c ∷ []) bytes t
                          (make_source_ok (root_of p) c source m)
                          (inr (no_vault c.id h.sources.connections new)) e
                          (find-added p decodes c h.sources.connections t.keyed new))
              ]
            ]
    ]

    pub remove_source-Keeps :
        (id : Text) (h : Shelf W) → IsConsistent p h.sources → Keeps h (remove_source p id h)
    unfolding remove_source
    remove_source-Keeps id h t = elim (Bool-cases (has_key id h.sources.connections)) [
      | inl k ↦
          commit-Keeps (without id (values h.sources.connections)) (with_removed p id) h
            (remove_source p id h) (ground arith)
            (λ bytes e. with_removed-IsConsistent p decodes id h.sources bytes t e)
      | inr k ↦ refused h (remove_source p id h) invalid_config (ground arith)
    ]

    pub reconnect-Keeps :
        (c : Connection) (h : Shelf W) → IsConsistent p h.sources → Keeps h (reconnect p c h)
    unfolding reconnect
    reconnect-Keeps c h t = elim (Result-cases (validate p c h.world)) [
      | inr (e, v) ↦ refused h (reconnect p c h) e (ground arith)
      | inl (_, v) ↦ elim (Option-cases (lookup c.id h.sources.connections)) [
        | inl n ↦ refused h (reconnect p c h) invalid_config (ground arith)
        | inr (old, n) ↦ elim (Bool-cases (is_same_file old.location c.location)) [
          | inr s ↦ refused h (reconnect p c h) invalid_config (ground arith)
          | inl s ↦ elim (Result-cases (make_source p (root_of p) c)) [
            | inr (e, m) ↦ refused h (reconnect p c h) e (ground arith)
            | inl (source, m) ↦
                commit-Keeps (replaced c (values h.sources.connections)) (with_renewed p c source) h
                  (reconnect p c h) (ground arith)
                  (λ bytes e.
                    with_renewed-IsConsistent p decodes c source h.sources
                      (replaced c (values h.sources.connections)) bytes t
                      (make_source_ok (root_of p) c source m)
                      (is_same_file-has_vault old.location c.location c.id s) e
                      (find-reconnected p decodes c old h.sources.connections t.keyed n))
          ]
        ]
      ]
    ]
