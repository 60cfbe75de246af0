-- ===== src/Sources/Kept.antt =====
-- The operations of src/sources.rs and the file of the catalogue.
use tarvaultsync.Prelude.{
  ◌≡◌, refl, sym, subst, inl, inr, Option, some, false, ◌⊎◌, ◌||◌, List, [], ◌∷◌, ◌++◌, nat_eq, leb,
  length, arith, Option-cases, Bool-cases,
}
use tarvaultsync.Prelude.Text.{Text, text_eq}
use tarvaultsync.Prelude.Map.{lookup, has_key}
use tarvaultsync.Prelude.Result.{Result, ok, Result-cases}
use tarvaultsync.Core.{FilePath, ErrorCategory}
use tarvaultsync.Vault.Source.{VaultSource}
use tarvaultsync.Sources.{
  Connection, Sources, Shelf, SourcesParts, values, without, replaced, validate, make_source,
}
use tarvaultsync.Sources.Edit.{
  is_same_file, read_catalogue, commit, open_sources, saved_connections, load_connections, root_of,
  with_added, with_removed, with_renewed, add, remove_source, reconnect,
}
use tarvaultsync.Sources.Change.{Change, adding, reconnecting, removing, change}
use tarvaultsync.Sources.OnDisk.{IsDurable, IsOnDisk, persist-IsWhole}

module _ {W : Type 0} (p : SourcesParts W) where
  -- What an operation does to the catalogue in memory once its file is written
  pub data Edit (h : Shelf W) : (Sources W → Sources W) → Type 0 where
    added :
        (c : Connection) (source : Option (VaultSource W))
        → has_key c.id h.sources.connections ≡ false
        → Edit h (with_added p c source)
    removed : (id : Text) → Edit h (with_removed p id)
    renewed : (c : Connection) (source : Option (VaultSource W)) → Edit h (with_renewed p c source)

  -- Nothing, or the commit of an edit
  abbrev pub Edits : Shelf W → Result ErrorCategory (Unit {0}) × Shelf W → Type 0
  Edits h run =
      (run.1 ≡ h)
      ⊎ ((cs : List Connection) × (change : (Sources W → Sources W)) × Edit h change
          × (run ≡ commit p cs change h))

  add-Edits : (c : Connection) (h : Shelf W) → Edits h (add p c h)
  unfolding add
  add-Edits c h = elim (Result-cases (validate p c h.world)) [
    | inr (e, v) ↦ inl (ground arith)
    | inl (_, v) ↦
        elim (Bool-cases
          (leb 64 (length h.sources.connections) || has_key c.id h.sources.connections)) [
            | inl g ↦ inl (ground arith)
            | inr g ↦ elim (Result-cases (make_source p (root_of p) c)) [
              | inr (e, m) ↦ inl (ground arith)
              | inl (source, m) ↦ inr (
                values h.sources.connections ++ c ∷ [],
                _,
                added c source (ground arith),
                ground arith,
              )
            ]
          ]
  ]

  remove_source-Edits : (id : Text) (h : Shelf W) → Edits h (remove_source p id h)
  unfolding remove_source
  remove_source-Edits id h = elim (Bool-cases (has_key id h.sources.connections)) [
    | inl k ↦ inr (without id (values h.sources.connections), _, removed id, ground arith)
    | inr k ↦ inl (ground arith)
  ]

  reconnect-Edits : (c : Connection) (h : Shelf W) → Edits h (reconnect p c h)
  unfolding reconnect
  reconnect-Edits c h = elim (Result-cases (validate p c h.world)) [
    | inr (e, v) ↦ inl (ground arith)
    | inl (_, v) ↦ elim (Option-cases (lookup c.id h.sources.connections)) [
      | inl n ↦ inl (ground arith)
      | inr (old, n) ↦ elim (Bool-cases (is_same_file old.location c.location)) [
        | inr s ↦ inl (ground arith)
        | inl s ↦ elim (Result-cases (make_source p (root_of p) c)) [
          | inr (e, m) ↦ inl (ground arith)
          | inl (source, m) ↦
              inr (replaced c (values h.sources.connections), _, renewed c source, ground arith)
        ]
      ]
    ]
  ]

  pub change-Edits : (c : Change) (h : Shelf W) → Edits h (change p c h)
  unfolding change
  change-Edits (adding c) h = add-Edits c h
  change-Edits (reconnecting c) h = reconnect-Edits c h
  change-Edits (removing id) h = remove_source-Edits id h

  Edit-bytes :
      (h : Shelf W) (change : Sources W → Sources W) (s : Sources W)
      → Edit h change
      → (change s).saved_bytes ≡ s.saved_bytes
  Edit-bytes h _ s (added c source k) = refl
  Edit-bytes h _ s (removed id) = refl
  Edit-bytes h _ s (renewed c source) = refl

  module _ (laws : IsDurable p) where
    commit-IsOnDisk :
        (cs : List Connection) (change : Sources W → Sources W) (h : Shelf W)
        → Edit h change
        → IsOnDisk p h
        → IsOnDisk p (commit p cs change h).1
    unfolding commit
    commit-IsOnDisk cs change h edit t =
        elim (persist-IsWhole p laws h.sources.saved_bytes
          (record { version = 1; connections = cs }) h.world) [
            | inl (x, r, there) ↦
                let kept = Edit-bytes h change (record h.sources { saved_bytes = some x }) edit in
                ground arith
            | inr ((e, r), same) ↦ ground arith
          ]

    pub change-IsOnDisk : (c : Change) (h : Shelf W) → IsOnDisk p h → IsOnDisk p (change p c h).1
    change-IsOnDisk c h t = elim (change-Edits c h) [
      | inl e ↦ subst (IsOnDisk p) (sym e) t
      | inr (cs, f, edit, e) ↦ subst (λ r. IsOnDisk p r.1) (sym e) (commit-IsOnDisk cs f h edit t)
    ]

  pub open_sources-IsOnDisk :
      (root : FilePath) (local : VaultSource W) (w : W) (s : Sources W)
      → open_sources p root local w ≡ ok s
      → IsOnDisk p (record { sources = s; world = w })
  unfolding open_sources
  open_sources-IsOnDisk root local w s h = elim (Result-cases (read_catalogue p w)) [
    | inr (e, q) ↦ absurd (ground arith)
    | inl (saved, q) ↦ elim (Result-cases (saved_connections p saved)) [
      | inr (e, r) ↦ absurd (ground arith)
      | inl (cs, r) ↦ elim (Result-cases (load_connections p root w cs [] [])) [
        | inr (e, l) ↦ absurd (ground arith)
        | inl ((m, v), l) ↦ ground arith
      ]
    ]
  ]
