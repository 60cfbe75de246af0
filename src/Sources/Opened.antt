-- ===== src/Sources/Opened.antt =====
-- The catalogue of src/sources.rs from `open` on, through any sequence of its operations.
use tarvaultsync.Prelude.{
  ◌≡◌, refl, ◌∙◌, sym, ap, subst, inl, inr, Option, none, some, Bool, true, false, List, [], ◌∷◌,
  ◌==◌, nat_eq, if◌then◌else◌, arith, Option-cases, Bool-cases,
}
use tarvaultsync.Prelude.Text.{Text, text_eq}
use tarvaultsync.Prelude.Map.{Map, lookup, has_key, insert, lookup-insert, lookup-nil}
use tarvaultsync.Prelude.Result.{Result, ok, Result-cases}
use tarvaultsync.Core.{Bytes, FilePath, ErrorCategory}
use tarvaultsync.Vault.Source.{VaultSource}
use tarvaultsync.Sources.{
  Connection, Sources, Shelf, SourcesParts, insert_some, validate, make_source,
}
use tarvaultsync.Sources.Edit.{read_catalogue, saved_connections, load_connections, open_sources}
use tarvaultsync.Sources.Find.{find, has_vault, IsKeyed, insert-IsKeyed, unknown, no_vault}
use tarvaultsync.Sources.Consistent.{IsConsistent, IsSavedAs, Decodes, vaulted_added}
use tarvaultsync.Sources.OnDisk.{IsDurable, IsOnDisk}
use tarvaultsync.Sources.Released.{Releases, Releases-refl, Releases-trans, change-Releases}
use tarvaultsync.Sources.Kept.{change-IsOnDisk, open_sources-IsOnDisk}
use tarvaultsync.Sources.Change.{
  Change, adding, reconnecting, removing, change, Reaches, here, next,
}
use tarvaultsync.Sources.Preserved.{
  make_source_ok, Keeps, add-Keeps, remove_source-Keeps, reconnect-Keeps,
}

-- The first with an id in a map, and else in a list
abbrev or_else : Option Connection → Option Connection → Option Connection
or_else none o = o
or_else (some c) o = some c

or_else-none : (o : Option Connection) → or_else o none ≡ o
or_else-none none = refl
or_else-none (some c) = refl

pick :
    (b : Bool) (c : Connection) (o f : Option Connection)
    → (b ≡ true → o ≡ none)
    → or_else o (if b then some c else f) ≡ or_else (if b then some c else o) f
pick true c o f h = ap (λ x. or_else x (some c)) (h refl)
pick false c o f h = refl

-- A connection that is not known goes into the map or stays in the list.
first_or :
    (id : Text) (c : Connection) (m : Map Connection) (cs : List Connection)
    → has_key c.id m ≡ false
    → or_else (lookup id m) (find id (c ∷ cs)) ≡ or_else (lookup id (insert c.id c m)) (find id cs)
first_or id c m cs g =
    pick (c.id == id) c (lookup id m) (find id cs) (λ e. unknown id c m g e)
    ∙ ap (λ o. or_else o (find id cs)) (sym (lookup-insert id c.id c m))

module _ {W : Type 0} (p : SourcesParts W) where
  abbrev Agree : Map Connection → Map (VaultSource W) → Type 0
  Agree m v = IsKeyed m × ((id : Text) → has_key id v ≡ has_vault (lookup id m))

  empty_agree : Agree [] []
  empty_agree = (tt, λ id. unfold lookup in refl)

  load_connections_ok :
      (root : FilePath) (w : W) (cs : List Connection) (m m' : Map Connection)
      (v v' : Map (VaultSource W))
      → Agree m v
      → load_connections p root w cs m v ≡ ok (m', v')
      → Agree m' v' × ((id : Text) → or_else (lookup id m) (find id cs) ≡ lookup id m')
  unfolding load_connections
  load_connections_ok root w [] m m' v v' a h =
      let e : m ≡ m' = ground arith in
      let f : v ≡ v' = ground arith in
      (
        subst (λ n. Agree n v') e (subst (λ u. Agree m u) f a),
        λ id. or_else-none (lookup id m) ∙ ap (lookup id) e,
      )
  load_connections_ok root w (c ∷ cs) m m' v v' (k, a) h = elim (Result-cases (validate p c w)) [
    | inr (e, q) ↦ absurd (ground arith)
    | inl (_, q) ↦ elim (Bool-cases (has_key c.id m)) [
      | inl g ↦ absurd (ground arith)
      | inr g ↦ elim (Result-cases (make_source p (some root) c)) [
        | inr (e, r) ↦ absurd (ground arith)
        | inl (source, r) ↦
            let (agree, all) =
              load_connections_ok root w cs (insert c.id c m) m' (insert_some c.id source v) v'
                (
                  insert-IsKeyed c m k,
                  λ j.
                      vaulted_added p c source j m v a (make_source_ok p (some root) c source r)
                        (inr (no_vault c.id m g)),
                )
                (ground arith) in
            (agree, λ id. first_or id c m cs g ∙ all id)
      ]
    ]
  ]

  -- On a codec that decodes what it encoded, a change of a consistent catalogue succeeds and leaves it
  -- consistent, or fails and leaves all that is in memory as it was.
  pub change-Keeps :
      Decodes p → (c : Change) (h : Shelf W) → IsConsistent p h.sources → Keeps p h (change p c h)
  unfolding change
  change-Keeps d (adding c) h t = add-Keeps p d c h t
  change-Keeps d (reconnecting c) h t = reconnect-Keeps p d c h t
  change-Keeps d (removing id) h t = remove_source-Keeps p d id h t

  kept :
      (h : Shelf W) (run : Result ErrorCategory (Unit {0}) × Shelf W)
      → IsConsistent p h.sources
      → Keeps p h run
      → IsConsistent p run.1.sources
  kept h run t (inl (_, k)) = k
  kept h run t (inr (_, e)) = subst (IsConsistent p) (sym e) t

  saved_connections_ok :
      (saved : Option Bytes) (cs : List Connection) (m : Map Connection)
      → saved_connections p saved ≡ ok cs
      → ((id : Text) → find id cs ≡ lookup id m)
      → IsSavedAs p saved m
  unfolding saved_connections nat_eq
  saved_connections_ok none cs m h f =
      let e : [] ≡ cs = ground arith in λ id. sym (f id) ∙ ap (find id) (sym e)
  saved_connections_ok (some bytes) cs m h f = elim (Option-cases (p.decode bytes)) [
    | inl q ↦ absurd (ground arith)
    | inr (c, q) ↦
        let same : c.connections ≡ cs = ground arith in
        (c, q, ground arith, λ id. ap (find id) same ∙ f id)
  ]

  pub open_sources-IsConsistent :
      (root : FilePath) (local : VaultSource W) (w : W) (s : Sources W)
      → open_sources p root local w ≡ ok s
      → IsConsistent p s
  unfolding open_sources
  open_sources-IsConsistent root local w s h = elim (Result-cases (read_catalogue p w)) [
    | inr (e, q) ↦ absurd (ground arith)
    | inl (saved, q) ↦ elim (Result-cases (saved_connections p saved)) [
      | inr (e, r) ↦ absurd (ground arith)
      | inl (cs, r) ↦ elim (Result-cases (load_connections p root w cs [] [])) [
        | inr (e, l) ↦ absurd (ground arith)
        | inl ((m, v), l) ↦
            let ((k, a), f) = load_connections_ok root w cs [] m [] v empty_agree l in
            let opened : Sources W = record {
              local = local;
              saved_bytes = saved;
              connections = m;
              files = v;
              released = [];
            } in
            let e : opened ≡ s = ground arith in
            subst (IsConsistent p) e (record {
              keyed = k;
              vaulted = a;
              saved =
                  saved_connections_ok saved cs m r
                    (λ id. ap (λ o. or_else o (find id cs)) (sym (lookup-nil id)) ∙ f id);
              locked = tt;
            })
      ]
    ]
  ]

  -- A catalogue that was opened stays consistent through any sequence of additions, removals and
  -- reconnections, those that fail included, on a codec that decodes what it encoded and a system on
  -- which only a move that succeeds changes the file, where nothing else writes it: each connection is
  -- under its id, the vaults in memory are those of the connections that have one, the bytes that are
  -- held decode to the connections in memory, and reading the file yields these bytes; and a vault that
  -- was there at first is still there, or was set aside, locked.
  pub Reaches-IsConsistent :
      (root : FilePath) (local : VaultSource W) (w : W) (s : Sources W) (h : Shelf W)
      → Decodes p
      → IsDurable p
      → open_sources p root local w ≡ ok s
      → Reaches p (record { sources = s; world = w }) h
      → IsConsistent p h.sources × IsOnDisk p h × Releases s h.sources
  Reaches-IsConsistent root local w s _ d laws o (here _) = (
    open_sources-IsConsistent root local w s o,
    open_sources-IsOnDisk p root local w s o,
    Releases-refl s,
  )
  Reaches-IsConsistent root local w s _ d laws o (next _ h' c r) =
      let (t, u, f) = Reaches-IsConsistent root local w s h' d laws o r in
      (
        kept h' (change p c h') t (change-Keeps d c h' t),
        change-IsOnDisk p laws c h' u,
        Releases-trans s h'.sources (change p c h').1.sources f (change-Releases p c h' t),
      )
