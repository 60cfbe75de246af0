-- ===== src/Sources/Renewed.antt =====
-- What a reference is routed to, and the vault that it is for, before and after `reconnect` of
-- src/sources.rs.
use tarvaultsync.Prelude.{
  ◌≡◌, refl, ◌∙◌, sym, ap, inl, inr, Option, none, some, Bool, true, false, not, ◌==◌,
  if◌then◌else◌, arith, Option-cases, Bool-cases,
}
use tarvaultsync.Prelude.Text.{Text, text_eq}
use tarvaultsync.Prelude.Map.{lookup, insert, lookup-insert}
use tarvaultsync.Prelude.Result.{Result, ok, err, Result-cases}
use tarvaultsync.Core.{FilePath, SourceRef, ErrorCategory, invalid_config, store_eq}
use tarvaultsync.Drive.{Provider, one_drive, google_drive, same_provider, store}
use tarvaultsync.Sources.{
  Location, file_system, azure_key_vault, drive, location_store, Connection, Sources, Shelf,
  SourcesParts, validate, make_source, values, replaced,
}
use tarvaultsync.Sources.Edit.{is_same_file, reconnect, root_of, with_renewed}
use tarvaultsync.Sources.Find.{key_same}
use tarvaultsync.Sources.Consistent.{commit_ok}
use tarvaultsync.Sources.Route.{route, routed}

same_provider-eq : (a b : Provider) → same_provider a b ≡ true → a ≡ b
same_provider-eq one_drive one_drive h = refl
same_provider-eq google_drive google_drive h = refl
same_provider-eq one_drive google_drive h = absurd (ground arith)
same_provider-eq google_drive one_drive h = absurd (ground arith)

-- Where a reference goes at the connection that is found for it
abbrev route_at : SourceRef → Option Connection → Result ErrorCategory SourceRef
route_at source none = ok source
route_at source (some c) =
    if not (location_store c.location == source.store)
    then err invalid_config
    else ok (route c.location source)

routed-lookup :
    {W : Type 0} (source : SourceRef) (s : Sources W)
    → routed source s ≡ route_at source (lookup source.connection s.connections)
unfolding routed
routed-lookup source s = ground arith

route_at-same :
    (source : SourceRef) (i j : Text) (old new : Location)
    → is_same_file old new ≡ true
    → route_at source (some (record { id = i; location = old }))
      ≡ route_at source (some (record { id = j; location = new }))
unfolding is_same_file route location_store
route_at-same source i j (file_system path) new h = absurd (ground arith)
route_at-same source i j (azure_key_vault name) new h = absurd (ground arith)
route_at-same source i j (drive a) (file_system path) h = absurd (ground arith)
route_at-same source i j (drive a) (azure_key_vault name) h = absurd (ground arith)
route_at-same source i j (drive a) (drive b) h =
    ap
      (λ q.
        if not (store q == source.store) then err invalid_config else ok (route (drive b) source))
      (same_provider-eq a.provider b.provider (ground arith))

-- The vault that a connection is for, without the credential that opens it
pub data Place : Type 0 where
  file_at : FilePath → Place
  azure_vault : Text → Place
  drive_file : Provider → Text → Place

unfoldable pub place_of : Location → Place
place_of (file_system path) = file_at path
place_of (azure_key_vault name) = azure_vault name
place_of (drive remote) = drive_file remote.provider remote.file_id

-- The place of the connection that is found
abbrev pub place_at : Option Connection → Option Place
place_at none = none
place_at (some c) = some (place_of c.location)

same_text : (a b : Text) → (a == b) ≡ true → a ≡ b
unfolding text_eq
same_text a b h = ground arith

place_of-same : (old new : Location) → is_same_file old new ≡ true → place_of old ≡ place_of new
unfolding is_same_file place_of
place_of-same (file_system path) new h = absurd (ground arith)
place_of-same (azure_key_vault name) new h = absurd (ground arith)
place_of-same (drive a) (file_system path) h = absurd (ground arith)
place_of-same (drive a) (azure_key_vault name) h = absurd (ground arith)
place_of-same (drive a) (drive b) h =
    ap (λ q. drive_file q a.file_id) (same_provider-eq a.provider b.provider (ground arith))
    ∙ ap (drive_file b.provider) (same_text a.file_id b.file_id (ground arith))

-- What is the same for the old and the new connection is the same for each one that is found.
renewed :
    {A : Type 0} (f : Option Connection → A) (c old : Connection) (b : Bool) (o : Option Connection)
    → f (some old) ≡ f (some c)
    → (b ≡ true → o ≡ some old)
    → f (if b then some c else o) ≡ f o
renewed f c old true o s h = sym (ap f (h refl) ∙ s)
renewed f c old false o s h = refl

module _ {W : Type 0} (p : SourcesParts W) where
  -- What a reconnection that succeeds has found and changed
  reconnect_ok :
      (c : Connection) (h h' : Shelf W)
      → reconnect p c h ≡ (ok tt, h')
      → (old : Connection) × (lookup c.id h.sources.connections ≡ some old)
        × (is_same_file old.location c.location ≡ true)
        × (h'.sources.connections ≡ insert c.id c h.sources.connections)
  unfolding reconnect
  reconnect_ok c h h' e = elim (Result-cases (validate p c h.world)) [
    | inr (x, v) ↦ absurd (ground arith)
    | inl (_, v) ↦ elim (Option-cases (lookup c.id h.sources.connections)) [
      | inl n ↦ absurd (ground arith)
      | inr (old, n) ↦ elim (Bool-cases (is_same_file old.location c.location)) [
        | inr s ↦ absurd (ground arith)
        | inl s ↦ elim (Result-cases (make_source p (root_of p) c)) [
          | inr (x, m) ↦ absurd (ground arith)
          | inl (source, m) ↦
              let (bytes, _, f) =
                commit_ok p (replaced c (values h.sources.connections)) (with_renewed p c source) h
                  h' (ground arith) in
              (old, n, s, ap (λ r. r.connections) f)
        ]
      ]
    ]
  ]

  found-reconnect :
      {A : Type 0} (f : Option Connection → A) (c : Connection) (id : Text) (h h' : Shelf W)
      → ((old : Connection)
          → is_same_file old.location c.location ≡ true
          → f (some old) ≡ f (some c))
      → reconnect p c h ≡ (ok tt, h')
      → f (lookup id h'.sources.connections) ≡ f (lookup id h.sources.connections)
  found-reconnect f c id h h' same e =
      let (old, n, s, q) = reconnect_ok c h h' e in
      ap (λ m. f (lookup id m)) q
      ∙ ap f (lookup-insert id c.id c h.sources.connections)
      ∙ renewed f c old (c.id == id) (lookup id h.sources.connections) (same old s)
          (λ k. ap (λ i. lookup i h.sources.connections) (sym (key_same c.id id k)) ∙ n)

  -- When a connection is renewed, every reference is routed as it was, the ones that are refused
  -- included, and the connection that is found for it, if there is one, is for the vault that it was
  -- for: the same path, the same name, or the same file of the same drive.
  pub routed-reconnect :
      (c : Connection) (source : SourceRef) (h h' : Shelf W)
      → reconnect p c h ≡ (ok tt, h')
      → (routed source h'.sources ≡ routed source h.sources)
        × (place_at (lookup source.connection h'.sources.connections)
            ≡ place_at (lookup source.connection h.sources.connections))
  routed-reconnect c source h h' e = (
    routed-lookup source h'.sources
        ∙ found-reconnect (route_at source) c source.connection h h'
            (λ old s. route_at-same source old.id c.id old.location c.location s) e
        ∙ sym (routed-lookup source h.sources),
    found-reconnect place_at c source.connection h h'
        (λ old s. ap some (place_of-same old.location c.location s)) e,
  )
