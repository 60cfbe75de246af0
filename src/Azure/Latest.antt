-- ===== src/Azure/Latest.antt =====
-- Which version `get_version` of src/azure.rs returns.
use tarvaultsync.Prelude.{
  ℕ, zero, suc, ◌≤◌, ◌≡◌, refl, ap, sym, subst, ◌∙◌, ◌⊎◌, inl, inr, none, some, true, false, List,
  [], ◌++◌, nat_eq, arith, Option-cases,
}
use tarvaultsync.Prelude.Text.{Text, text, text_eq, strip_prefix}
use tarvaultsync.Prelude.Map.{Map, insert}
use tarvaultsync.Prelude.Result.{ok, err, Result-cases}
use tarvaultsync.Core.{Bytes, SourceRef, SourceVersion, source_error}
use tarvaultsync.Core.Labels.{safe_version}
use tarvaultsync.Azure.Names.{valid_version, valid_version-safe_version}
use tarvaultsync.Azure.{
  VersionItem, VersionPage, Selection, AzureParts, usable, base_url, version_from_id, checked_next,
  add_items, max_pages, select_version, read_pages, first_url, get_version,
}
use tarvaultsync.Azure.Newest.{
  append_assoc, IsNewest, IsOnly, IsSelected, IsSelectedBy, add_items-IsSelected,
}

-- The pages that the links lead to from a URL, the answers decoded, and their items in order
pub data Reads {W : Type 0} (p : AzureParts W) (base : Text)
    : ℕ → Text → List VersionItem → W → W → Type 0 where
  last_page :
      {url : Text} {w : W} (bytes : Bytes) (page : VersionPage)
      → (p.get url w).0 ≡ ok bytes
      → p.decode_page bytes ≡ some page
      → page.next_link ≡ none
      → Reads p base 1 url page.value w (p.get url w).1
  next_page :
      {url next : Text} {n : ℕ} {items : List VersionItem} {w w' : W} (bytes : Bytes)
      (page : VersionPage)
      → (p.get url w).0 ≡ ok bytes
      → p.decode_page bytes ≡ some page
      → page.next_link ≡ some next
      → checked_next p.parse_url base next ≡ ok tt
      → Reads p base n next items (p.get url w).1 w'
      → Reads p base (suc n) url (page.value ++ items) w w'

module _ {W : Type 0} (p : AzureParts W) where
  -- `v` is the version of the one item that is the newest, and it may be used at the time of `w`.
  abbrev pub IsLatest : Text → List VersionItem → SourceVersion → W → Type 0
  IsLatest base items v w =
      (x : VersionItem) × (now : ℕ) × IsNewest items x
      × IsOnly items x
      × (p.now w ≡ ok now)
      × (usable x.attributes now ≡ true)
      × (version_from_id base x.id ≡ ok v)

  select_ok :
      (base : Text) (s : Selection) (v : SourceVersion) (w w' : W)
      → select_version p base s w ≡ (ok v, w')
      → (x : VersionItem) × (now : ℕ) × (s.latest ≡ some x)
        × (s.ambiguous ≡ false)
        × (p.now w ≡ ok now)
        × (usable x.attributes now ≡ true)
        × (version_from_id base x.id ≡ ok v)
        × (w' ≡ w)
  unfolding select_version
  select_ok base s v w w' q = elim (Option-cases s.latest) [
    | inl n ↦ absurd (ground arith)
    | inr (x, l) ↦ elim (Result-cases (p.now w)) [
      | inr (e, r) ↦ absurd (ground arith)
      | inl (now, r) ↦ (x, now, l, ground arith, r, ground arith, ground arith, ground arith)
    ]
  ]

  select_version-IsLatest :
      (base : Text) (items : List VersionItem) (s : Selection) (v : SourceVersion) (w w' : W)
      → IsSelected items s
      → select_version p base s w ≡ (ok v, w')
      → IsLatest base items v w'
  select_version-IsLatest base items s v w w' h q =
      let (x, now, l, a, r, u, i, e) = select_ok base s v w w' q in
      let (newest, only, _) = subst (λ o. IsSelectedBy items o s.ambiguous) l h in
      (x, now, newest, only a, ap p.now e ∙ r, u, i)

  -- What is left after the page at `url`
  abbrev Continues :
      Text → ℕ → Text → Map (Unit {0}) → VersionPage → Selection → SourceVersion → W → W → Type 0
  Continues base pages url seen page s v w w' =
      ((page.next_link ≡ none) × (select_version p base s w ≡ (ok v, w')))
      ⊎ ((next : Text) × (page.next_link ≡ some next)
          × (checked_next p.parse_url base next ≡ ok tt)
          × (read_pages p base pages next s (insert url tt seen) w ≡ (ok v, w')))

  after_page :
      (base : Text) (pages : ℕ) (url : Text) (s : Selection) (seen : Map (Unit {0}))
      (v : SourceVersion) (w w' : W) (bytes : Bytes) (page : VersionPage) (s' : Selection)
      → read_pages p base (suc pages) url s seen w ≡ (ok v, w')
      → (p.get url w).0 ≡ ok bytes
      → p.decode_page bytes ≡ some page
      → add_items base page.value s ≡ ok s'
      → Continues base pages url seen page s' v (p.get url w).1 w'
  unfolding read_pages
  after_page base pages url s seen v w w' bytes page s' q g d i =
      elim (Option-cases page.next_link) [
        | inl n ↦ inl (n, ground arith)
        | inr (next, n) ↦ inr (next, n, ground arith, ground arith)
      ]

  read_ok :
      (base : Text) (pages : ℕ) (url : Text) (s : Selection) (seen : Map (Unit {0}))
      (v : SourceVersion) (w w' : W)
      → read_pages p base (suc pages) url s seen w ≡ (ok v, w')
      → (bytes : Bytes) × (page : VersionPage) × (s' : Selection) × ((p.get url w).0 ≡ ok bytes)
        × (p.decode_page bytes ≡ some page)
        × (add_items base page.value s ≡ ok s')
  unfolding read_pages
  read_ok base pages url s seen v w w' q = elim (Result-cases (p.get url w).0) [
    | inr (e, g) ↦ absurd (ground arith)
    | inl (bytes, g) ↦ elim (Option-cases (p.decode_page bytes)) [
      | inl d ↦ absurd (ground arith)
      | inr (page, d) ↦ elim (Result-cases (add_items base page.value s)) [
        | inr (e, i) ↦ absurd (ground arith)
        | inl (s', i) ↦ (bytes, page, s', g, d, i)
      ]
    ]
  ]

  no_pages :
      (base url : Text) (s : Selection) (seen : Map (Unit {0})) (w : W)
      → read_pages p base zero url s seen w ≡ (err source_error, w)
  unfolding read_pages
  no_pages base url s seen w = refl

  read_pages-IsLatest :
      (base : Text) (pages : ℕ) (url : Text) (s : Selection) (seen : Map (Unit {0}))
      (before : List VersionItem) (v : SourceVersion) (w w' : W)
      → IsSelected before s
      → read_pages p base pages url s seen w ≡ (ok v, w')
      → (n : ℕ) × (items : List VersionItem) × Reads p base n url items w w'
        × (n ≤ pages)
        × IsLatest base (before ++ items) v w'
  read_pages-IsLatest base zero url s seen before v w w' h q =
      absurd (ground (arith, no_pages base url s seen w))
  read_pages-IsLatest base (suc pages) url s seen before v w w' h q =
      let (bytes, page, s', g, d, i) = read_ok base pages url s seen v w w' q in
      let h' = add_items-IsSelected base before page.value s s' h i in
      elim (after_page base pages url s seen v w w' bytes page s' q g d i) [
        | inl (n, r) ↦
            let (_, _, _, _, _, _, _, e) = select_ok base s' v (p.get url w).1 w' r in
            (
              1,
              page.value,
              subst (Reads p base 1 url page.value w) (sym e) (last_page bytes page g d n),
              omega arith,
              select_version-IsLatest base (before ++ page.value) s' v (p.get url w).1 w' h' r,
            )
        | inr (next, n, c, r) ↦
            let (k, items, reads, bound, latest) =
              read_pages-IsLatest base pages next s' (insert url tt seen) (before ++ page.value) v
                (p.get url w).1 w' h' r in
            (
              suc k,
              page.value ++ items,
              next_page bytes page g d n c reads,
              omega arith,
              subst (λ xs. IsLatest base xs v w') (append_assoc before page.value items) latest,
            )
      ]

  -- If `get_version` returns a version, it has followed the links of at most a hundred pages to the
  -- last one, each link passing `checked_next`, and the version is that of the item that is newest
  -- among all the items of these pages; no item of another id is as new, and the item may be used
  -- at the time of the answer.
  pub get_version-IsLatest :
      (source : SourceRef) (v : SourceVersion) (w w' : W)
      → get_version p source w ≡ (ok v, w')
      → (base : Text) × (n : ℕ) × (items : List VersionItem) × (base_url source ≡ ok base)
        × Reads p base n (first_url base) items w w'
        × (n ≤ max_pages)
        × IsLatest base items v w'
  unfolding get_version
  get_version-IsLatest source v w w' q = elim (Result-cases (base_url source)) [
    | inr (e, b) ↦ absurd (ground arith)
    | inl (base, b) ↦
        let (n, items, reads, bound, latest) =
          read_pages-IsLatest base max_pages (first_url base)
            (record { latest = none; ambiguous = false }) [] [] v w w' refl (ground arith) in
        (base, n, items, b, reads, bound, latest)
  ]

version_from_id-Checked :
    (base id v : Text) → version_from_id base id ≡ ok v → valid_version v ≡ true
unfolding version_from_id
version_from_id-Checked base id v q = elim (Option-cases (strip_prefix (base ++ text "/") id)) [
  | inl n ↦ absurd (ground arith)
  | inr (found, n) ↦ ground arith
]

-- A version that `get_version` returns passes the check of the engine and that of `get_value`.
pub get_version-safe_version :
    {W : Type 0} (p : AzureParts W) (source : SourceRef) (v : SourceVersion) (w w' : W)
    → get_version p source w ≡ (ok v, w')
    → (safe_version v ≡ true) × (valid_version v ≡ true)
get_version-safe_version p source v w w' q =
    let (base, _, _, _, _, _, (x, _, _, _, _, _, i)) = get_version-IsLatest p source v w w' q in
    let valid = version_from_id-Checked base x.id v i in (valid_version-safe_version v valid, valid)
