-- ===== src/Azure/Newest.antt =====
-- The newest item of a list, and how `get_version` of src/azure.rs keeps it while it reads.
use tarvaultsync.Prelude.{
  suc, ◌≤◌, ◌≡◌, refl, ◌≢◌, ap, sym, subst, ◌∙◌, ◌⊎◌, inl, inr, Option, none, some, Bool, true,
  false, List, [], ◌∷◌, ◌++◌, nat_eq, arith,
}
use tarvaultsync.Prelude.Text.{Text, text_eq}
use tarvaultsync.Prelude.Result.{ok, Result-cases}
use tarvaultsync.Azure.{VersionItem, Selection, version_from_id, add_item, add_items}

abbrev pub Mem : {A : Type 0} → A → List A → Type 0
Mem x [] = ⊥
Mem x (y ∷ ys) = (x ≡ y) ⊎ Mem x ys

module _ {A : Type 0} where
  Mem-snoc : (x y : A) (ys : List A) → Mem x (ys ++ y ∷ []) → Mem x ys ⊎ (x ≡ y)
  Mem-snoc x y [] (inl q) = inr q
  Mem-snoc x y [] (inr m) = absurd m
  Mem-snoc x y (z ∷ zs) (inl q) = inl (inl q)
  Mem-snoc x y (z ∷ zs) (inr m) = elim (Mem-snoc x y zs m) [ inl n ↦ inl (inr n) | inr q ↦ inr q ]

  Mem-append_left : (x : A) (xs ys : List A) → Mem x xs → Mem x (xs ++ ys)
  Mem-append_left x [] ys m = absurd m
  Mem-append_left x (z ∷ zs) ys (inl q) = inl q
  Mem-append_left x (z ∷ zs) ys (inr m) = inr (Mem-append_left x zs ys m)

  Mem-last : (x : A) (xs : List A) → Mem x (xs ++ x ∷ [])
  Mem-last x [] = inl refl
  Mem-last x (z ∷ zs) = inr (Mem-last x zs)

  append-snoc : (xs : List A) (x : A) (ys : List A) → (xs ++ x ∷ []) ++ ys ≡ xs ++ x ∷ ys
  append-snoc [] x ys = refl
  append-snoc (z ∷ zs) x ys = ap (λ zs. z ∷ zs) (append-snoc zs x ys)

  append-nil : (xs : List A) → xs ++ [] ≡ xs
  append-nil [] = refl
  append-nil (z ∷ zs) = ap (λ zs. z ∷ zs) (append-nil zs)

  pub append_assoc : (xs ys zs : List A) → (xs ++ ys) ++ zs ≡ xs ++ (ys ++ zs)
  append_assoc [] ys zs = refl
  append_assoc (x ∷ xs) ys zs = ap (λ zs. x ∷ zs) (append_assoc xs ys zs)

-- No item of the list is newer.
abbrev pub IsNewest : List VersionItem → VersionItem → Type 0
IsNewest items x =
    Mem x items × ((y : VersionItem) → Mem y items → y.attributes.created ≤ x.attributes.created)

-- Another item with the same time has the same id.
abbrev pub IsOnly : List VersionItem → VersionItem → Type 0
IsOnly items x =
    (y : VersionItem) → Mem y items → y.attributes.created ≡ x.attributes.created → y.id ≡ x.id

abbrev pub HasRival : List VersionItem → VersionItem → Type 0
HasRival items x =
    (y : VersionItem) × Mem y items × (y.attributes.created ≡ x.attributes.created) × (y.id ≢ x.id)

-- What `latest` and `ambiguous` say of the items so far
abbrev pub IsSelectedBy : List VersionItem → Option VersionItem → Bool → Type 0
IsSelectedBy items none a = items ≡ []
IsSelectedBy items (some x) a =
    IsNewest items x × (a ≡ false → IsOnly items x) × (a ≡ true → HasRival items x)

abbrev pub IsSelected : List VersionItem → Selection → Type 0
IsSelected items s = IsSelectedBy items s.latest s.ambiguous

-- One more item, next to the newest so far: what it has to satisfy passes to the longer list.
IsNewest-snoc :
    (items : List VersionItem) (item x : VersionItem)
    → item.attributes.created ≤ x.attributes.created
    → IsNewest items x
    → IsNewest (items ++ item ∷ []) x
IsNewest-snoc items item x le (m, most) = (
  Mem-append_left x items (item ∷ []) m,
  λ y n. elim (Mem-snoc y item items n) [ inl k ↦ most y k | inr q ↦ rw q le ],
)

IsOnly-snoc :
    (items : List VersionItem) (item x : VersionItem)
    → (item.attributes.created ≡ x.attributes.created → item.id ≡ x.id)
    → IsOnly items x
    → IsOnly (items ++ item ∷ []) x
IsOnly-snoc items item x alike only y n same = elim (Mem-snoc y item items n) [
  | inl k ↦ only y k same
  | inr q ↦ ap (λ z. z.id) q ∙ alike (sym (ap (λ z. z.attributes.created) q) ∙ same)
]

-- An item newer than all the others
IsNewest-last :
    (items : List VersionItem) (item : VersionItem)
    → ((y : VersionItem)
        → Mem y items
        → (y.attributes.created ≤ item.attributes.created)
          × (y.attributes.created ≢ item.attributes.created))
    → IsNewest (items ++ item ∷ []) item × IsOnly (items ++ item ∷ []) item
IsNewest-last items item older = (
  (
    Mem-last item items,
    λ y n. elim (Mem-snoc y item items n) [ inl k ↦ (older y k).0 | inr q ↦ rw q (omega arith) ],
  ),
  λ y n same. elim (Mem-snoc y item items n) [
    | inl k ↦ absurd ((older y k).1 same)
    | inr q ↦ ap (λ z. z.id) q
  ],
)

HasRival-snoc :
    (items : List VersionItem) (item x : VersionItem)
    → HasRival items x
    → HasRival (items ++ item ∷ []) x
HasRival-snoc items item x (y, n, same, other) =
    (y, Mem-append_left y items (item ∷ []) n, same, other)

-- The next item is older, has the same time, or is newer.
add_item_cases :
    (item x : VersionItem) (a : Bool)
    → let s : Selection = record { latest = some x; ambiguous = a } in
      let c = item.attributes.created in
      let d = x.attributes.created in
      ((suc c ≤ d) × (add_item item s ≡ s))
      ⊎ ((c ≡ d) × (item.id ≡ x.id) × (add_item item s ≡ s))
      ⊎ ((c ≡ d) × (item.id ≢ x.id) × (add_item item s ≡ record s { ambiguous = true }))
      ⊎ ((suc d ≤ c) × (add_item item s ≡ record { latest = some item; ambiguous = false }))
unfolding add_item
add_item_cases item x a = ground arith

add_item-IsSelected :
    (items : List VersionItem) (item : VersionItem) (o : Option VersionItem) (a : Bool)
    → IsSelectedBy items o a
    → IsSelected (items ++ item ∷ []) (add_item item (record { latest = o; ambiguous = a }))
unfolding add_item
add_item-IsSelected items item none a h =
    let (newest, only) = IsNewest-last [] item (λ y n. absurd n) in
    subst (λ xs. IsSelected (xs ++ item ∷ []) (record { latest = some item; ambiguous = false }))
      (sym h) (newest, λ _. only, λ r. ground arith)
add_item-IsSelected items item (some x) a ((m, most), only, rival) =
    elim (add_item_cases item x a) [
      | inl (lt, q) ↦ rw q (
        IsNewest-snoc items item x (omega arith) (m, most),
        λ r. IsOnly-snoc items item x (λ same. absurd (omega arith)) (only r),
        λ r. HasRival-snoc items item x (rival r),
      )
      | inr (inl (same, alike, q)) ↦ rw q (
        IsNewest-snoc items item x (omega arith) (m, most),
        λ r. IsOnly-snoc items item x (λ _. alike) (only r),
        λ r. HasRival-snoc items item x (rival r),
      )
      | inr (inr (inl (same, other, q))) ↦ rw q (
        IsNewest-snoc items item x (omega arith) (m, most),
        λ r. ground arith,
        λ _. (item, Mem-last item items, same, other),
      )
      | inr (inr (inr (gt, q))) ↦
          let (newest, one) =
            IsNewest-last items item
              (λ y k. (omega (arith, most y k), λ e. absurd (omega (arith, most y k)))) in
          rw q (newest, λ _. one, λ r. ground arith)
    ]

pub add_items-IsSelected :
    (base : Text) (items more : List VersionItem) (s s' : Selection)
    → IsSelected items s
    → add_items base more s ≡ ok s'
    → IsSelected (items ++ more) s'
unfolding add_items
add_items-IsSelected base items [] s s' h q =
    rw (append-nil items) (subst (IsSelected items) (ground arith) h)
add_items-IsSelected base items (x ∷ more) s s' h q =
    elim (Result-cases (version_from_id base x.id)) [
      | inr (e, r) ↦ absurd (ground arith)
      | inl (v, r) ↦
          subst (λ xs. IsSelected xs s') (append-snoc items x more)
            (add_items-IsSelected base (items ++ x ∷ []) more (add_item x s) s'
              (add_item-IsSelected items x s.latest s.ambiguous h) (ground arith))
    ]
