-- ===== src/BrowserImport/Consent.antt =====
-- What `import_file` of src/browser_import.rs has checked before it writes to the vault.
use tarvaultsync.Prelude.{
  ℕ, suc, ◌≤◌, ◌≡◌, refl, ap, subst, ◌⊎◌, inl, inr, Option, none, some, Bool, true, false, not,
  ◌||◌, List, [], ◌∷◌, ◌++◌, ◌==◌, nat_eq, ltb, leb, length, is_empty, all, arith, Bool-cases,
}
use tarvaultsync.Prelude.Text.{Text}
use tarvaultsync.Prelude.Result.{Result, ok, err, Result-cases}
use tarvaultsync.Core.{Bytes, FilePath, SecretPayload}
use tarvaultsync.Core.Labels.{safe_label}
use tarvaultsync.Vault.{VaultParts}
use tarvaultsync.Vault.Source.{Host, is_unlocked}
use tarvaultsync.BrowserImport.{
  ImportError, max_bytes, no_consent, vault_locked, bad_prefix, CsvParts, Selected, entry_of,
  read_entries, read_table, header_of, parse, without_mark, strict_quotes, read_selected,
  import_parsed, import_file,
}

length-snoc :
    (xs : List (Text × SecretPayload)) (x : Text × SecretPayload)
    → length (xs ++ x ∷ []) ≡ suc (length xs)
length-snoc [] x = refl
length-snoc (y ∷ xs) x = ap suc (length-snoc xs x)

module _ (csv : CsvParts) where
  entry_of_bound :
      (prefix : Text) (columns : List Text) (values : List Bytes) (count : ℕ)
      (entry : Text × SecretPayload)
      → entry_of csv prefix columns values count ≡ ok entry
      → suc count ≤ 1000
  unfolding entry_of
  entry_of_bound prefix columns values count entry h =
      elim (Bool-cases (not (length values == length columns) || leb 1000 count)) [
        | inl g ↦ absurd (ground arith)
        | inr g ↦ ground arith
      ]

  read_entries_bound :
      (prefix : Text) (columns : List Text) (records : List (Option (List Bytes)))
      (entries out : List (Text × SecretPayload))
      → length entries ≤ 1000
      → read_entries csv prefix columns records entries ≡ ok out
      → length out ≤ 1000
  unfolding read_entries
  read_entries_bound prefix columns [] entries out n h =
      let e : entries ≡ out = ground arith in subst (λ xs. length xs ≤ 1000) e n
  read_entries_bound prefix columns (none ∷ records) entries out n h = absurd (ground arith)
  read_entries_bound prefix columns (some values ∷ records) entries out n h =
      elim (Bool-cases (not (all csv.is_utf8 values))) [
        | inl g ↦ absurd (ground arith)
        | inr g ↦ elim (Result-cases (entry_of csv prefix columns values (length entries))) [
          | inr (e, q) ↦ absurd (ground arith)
          | inl (entry, q) ↦
              let bound = entry_of_bound prefix columns values (length entries) entry q in
              read_entries_bound prefix columns records (entries ++ entry ∷ []) out
                (omega (arith, bound, length-snoc entries entry)) (ground arith)
        ]
      ]

  read_table_bound :
      (prefix : Text) (records : List (Option (List Bytes))) (out : List (Text × SecretPayload))
      → read_table csv prefix records ≡ ok out
      → length out ≤ 1000
  unfolding read_table
  read_table_bound prefix [] out h =
      let e : [] ≡ out = ground arith in subst (λ xs. length xs ≤ 1000) e (omega arith)
  read_table_bound prefix (none ∷ records) out h = absurd (ground arith)
  read_table_bound prefix (some values ∷ records) out h =
      elim (Bool-cases (not (all csv.is_utf8 values))) [
        | inl g ↦ absurd (ground arith)
        | inr g ↦ elim (Result-cases (header_of values)) [
          | inr (e, q) ↦ absurd (ground arith)
          | inl (columns, q) ↦
              read_entries_bound prefix columns records [] out (omega arith) (ground arith)
        ]
      ]

  nonempty : (xs : List (Text × SecretPayload)) → is_empty xs ≡ false → 1 ≤ length xs
  nonempty [] h = absurd (ground arith)
  nonempty (x ∷ xs) h = omega arith

  parse_bound :
      (bytes : Bytes) (prefix : Text) (entries : List (Text × SecretPayload))
      → parse csv bytes prefix ≡ ok entries
      → (1 ≤ length entries) × (length entries ≤ 1000)
  unfolding parse
  parse_bound bytes prefix entries h =
      elim (Bool-cases (
        is_empty bytes
        || ltb max_bytes (length bytes)
        || not (safe_label prefix)
        || ltb 48 (length prefix))) [
          | inl g ↦ absurd (ground arith)
          | inr g ↦ elim (Result-cases (strict_quotes (without_mark csv bytes))) [
            | inr (e, q) ↦ absurd (ground arith)
            | inl (_, q) ↦
                elim (Result-cases
                  (read_table csv prefix (csv.read_records (without_mark csv bytes)))) [
                    | inr (e, r) ↦ absurd (ground arith)
                    | inl (found, r) ↦ elim (Bool-cases (is_empty found)) [
                      | inl m ↦ absurd (ground arith)
                      | inr m ↦
                          let e : found ≡ entries = ground arith in
                          subst (λ xs. (1 ≤ length xs) × (length xs ≤ 1000)) e
                            (
                              nonempty found m,
                              read_table_bound prefix (csv.read_records (without_mark csv bytes))
                                  found r,
                            )
                    ]
                  ]
          ]
        ]

module _ {W : Type 0} (csv : CsvParts) (p : VaultParts W) (selected : Selected W) where
  -- An import that reaches the vault has been agreed to, found it open, and parsed the file.
  abbrev pub IsParsed : FilePath → Text → Bool → ℕ → Host W → Result ImportError ℕ × Host W → Type 0
  IsParsed path prefix consent tries h run =
      let h' = (is_unlocked p h).1 in
      (bytes : Bytes) × (entries : List (Text × SecretPayload)) × (consent ≡ true)
      × ((is_unlocked p h).0 ≡ true)
      × (read_selected csv p selected path h'.world ≡ ok bytes)
      × (parse csv bytes prefix ≡ ok entries)
      × (1 ≤ length entries)
      × (length entries ≤ 1000)
      × (run ≡ import_parsed csv p selected tries entries h')

  abbrev pub Refused : Host W → Result ImportError ℕ × Host W → Type 0
  Refused h run = (e : ImportError) × ((run ≡ (err e, h)) ⊎ (run ≡ (err e, (is_unlocked p h).1)))

  -- An import is refused with the vault as it was, or as the test for an open one left it; or the user
  -- agreed, the vault was open, the file parsed to between one and a thousand entries, and the run is
  -- the import of these.
  pub import_file-IsParsed :
      (tries : ℕ) (path : FilePath) (prefix : Text) (consent : Bool) (h : Host W)
      → Refused h (import_file csv p selected tries path prefix consent h)
        ⊎ IsParsed path prefix consent tries h
            (import_file csv p selected tries path prefix consent h)
  unfolding import_file
  import_file-IsParsed tries path prefix false h = inl (no_consent, inl refl)
  import_file-IsParsed tries path prefix true h =
      let h' = (is_unlocked p h).1 in
      elim (Bool-cases (is_unlocked p h).0) [
        | inr u ↦ inl (vault_locked, inr (ground arith))
        | inl u ↦ elim (Bool-cases (not (safe_label prefix) || ltb 48 (length prefix))) [
          | inl g ↦ inl (bad_prefix, inr (ground arith))
          | inr g ↦ elim (Result-cases (read_selected csv p selected path h'.world)) [
            | inr (e, q) ↦ inl (e, inr (ground arith))
            | inl (bytes, q) ↦ elim (Result-cases (parse csv bytes prefix)) [
              | inr (e, r) ↦ inl (e, inr (ground arith))
              | inl (entries, r) ↦
                  let (least, most) = parse_bound csv bytes prefix entries r in
                  inr (bytes, entries, refl, u, q, r, least, most, ground arith)
            ]
          ]
        ]
      ]
