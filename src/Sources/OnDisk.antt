-- ===== src/Sources/OnDisk.antt =====
-- The file of the catalogue of src/sources.rs and the bytes that are held as its content.
use tarvaultsync.Prelude.{
  ◌+◌, ◌≤◌, ◌≡◌, refl, ◌≢◌, ◌∙◌, sym, ap, subst, ◌⊎◌, inl, inr, Option, some, false, nat_eq, ltb,
  length, arith, Option-cases, Bool-cases,
}
use tarvaultsync.Prelude.Text.{text, text_eq}
use tarvaultsync.Prelude.Result.{Result, ok, err, Result-cases}
use tarvaultsync.Core.{Bytes, FilePath, ErrorCategory, state_error}
use tarvaultsync.Core.Os.{IoError}
use tarvaultsync.Sources.{Catalogue, Shelf, SourcesParts, max_bytes, os}
use tarvaultsync.Sources.Edit.{
  read_catalogue, move_catalogue, fresh_bytes, write_bytes, acquire_lock, persist,
}

module _ {W : Type 0} (p : SourcesParts W) where
  -- The file of the catalogue is as it was.
  pub record SameFile (w w' : W) : Type 0 where
    pub same_kind : p.is_irregular p.path w' ≡ p.is_irregular p.path w
    pub same_bytes : p.read_up_to (max_bytes + 1) p.path w' ≡ p.read_up_to (max_bytes + 1) p.path w

  abbrev pub lock_path : FilePath
  lock_path = (os p).with_extension p.path (text "lock")

  -- What is assumed of the system: a new temporary file is not the catalogue; of the calls of
  -- `persist` only a move onto the catalogue that succeeds changes it, and then it is a file of the
  -- bytes that were written.
  pub record IsDurable : Type 0 where
    pub open_lock-same : (w : W) → SameFile w (p.open_lock lock_path w).1
    pub try_lock-same : (w : W) → SameFile w (p.try_lock lock_path w).1
    pub new_temp-same : (parent : FilePath) (w : W) → SameFile w (p.files.new_temp parent w).1
    pub new_temp-apart :
        (parent temp : FilePath) (w w' : W)
        → p.files.new_temp parent w ≡ (ok temp, w')
        → temp ≢ p.path
    pub write_synced-same :
        (temp : FilePath) (x : Bytes) (w : W)
        → temp ≢ p.path
        → SameFile w (p.files.write_synced temp x w).1
    pub persist-failed :
        (temp : FilePath) (w : W) (e : IoError)
        → (p.files.persist_temp temp p.path w).0 ≡ err e
        → SameFile w (p.files.persist_temp temp p.path w).1
    pub persist-written :
        (temp : FilePath) (x : Bytes) (w : W)
        → length x ≤ max_bytes
        → (p.files.write_synced temp x w).0 ≡ ok tt
        → let (r, w') = p.files.persist_temp temp p.path (p.files.write_synced temp x w).1 in
          r ≡ ok tt
          → (p.is_irregular p.path w' ≡ false) × (p.read_up_to (max_bytes + 1) p.path w' ≡ ok x)
    pub drop_temp-same :
        (temp : FilePath) (w : W) → temp ≢ p.path → SameFile w (p.files.drop_temp temp w)

  -- The bytes that are held are the content of the file, or there is none and no file.
  abbrev pub IsOnDisk : Shelf W → Type 0
  IsOnDisk h = read_catalogue p h.world ≡ ok h.sources.saved_bytes

  abbrev Same : W → W → Type 0
  Same w w' = read_catalogue p w' ≡ read_catalogue p w

  SameFile-Same : {w w' : W} → SameFile w w' → Same w w'
  unfolding read_catalogue
  SameFile-Same f = rw (f.same_kind, f.same_bytes) refl

  read_catalogue-written :
      (x : Bytes) (w : W)
      → length x ≤ max_bytes
      → p.is_irregular p.path w ≡ false
      → p.read_up_to (max_bytes + 1) p.path w ≡ ok x
      → read_catalogue p w ≡ ok (some x)
  unfolding read_catalogue
  read_catalogue-written x w n i r = ground arith

  -- The bytes are in the file, or the call has failed and the file is as it was.
  abbrev IsWhole : Bytes → W → Result ErrorCategory (Unit {0}) × W → Type 0
  IsWhole x w (r, w') =
      ((r ≡ ok tt) × (read_catalogue p w' ≡ ok (some x)))
      ⊎ (((e : ErrorCategory) × (r ≡ err e)) × Same w w')

  module _ (laws : IsDurable) where
    move_catalogue-IsWhole :
        (temp : FilePath) (x : Bytes) (w : W)
        → temp ≢ p.path
        → length x ≤ max_bytes
        → IsWhole x w (move_catalogue p temp x w)
    unfolding move_catalogue
    move_catalogue-IsWhole temp x w apart short =
        let w1 = (p.files.write_synced temp x w).1 in
        let w2 = (p.files.persist_temp temp p.path w1).1 in
        let s1 = SameFile-Same (laws.write_synced-same temp x w apart) in
        elim (Result-cases (p.files.write_synced temp x w).0) [
          | inr (c, q) ↦
              let d = SameFile-Same (laws.drop_temp-same temp w1 apart) in
              inr ((state_error, ground arith), ground arith)
          | inl (_, q) ↦ elim (Result-cases (p.files.persist_temp temp p.path w1).0) [
            | inr (c, r) ↦
                let d = SameFile-Same (laws.drop_temp-same temp w2 apart) in
                let s2 = SameFile-Same (laws.persist-failed temp w1 c r) in
                inr ((state_error, ground arith), ground arith)
            | inl (_, r) ↦
                let (i, b) = laws.persist-written temp x w short q r in
                let there = read_catalogue-written x w2 short i b in
                inl (ground arith, ground arith)
          ]
        ]

    IsWhole-after :
        (x : Bytes) (w w1 : W) (r : Result ErrorCategory (Unit {0}) × W)
        → Same w w1
        → IsWhole x w1 r
        → IsWhole x w r
    IsWhole-after x w w1 r same (inl done) = inl done
    IsWhole-after x w w1 r same (inr (e, s)) = inr (e, s ∙ same)

    write_bytes-IsWhole :
        (x : Bytes) (w : W) → length x ≤ max_bytes → IsWhole x w (write_bytes p x w)
    unfolding write_bytes
    write_bytes-IsWhole x w short = elim (Option-cases ((os p).parent p.path)) [
      | inl n ↦ rw n (inr ((state_error, refl), refl))
      | inr (parent, n) ↦
          let w1 = (p.files.new_temp parent w).1 in
          let same = SameFile-Same (laws.new_temp-same parent w) in
          elim (Result-cases (p.files.new_temp parent w).0) [
            | inr (c, q) ↦ inr ((state_error, ground arith), ground arith)
            | inl (temp, q) ↦
                let e : write_bytes p x w ≡ move_catalogue p temp x w1 = ground arith in
                subst (IsWhole x w) (sym e) (
                  IsWhole-after x w w1 (move_catalogue p temp x w1) same (
                    move_catalogue-IsWhole temp x w1
                      (laws.new_temp-apart parent temp w w1 (ap (λ r. (r, w1)) q)) short))
          ]
    ]

    acquire_lock-Same : (w : W) → Same w (acquire_lock p w).1
    unfolding acquire_lock
    acquire_lock-Same w =
        let w1 = (p.open_lock lock_path w).1 in
        let s1 = SameFile-Same (laws.open_lock-same w) in
        let s2 = SameFile-Same (laws.try_lock-same w1) in ground arith

    fresh_bytes_short :
        (expected : Option Bytes) (c : Catalogue) (w : W) (bytes : Bytes)
        → fresh_bytes p expected c w ≡ ok bytes
        → length bytes ≤ max_bytes
    unfolding fresh_bytes
    fresh_bytes_short expected c w bytes h = elim (Result-cases (read_catalogue p w)) [
      | inr (e, q) ↦ absurd (ground arith)
      | inl (current, q) ↦ elim (Option-cases (p.encode c)) [
        | inl n ↦ absurd (ground arith)
        | inr (b, n) ↦ elim (Bool-cases (ltb max_bytes (length b))) [
          | inl l ↦ absurd (ground arith)
          | inr l ↦ ground arith
        ]
      ]
    ]

    -- A `persist` that succeeds has put its bytes in the file, and one that fails has left the file.
    pub persist-IsWhole :
        (expected : Option Bytes) (c : Catalogue) (w : W)
        → let (r, w') = persist p expected c w in
          ((x : Bytes) × (r ≡ ok x) × (read_catalogue p w' ≡ ok (some x)))
          ⊎ (((e : ErrorCategory) × (r ≡ err e)) × Same w w')
    unfolding persist
    persist-IsWhole expected c w =
        let w1 = (acquire_lock p w).1 in
        let same = acquire_lock-Same w in
        elim (Result-cases (acquire_lock p w).0) [
          | inr (e, q) ↦ inr ((e, ground arith), ground arith)
          | inl (_, q) ↦ elim (Result-cases (fresh_bytes p expected c w1)) [
            | inr (e, f) ↦ inr ((e, ground arith), ground arith)
            | inl (bytes, f) ↦
                elim (write_bytes-IsWhole bytes w1 (fresh_bytes_short expected c w1 bytes f)) [
                  | inl (r, there) ↦ inl (bytes, ground arith, ground arith)
                  | inr ((e, r), s) ↦ inr ((e, ground arith), ground arith)
                ]
          ]
        ]
