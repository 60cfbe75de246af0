-- ===== src/Targets/Writer/Atomic.antt =====
-- `atomic_write` of src/targets.rs, on a file system whose temporary files are apart from the target.
use tarvaultsync.Prelude.{◌≡◌, refl, ◌≢◌, ◌∙◌, sym, ap, subst, ◌⊎◌, inl, inr, arith, Option-cases}
use tarvaultsync.Prelude.Result.{Result, ok, err, Result-cases}
use tarvaultsync.Core.{Bytes, FilePath, ErrorCategory, target_error}
use tarvaultsync.Core.Os.{IoError}
use tarvaultsync.Targets.EnvFile.{Files}
use tarvaultsync.Targets.Writer.{fill_temp, atomic_write}

module _ {W : Type 0} (files : Files W) (path : FilePath) where
  -- The file at the path is the same in two worlds.
  abbrev pub Same : W → W → Type 0
  Same w w' = files.os.read path w' ≡ files.os.read path w

  -- What is assumed of temporary files: a new one is not the file at the path; only a `persist` that
  -- succeeds changes that file, and puts the bytes there that were written.
  pub record IsAtomic : Type 0 where
    pub new_temp-same : (parent : FilePath) (w : W) → Same w (files.new_temp parent w).1
    pub new_temp-apart :
        (parent temp : FilePath) (w w' : W) → files.new_temp parent w ≡ (ok temp, w') → temp ≢ path
    pub set_private-same :
        (temp : FilePath) (w : W) → temp ≢ path → Same w (files.set_private temp w).1
    pub write_synced-same :
        (temp : FilePath) (x : Bytes) (w : W) → temp ≢ path → Same w (files.write_synced temp x w).1
    pub persist-failed :
        (temp : FilePath) (w : W) (e : IoError)
        → (files.persist_temp temp path w).0 ≡ err e
        → Same w (files.persist_temp temp path w).1
    pub persist-written :
        (temp : FilePath) (x : Bytes) (w : W)
        → (files.write_synced temp x w).0 ≡ ok tt
        → (files.persist_temp temp path (files.write_synced temp x w).1).0 ≡ ok tt
        → files.os.read path (files.persist_temp temp path (files.write_synced temp x w).1).1 ≡ ok x
    pub drop_temp-same : (temp : FilePath) (w : W) → temp ≢ path → Same w (files.drop_temp temp w)

  -- A write either has put the bytes in the file, or has failed and left it.
  abbrev pub IsWhole : Bytes → W → Result ErrorCategory (Unit {0}) × W → Type 0
  IsWhole x w (r, w') =
      ((r ≡ ok tt) × (files.os.read path w' ≡ ok x)) ⊎ ((r ≡ err target_error) × Same w w')

  module _ (laws : IsAtomic) where
    fill_temp-IsWhole :
        (temp : FilePath) (x : Bytes) (w : W)
        → temp ≢ path
        → IsWhole x w (fill_temp files temp path x w)
    unfolding fill_temp
    fill_temp-IsWhole temp x w apart =
        let w1 = (files.set_private temp w).1 in
        let w2 = (files.write_synced temp x w1).1 in
        let w3 = (files.persist_temp temp path w2).1 in
        let s1 = laws.set_private-same temp w apart in
        let s2 = laws.write_synced-same temp x w1 apart in
        elim (Result-cases (files.set_private temp w).0) [
          | inr (c, p) ↦
              let e : fill_temp files temp path x w ≡ (err target_error, files.drop_temp temp w1) =
                ground arith in
              subst (IsWhole x w) (sym e) (inr (refl, laws.drop_temp-same temp w1 apart ∙ s1))
          | inl (_, p) ↦ elim (Result-cases (files.write_synced temp x w1).0) [
            | inr (c, q) ↦
                let e : fill_temp files temp path x w
                    ≡ (err target_error, files.drop_temp temp w2) =
                  ground arith in
                subst (IsWhole x w) (sym e)
                  (inr (refl, laws.drop_temp-same temp w2 apart ∙ s2 ∙ s1))
            | inl (_, q) ↦ elim (Result-cases (files.persist_temp temp path w2).0) [
              | inr (c, r) ↦
                  let e : fill_temp files temp path x w
                      ≡ (err target_error, files.drop_temp temp w3) =
                    ground arith in
                  subst (IsWhole x w) (sym e) (
                    inr (
                      refl,
                      laws.drop_temp-same temp w3 apart ∙ laws.persist-failed temp w2 c r ∙ s2 ∙ s1,
                    ))
              | inl (_, r) ↦
                  let e : fill_temp files temp path x w ≡ (ok tt, w3) = ground arith in
                  subst (IsWhole x w) (sym e) (inl (refl, laws.persist-written temp x w1 q r))
            ]
          ]
        ]

    IsWhole-after :
        (x : Bytes) (w w1 : W) {r : Result ErrorCategory (Unit {0}) × W}
        → Same w w1
        → IsWhole x w1 r
        → IsWhole x w r
    IsWhole-after x w w1 same (inl done) = inl done
    IsWhole-after x w w1 same (inr (e, s)) = inr (e, s ∙ same)

    pub atomic_write-IsWhole : (x : Bytes) (w : W) → IsWhole x w (atomic_write files path x w)
    unfolding atomic_write
    atomic_write-IsWhole x w = elim (Option-cases (files.os.parent path)) [
      | inl p ↦ rw p (inr (refl, refl))
      | inr (parent, p) ↦
          let w1 = (files.new_temp parent w).1 in
          let same = laws.new_temp-same parent w in
          elim (Result-cases (files.new_temp parent w).0) [
            | inr (c, q) ↦
                let e : atomic_write files path x w ≡ (err target_error, w1) = ground arith in
                subst (IsWhole x w) (sym e) (inr (refl, same))
            | inl (temp, q) ↦
                let e : atomic_write files path x w ≡ fill_temp files temp path x w1 =
                  ground arith in
                subst (IsWhole x w) (sym e) (
                  IsWhole-after x w w1 same (
                    fill_temp-IsWhole temp x w1
                      (laws.new_temp-apart parent temp w w1 (ap (λ r. (r, w1)) q))))
          ]
    ]
