-- ===== src/Targets/Writer/Applied.antt =====
-- What a run of `ProductionTarget::apply_with_policy` of src/targets.rs has done to the file.
use tarvaultsync.Prelude.{
  ◌≡◌, refl, ◌∙◌, sym, ap, subst, ◌⊎◌, inl, inr, Option, some, true, false, arith, Option-cases,
  Bool-cases,
}
use tarvaultsync.Prelude.Text.{Text}
use tarvaultsync.Prelude.Result.{Result, ok, err, Result-cases}
use tarvaultsync.Core.{
  Bytes, FilePath, SecretPayload, TargetSpec, whole_file, structured_field, docker_input,
  git_credential, fake_slot, dot_env, MissingTargetPolicy, policy_eq, ErrorCategory, target_error,
}
use tarvaultsync.Targets.KeyValue.Keys.{IsKey}
use tarvaultsync.Targets.KeyValue.Written.{IsWritten}
use tarvaultsync.Targets.KeyValue.Laws.{render_key_value-IsWritten}
use tarvaultsync.Targets.Documents.{JsonParts, YamlParts, render_structured}
use tarvaultsync.Targets.EnvFile.{Files}
use tarvaultsync.Targets.Credential.{Git}
use tarvaultsync.Targets.Writer.{
  file_of, check_file, checked_path, read_existing, atomic_write, validate, unwrap_or_default,
  must_exist, rendered, apply_file, apply_valid, apply_with_policy,
}
use tarvaultsync.Targets.Writer.Atomic.{Same, IsAtomic, atomic_write-IsWhole}

module _ {W Child Value File Document Mapping Node : Type 0} (files : Files W)
    (helper : Git W Child) (serde : JsonParts Value) (edit : YamlParts File Document Mapping Node)
    (root : FilePath) where
  abbrev apply_to :
      TargetSpec → SecretPayload → MissingTargetPolicy → W → Result ErrorCategory (Unit {0}) × W
  apply_to = apply_with_policy files helper serde edit root

  -- The file lies in a directory that resolves to one below the root, under an absolute path, and is
  -- not a symbolic link.
  abbrev pub IsInScope : FilePath → W → Type 0
  IsInScope path w =
      (parent resolved : FilePath) × (files.os.parent path ≡ some parent)
      × (files.os.canonicalize parent w ≡ some resolved)
      × (files.os.path_starts_with resolved root ≡ true)
      × (files.os.is_absolute path ≡ true)
      × (files.os.is_symlink path w ≡ false)

  pub check_file-IsInScope :
      (path : FilePath) (o : Option FilePath) (w : W)
      → check_file files root w path ≡ ok o
      → (o ≡ some path) × IsInScope path w
  unfolding check_file
  check_file-IsInScope path o w h = elim (Option-cases (files.os.parent path)) [
    | inl p ↦ absurd (ground arith)
    | inr (parent, p) ↦ elim (Option-cases (files.os.canonicalize parent w)) [
      | inl q ↦ absurd (ground arith)
      | inr (resolved, q) ↦
          (ground arith, (parent, resolved, p, q, ground arith, ground arith, ground arith))
    ]
  ]

  -- A run that ends well, or that changes the world, wrote the bytes of the target to its file, which
  -- is in scope.
  abbrev pub WritesTo :
      FilePath
      → TargetSpec
      → SecretPayload
      → MissingTargetPolicy
      → W
      → Result ErrorCategory (Unit {0}) × W
      → Type 0
  WritesTo path spec payload policy w run =
      (existing : Option Bytes) × (bytes : Bytes) × IsInScope path w
      × (read_existing files path w ≡ ok existing)
      × (must_exist existing policy ≡ false)
      × (rendered files helper serde edit root spec existing payload ≡ ok bytes)
      × (run ≡ atomic_write files path bytes w)

  abbrev pub IsRefused : W → Result ErrorCategory (Unit {0}) × W → Type 0
  IsRefused w run = (e : ErrorCategory) × (run ≡ (err e, w))

  apply_file-cases :
      (path : FilePath) (spec : TargetSpec) (payload : SecretPayload) (policy : MissingTargetPolicy)
      (w : W)
      → file_of spec ≡ ok (some path)
      → WritesTo path spec payload policy w
          (apply_file files helper serde edit root spec payload policy w)
        ⊎ IsRefused w (apply_file files helper serde edit root spec payload policy w)
  unfolding apply_file checked_path
  apply_file-cases path spec payload policy w f =
      elim (Result-cases (check_file files root w path)) [
        | inr (e, p) ↦ inr (e, ground arith)
        | inl (o, p) ↦
            let (g, scope) = check_file-IsInScope path o w p in
            elim (Result-cases (read_existing files path w)) [
              | inr (e, q) ↦ inr (e, ground arith)
              | inl (existing, q) ↦ elim (Bool-cases (must_exist existing policy)) [
                | inl m ↦ inr (target_error, ground arith)
                | inr m ↦
                    elim (Result-cases
                      (rendered files helper serde edit root spec existing payload)) [
                        | inr (e, r) ↦ inr (e, ground arith)
                        | inl (bytes, r) ↦ inl (existing, bytes, scope, q, m, r, ground arith)
                      ]
              ]
            ]
      ]

  pub apply_valid-file :
      (path : FilePath) (spec : TargetSpec) (payload : SecretPayload) (policy : MissingTargetPolicy)
      (w : W)
      → file_of spec ≡ ok (some path)
      → apply_valid files helper serde edit root spec payload policy w
        ≡ apply_file files helper serde edit root spec payload policy w
  unfolding apply_valid file_of
  apply_valid-file path (whole_file p) payload policy w f = refl
  apply_valid-file path (structured_field p k format) payload policy w f = refl
  apply_valid-file path (docker_input p k input) payload policy w f = refl
  apply_valid-file path (git_credential protocol host p name) payload policy w f =
      absurd (ground arith)
  apply_valid-file path (fake_slot slot) payload policy w f = absurd (ground arith)

  -- A target with a file is either refused with the world as it was, or its file lies in scope (below
  -- the root, under an absolute path, no symbolic link), was read, may be made if it is not there, and
  -- the run is the atomic write of the bytes rendered from its old content.
  pub apply_with_policy-WritesTo :
      (path : FilePath) (spec : TargetSpec) (payload : SecretPayload) (policy : MissingTargetPolicy)
      (w : W)
      → file_of spec ≡ ok (some path)
      → WritesTo path spec payload policy w
          (apply_with_policy files helper serde edit root spec payload policy w)
        ⊎ IsRefused w (apply_with_policy files helper serde edit root spec payload policy w)
  unfolding apply_with_policy
  apply_with_policy-WritesTo path spec payload policy w f =
      elim (Result-cases (validate files helper serde edit root spec payload.kind w)) [
        | inr (e, v) ↦ inr (e, ground arith)
        | inl (_, v) ↦
            let e : apply_with_policy files helper serde edit root spec payload policy w
                ≡ apply_file files helper serde edit root spec payload policy w =
              ground (arith, apply_valid-file path spec payload policy w f) in
            subst (λ run. WritesTo path spec payload policy w run ⊎ IsRefused w run) (sym e)
              (apply_file-cases path spec payload policy w f)
      ]

  -- The file holds what was rendered from its old content.
  abbrev pub Holds : FilePath → TargetSpec → SecretPayload → MissingTargetPolicy → W → W → Type 0
  Holds path spec payload policy w w' =
      (existing : Option Bytes) × (bytes : Bytes) × IsInScope path w
      × (read_existing files path w ≡ ok existing)
      × (must_exist existing policy ≡ false)
      × (rendered files helper serde edit root spec existing payload ≡ ok bytes)
      × (files.os.read path w' ≡ ok bytes)

  -- On a file system with the laws of temporary files: a run on a target with a file either succeeds,
  -- and the file, which lies in scope, then holds the bytes rendered from its old content; or it fails,
  -- and the file reads as before.
  pub apply_with_policy-Holds :
      (path : FilePath) (spec : TargetSpec) (payload : SecretPayload) (policy : MissingTargetPolicy)
      (w : W)
      → IsAtomic files path
      → file_of spec ≡ ok (some path)
      → let (r, w') = apply_with_policy files helper serde edit root spec payload policy w in
        ((r ≡ ok tt) × Holds path spec payload policy w w')
        ⊎ (((e : ErrorCategory) × (r ≡ err e)) × Same files path w w')
  apply_with_policy-Holds path spec payload policy w laws f =
      elim (apply_with_policy-WritesTo path spec payload policy w f) [
        | inr (e, h) ↦ inr ((e, ap (λ run. run.0) h), ap (λ run. files.os.read path run.1) h)
        | inl (existing, bytes, scope, q, m, r, h) ↦
            elim (atomic_write-IsWhole files path laws bytes w) [
              | inl (done, now) ↦ inl (
                ap (λ run. run.0) h ∙ done,
                (existing, bytes, scope, q, m, r, ap (λ run. files.os.read path run.1) h ∙ now),
              )
              | inr (failed, same) ↦ inr (
                (target_error, ap (λ run. run.0) h ∙ failed),
                ap (λ run. files.os.read path run.1) h ∙ same,
              )
            ]
      ]

  rendered-dot_env :
      (path : FilePath) (key : Text) (existing : Option Bytes) (payload : SecretPayload)
      (bytes : Bytes)
      → IsKey key
      → rendered files helper serde edit root (structured_field path key dot_env) existing payload
        ≡ ok bytes
      → IsWritten key payload.bytes (unwrap_or_default existing) bytes
  unfolding rendered render_structured
  rendered-dot_env path key existing payload bytes k h =
      render_key_value-IsWritten files.is_utf8 (unwrap_or_default existing) key payload bytes k h

  -- On a file system with the laws of temporary files, and at a key that the configuration allows: when
  -- a payload is applied to a field of a `.env` file, the file then has exactly one line of the key,
  -- which reads back to the payload, and its other lines are those that it had, in order (none if there
  -- was no file).
  pub apply_with_policy-IsWritten :
      (path : FilePath) (key : Text) (payload : SecretPayload) (policy : MissingTargetPolicy)
      (w w' : W)
      → IsAtomic files path
      → IsKey key
      → apply_with_policy files helper serde edit root
          (structured_field path key dot_env)
          payload
          policy
          w
        ≡ (ok tt, w')
      → (existing : Option Bytes) × (out : Bytes) × (read_existing files path w ≡ ok existing)
        × (files.os.read path w' ≡ ok out)
        × IsWritten key payload.bytes (unwrap_or_default existing) out
  apply_with_policy-IsWritten path key payload policy w w' laws k h =
      elim (apply_with_policy-Holds path (structured_field path key dot_env) payload policy w laws
        (unfold file_of in refl)) [
          | inl (_, (existing, out, _, q, _, r, now)) ↦ (
            existing,
            out,
            q,
            sym (ap (λ run. files.os.read path run.1) h) ∙ now,
            rendered-dot_env path key existing payload out k r,
          )
          | inr ((e, failed), _) ↦ absurd (ground arith)
        ]
