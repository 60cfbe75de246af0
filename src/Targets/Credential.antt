-- ===== src/Targets/Credential.antt =====
-- The credential helper of git, called by src/targets.rs: `store_git_credential` and
-- `git_uses_http_path`.
use tarvaultsync.Prelude.{
  ℕ, Option, none, some, Bool, true, false, not, ◌&&◌, ◌||◌, ◌++◌, any, ◌==◌, nat_eq, is_empty,
  if◌then◌else◌,
}
use tarvaultsync.Prelude.Text.{Text, text, text_eq}
use tarvaultsync.Prelude.Result.{Result, ok, err, Action, ◌>>=◌, ◌>>◌, pure, lift, raise_if}
use tarvaultsync.Core.{Bytes, SecretPayload, ErrorCategory, target_error}
use tarvaultsync.Core.Os.{IoError}
use tarvaultsync.Azure.{to_lower}
use tarvaultsync.Targets.Spaces.{trim}
use tarvaultsync.Targets.EnvFile.{Files, io}

-- The processes of git: the credential helper and `git config`
pub record Git (W Child : Type 0) : Type 0 where
  pub spawn : W → Result IoError Child × W
  pub has_stdin : Child → Bool
  pub write_all : Child → Bytes → W → Result IoError (Unit {0}) × W
  pub close_stdin : Child → W → W
  pub kill : Child → W → W
  -- whether the process ended with success
  pub wait : Child → W → Result IoError Bool × W
  -- `git config --global --get-urlmatch credential.useHttpPath`: success and the output
  pub url_match : Text → W → Result IoError (Bool × Bytes)

abbrev pub credential_break : ℕ → Bool
credential_break b = b == b'\n' || b == b'\r' || b == 0

-- `result?` and the status, after the helper was waited for
abbrev pub credential_result :
    Result ErrorCategory (Unit {0}) → Bool → Result ErrorCategory (Unit {0})
credential_result (err e) success = err e
credential_result (ok _) true = ok tt
credential_result (ok _) false = err target_error

module _ {W Child : Type 0} (files : Files W) (helper : Git W Child) where
  -- `if let Some(path) = path`
  abbrev pub path_line : Child → Option Text → Action W ErrorCategory (Unit {0})
  path_line child none = pure tt
  path_line child (some path) = io (helper.write_all child (text "path=" ++ (path ++ text "\n")))

  -- What is written to the helper
  unfoldable pub write_credential :
      Child → Text → Text → Option Text → Text → Bytes → Action W ErrorCategory (Unit {0})
  write_credential child protocol host path username bytes = do
    raise_if (not (helper.has_stdin child)) target_error
    io (
        helper.write_all child
          (text "protocol=" ++ (protocol ++ (text "\nhost=" ++ (host ++ text "\n")))))
    path_line child path
    io (helper.write_all child (text "username=" ++ (username ++ text "\npassword=")))
    io (helper.write_all child bytes)
    io (helper.write_all child (text "\n\n"))

  -- From the end of the writing on
  unfoldable pub end_credential :
      Child → Result ErrorCategory (Unit {0}) → Action W ErrorCategory (Unit {0})
  end_credential child (ok _) w =
      (io (helper.wait child) >>= λ success. lift (credential_result (ok tt) success))
        (helper.close_stdin child w)
  end_credential child (err e) w =
      (io (helper.wait child) >>= λ success. lift (credential_result (err e) success))
        (helper.kill child (helper.close_stdin child w))

  unfoldable pub store_git_credential :
      Text → Text → Option Text → Text → SecretPayload → Action W ErrorCategory (Unit {0})
  unfolding nat_eq
  store_git_credential protocol host path username payload = do
    raise_if (is_empty payload.bytes || any credential_break payload.bytes) target_error
    child ← io helper.spawn
    λ w.
        let (r, w') = write_credential child protocol host path username payload.bytes w in
        end_credential child r w'

  unfoldable pub git_uses_http_path : Text → Text → W → Bool
  unfolding nat_eq text_eq
  git_uses_http_path host path w =
      if to_lower host == text "dev.azure.com"
      then false
      else elim (helper.url_match (text "https://" ++ (host ++ (text "/" ++ path))) w) [
        | err _ ↦ false
        | ok (success, output) ↦
            success && files.is_utf8 output && to_lower (trim output) == text "true"
      ]

  -- `path.is_none() || git_uses_http_path(..)`
  abbrev pub accepts_path : Text → Option Text → W → Bool
  accepts_path host none w = true
  accepts_path host (some path) w = git_uses_http_path host path w
