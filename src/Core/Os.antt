-- ===== src/Core/Os.antt =====
-- What the program asks of the operating system and of `std::path`, over a world `W` that also
-- holds everything that the sources and targets keep.
use tarvaultsync.Prelude.{ℕ, Option, List, Bool}
use tarvaultsync.Prelude.Text.{Text}
use tarvaultsync.Prelude.Result.{Result}

-- `std::io::ErrorKind`, as far as the program tells errors apart.
pub data IoError : Type 0 where
  not_found other : IoError

-- Paths and contents are texts and bytes, both lists of numbers.
pub record Os (W : Type 0) : Type 0 where
  -- `Path::is_absolute`, `Path::starts_with`, a `ParentDir` among the components, `Path::parent`,
  -- `Path::with_extension`
  pub is_absolute : Text → Bool
  pub path_starts_with : Text → Text → Bool
  pub has_parent_dir : Text → Bool
  pub parent : Text → Option Text
  pub with_extension : Text → Text → Text
  -- `canonicalize().ok()`
  pub canonicalize : Text → W → Option Text
  -- `symlink_metadata(path).is_ok_and(|m| m.file_type().is_symlink())`
  pub is_symlink : Text → W → Bool
  pub exists : Text → W → Bool
  -- `fs::read`
  pub read : Text → W → Result IoError (List ℕ)
  -- `path.metadata().map(|m| m.len())`
  pub metadata_len : Text → W → Option ℕ
  -- `File::create`, `write_all`, `sync_all`
  pub create_synced : Text → List ℕ → W → Result IoError (Unit {0}) × W
  -- open with `create` and `append`, `write_all`
  pub append : Text → List ℕ → W → Result IoError (Unit {0}) × W
  pub rename : Text → Text → W → Result IoError (Unit {0}) × W
  pub remove_file : Text → W → Result IoError (Unit {0}) × W
  -- seconds since the epoch
  pub now : W → ℕ
