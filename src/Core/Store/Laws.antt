-- ===== src/Core/Store/Laws.antt =====
-- The state file: a state that may be stored, and what is read back.
use tarvaultsync.Prelude.{◌≡◌, refl, Option, some, Bool, true, false, [], ◌∷◌, any, arith, nat_eq}
use tarvaultsync.Prelude.Text.{Text, text_eq}
use tarvaultsync.Prelude.Map.{Map, insert, remove, keys}
use tarvaultsync.Prelude.Result.{ok}
use tarvaultsync.Core.{FilePath, Bytes, DeviceState}
use tarvaultsync.Core.Os.{Os}
use tarvaultsync.Core.Store.{is_unsafe_state, load_state, fresh_state}

module _ {ℓ} {V : Type ℓ} (bad : Text × V → Bool) where
  pub any-insert :
      (k : Text) (v : V) (m : Map V)
      → bad (k, v) ≡ false
      → any bad m ≡ false
      → any bad (insert k v m) ≡ false
  unfolding insert
  any-insert k v [] h g = ground arith
  any-insert k v ((j, w) ∷ m) h g = ground (arith, any-insert k v m h)

  pub any-remove : (k : Text) (m : Map V) → any bad m ≡ false → any bad (remove k m) ≡ false
  unfolding remove
  any-remove k [] g = refl
  any-remove k ((j, w) ∷ m) g = ground (arith, any-remove k m)

module _ {ℓ} {V : Type ℓ} (bad : Text → Bool) where
  pub any_key-insert :
      (k : Text) (v : V) (m : Map V)
      → bad k ≡ false
      → any bad (keys m) ≡ false
      → any bad (keys (insert k v m)) ≡ false
  unfolding insert keys
  any_key-insert k v [] h g = ground arith
  any_key-insert k v ((j, w) ∷ m) h g = ground (arith, any_key-insert k v m h)

  pub any_key-remove :
      (k : Text) (m : Map V) → any bad (keys m) ≡ false → any bad (keys (remove k m)) ≡ false
  unfolding remove keys
  any_key-remove k [] g = refl
  any_key-remove k ((j, w) ∷ m) g = ground (arith, any_key-remove k m)

fresh_state-safe : is_unsafe_state fresh_state ≡ false
unfolding is_unsafe_state
fresh_state-safe = refl

module _ {W : Type 0} (os : Os W) (decode : Bytes → Option DeviceState) (path : FilePath) where
  -- Whatever is loaded, a file or the default, may be stored again.
  pub load_state-safe :
      (w : W) (s : DeviceState) → load_state os decode path w ≡ ok s → is_unsafe_state s ≡ false
  unfolding load_state
  load_state-safe w s h = ground (arith, fresh_state-safe)

  -- A stored state that is safe is what a file with its bytes loads to.
  pub load_state-stored :
      (w : W) (s : DeviceState) (bytes : Bytes)
      → is_unsafe_state s ≡ false
      → decode bytes ≡ some s
      → os.exists path w ≡ true
      → os.read path w ≡ ok bytes
      → load_state os decode path w ≡ ok s
  unfolding load_state
  load_state-stored w s bytes h d x r = ground arith
