-- ===== src/Sources/Change.antt =====
-- The changes of the catalogue of src/sources.rs, and sequences of them.
use tarvaultsync.Prelude.Text.{Text}
use tarvaultsync.Prelude.Result.{Result}
use tarvaultsync.Core.{ErrorCategory}
use tarvaultsync.Sources.{Connection, Shelf, SourcesParts}
use tarvaultsync.Sources.Edit.{add, remove_source, reconnect}

-- A change that the settings page asks for
pub data Change : Type 0 where
  adding reconnecting : Connection → Change
  removing : Text → Change

module _ {W : Type 0} (p : SourcesParts W) where
  unfoldable pub change : Change → Shelf W → Result ErrorCategory (Unit {0}) × Shelf W
  change (adding c) = add p c
  change (reconnecting c) = reconnect p c
  change (removing id) = remove_source p id

  -- The shelves that a sequence of changes leads to, whether they succeed or not
  pub data Reaches : Shelf W → Shelf W → Type 0 where
    here : (h : Shelf W) → Reaches h h
    next : (h h' : Shelf W) (c : Change) → Reaches h h' → Reaches h (change c h').1
