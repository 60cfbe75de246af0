-- ===== src/Tests/Engine/Durable.antt =====
-- The state file and the event log at concrete runs: the test world meets what is assumed.
use tarvaultsync.Prelude.{
  ℕ, zero, suc, ◌≡◌, refl, ◌≢◌, Option, none, some, true, false, [], ◌∷◌, arith, if◌then◌else◌, Eq,
  ◌==◌, nat_eq, ℕ_discrete, ◌∙◌,
}
use tarvaultsync.Prelude.Text.{Text, text, text_eq, is_alphanumeric}
use tarvaultsync.Prelude.Map.{lookup, insert, remove, lookup-insert, lookup-remove, Map}
use tarvaultsync.Prelude.Result.{ok}
use tarvaultsync.Core.{DeviceState, Bytes, SyncOutcome, applied}
use tarvaultsync.Core.Labels.{safe_label, is_label_byte}
use tarvaultsync.Core.Store.{load_state, fresh_state}
use tarvaultsync.Core.Engine.{Parts, Engine, sync, invalidate_bindings, new_engine}
use tarvaultsync.Core.Engine.Saved.{SameFile, Spares, IsReliable, IsSaved}
use tarvaultsync.Core.Engine.Durable.{sync-IsSaved}
use tarvaultsync.Core.Engine.Handled.{
  syncing, acknowledging, called, Reaches, here, next, wait, invalidate_bindings-IsSaved,
  Reaches-IsSaved,
}
use tarvaultsync.Scheduler.{run_once}
use tarvaultsync.Scheduler.Saved.{run_once-IsSaved}
use tarvaultsync.Ipc.{Request, trigger_request, handle}
use tarvaultsync.Ipc.Saved.{handle-IsSaved}
use tarvaultsync.Tests.World.{World, parts, binding, start, disk, move_file}

-- The states that a first run goes through, and a codec for them.
abbrev state1 : DeviceState
state1 = record { version = 1; applied = (text "b1", text "v1") ∷ []; status = []; disabled = [] }

abbrev state2 : DeviceState
state2 = record state1 { status = (text "b1", record { timestamp = 7; outcome = applied }) ∷ [] }

DeviceState-discrete : Discrete DeviceState
DeviceState-discrete = hlevel ℕ_discrete

instance device_state_eq : Eq DeviceState
unfolding DeviceState-discrete ℕ_discrete
device_state_eq = record { dec = DeviceState-discrete }

encode : DeviceState → Option Bytes
encode s =
    if s == fresh_state
    then some (0 ∷ [])
    else if s == state1
    then some (1 ∷ [])
    else if s == state2
    then some (2 ∷ [])
    else none

decode : Bytes → Option DeviceState
decode (zero ∷ []) = some fresh_state
decode (suc zero ∷ []) = some state1
decode (suc (suc n) ∷ []) = some state2
decode _ = none

abbrev p : Parts World
p = parts encode decode

decode-encode : (s : DeviceState) (x : Bytes) → encode s ≡ some x → decode x ≡ some s
unfolding encode decode
decode-encode s x h = ground arith

same_lookup :
    (w : World) (m : Map Bytes)
    → lookup (text "s") m ≡ lookup (text "s") w.files
    → SameFile p w (record w { files = m })
same_lookup w m h = record { same_exists = ground arith; same_read = ground arith }

lookup-insert_other :
    (k : Text) (x : Bytes) (m : Map Bytes)
    → (k == text "s") ≡ false
    → lookup (text "s") (insert k x m) ≡ lookup (text "s") m
lookup-insert_other k x m h = lookup-insert (text "s") k x m ∙ rw h

lookup-remove_other :
    (k : Text) (m : Map Bytes)
    → (k == text "s") ≡ false
    → lookup (text "s") (remove k m) ≡ lookup (text "s") m
lookup-remove_other k m h = lookup-remove (text "s") k m ∙ rw h

-- A move between other files, or of a missing file
moved_log :
    (w : World) (o : Option Bytes) → SameFile p w (move_file (text "e") (text "e.ndjson.1") w o).1
unfolding text_eq
moved_log w none = record { same_exists = refl; same_read = refl }
moved_log w (some x) =
    same_lookup w _ (lookup-insert_other _ x _ refl ∙ lookup-remove_other _ w.files refl)

failed_move :
    (w : World) (o : Option Bytes)
    → (move_file (text "s.tmp") (text "s") w o).0 ≢ ok tt
    → SameFile p w (move_file (text "s.tmp") (text "s") w o).1
failed_move w none h = record { same_exists = refl; same_read = refl }
failed_move w (some x) h = absurd (h refl)

written_lookup :
    (x : Bytes) (w : World) → lookup (text "s.tmp") (insert (text "s.tmp") x w.files) ≡ some x
unfolding text_eq
written_lookup x w = lookup-insert (text "s.tmp") (text "s.tmp") x w.files

stored_lookup : (x : Bytes) (m : Map Bytes) → lookup (text "s") (insert (text "s") x m) ≡ some x
unfolding text_eq
stored_lookup x m = lookup-insert (text "s") (text "s") x m

stored :
    (x : Bytes) (w : World) (o : Option Bytes)
    → o ≡ some x
    → (disk.exists (text "s") (move_file (text "s.tmp") (text "s") w o).1 ≡ true)
      × (disk.read (text "s") (move_file (text "s.tmp") (text "s") w o).1 ≡ ok x)
stored x w none h = cc
stored x w (some y) h = ground (arith, stored_lookup y (remove (text "s.tmp") w.files))

p-IsReliable : IsReliable p
unfolding text_eq
p-IsReliable = record {
  validate-same = λ b w. record { same_exists = refl; same_read = refl };
  get_version-same = λ b w. record { same_exists = refl; same_read = refl };
  get_value-same = λ b v w. record { same_exists = refl; same_read = refl };
  append-same = λ x w. same_lookup w _ (lookup-insert_other _ _ w.files refl);
  remove_log-same = λ w. same_lookup w _ (lookup-remove_other _ w.files refl);
  rename_log-same = λ w. moved_log w (lookup (text "e") w.files);
  create_tmp-same = λ x w. same_lookup w _ (lookup-insert_other _ x w.files refl);
  rename-failed = λ w h. failed_move w _ h;
  rename-exists = λ x w h k. stored x _ _ (written_lookup x w);
  decode-encode = decode-encode;
}

abbrev first : Engine World
first = record { state = fresh_state; world = start (text "v1") false }

first-IsSaved : IsSaved p first
unfolding load_state lookup
first-IsSaved = refl

-- The fake target writes no file.
p-Spares : Spares p binding
p-Spares x w = record { same_exists = refl; same_read = refl }

safe_run : safe_label (text "b1") ≡ true
unfolding safe_label is_label_byte is_alphanumeric nat_eq
safe_run = refl

sync-IsSaved_example : IsSaved p (sync p (text "b1") first).1
sync-IsSaved_example =
    sync-IsSaved p p-IsReliable (text "b1") first (safe_run, tt) (p-Spares, tt) first-IsSaved

invalidate_bindings-IsSaved_example : IsSaved p (invalidate_bindings p (text "b1" ∷ []) first).1
invalidate_bindings-IsSaved_example =
    invalidate_bindings-IsSaved p p-IsReliable (text "b1" ∷ []) first first-IsSaved

new_run : new_engine p (start (text "v1") false) ≡ ok first
unfolding new_engine load_state lookup
new_run = refl

abbrev later : Engine World → World
later e = record e.world { clock = 60 }

abbrev synced : Engine World
synced = called p (syncing (text "b1")) first

-- A run, a minute, and an acknowledgement
acknowledged :
    Reaches p first (called p (acknowledging (text "b1")) (record synced { world = later synced }))
acknowledged = next first _ (acknowledging (text "b1")) (
    wait first synced (later synced) (record { same_exists = refl; same_read = refl })
      (next first first (syncing (text "b1")) (here first)))

Reaches-IsSaved_example :
    IsSaved p (called p (acknowledging (text "b1")) (record synced { world = later synced }))
Reaches-IsSaved_example =
    Reaches-IsSaved p p-IsReliable (start (text "v1") false) first _ (safe_run, tt) (p-Spares, tt)
      new_run acknowledged

-- The pauses take no time here.
abbrev no_pause : ℕ → World → World
no_pause delay w = w

run_once-IsSaved_example :
    (o : SyncOutcome) × (e' : Engine World) × (run_once p no_pause (text "b1") 5 4 60 first
      ≡ some (o, e'))
    × IsSaved p e'
run_once-IsSaved_example =
    run_once-IsSaved p no_pause (text "b1") 5 p-IsReliable (safe_run, tt) (p-Spares, tt)
      (λ delay w. record { same_exists = refl; same_read = refl }) 60 first first-IsSaved

abbrev trigger : Bytes → Option Request
trigger line = some (trigger_request (text "t") (text "b1"))

handle-IsSaved_example :
    IsSaved p (handle p (λ line. none) (λ log. true) (text "t") trigger (text "{}") first).1
handle-IsSaved_example =
    handle-IsSaved p (λ line. none) (λ log. true) (text "t") trigger (text "{}") first p-IsReliable
      (safe_run, tt) (p-Spares, tt) first-IsSaved
