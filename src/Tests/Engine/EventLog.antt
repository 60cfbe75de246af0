-- ===== src/Tests/Engine/EventLog.antt =====
-- The event log at concrete runs.
use tarvaultsync.Prelude.{
  ℕ, zero, suc, ◌≡◌, refl, ◌≤◌, ◌+◌, Option, none, some, true, false, [], ◌∷◌, ◌++◌, arith, length,
  length-append, ap,
}
use tarvaultsync.Prelude.Text.{text, text_eq}
use tarvaultsync.Prelude.Map.{lookup, remove, lookup-insert, lookup-remove}
use tarvaultsync.Prelude.Result.{ok}
use tarvaultsync.Core.{Bytes, Event, sync_operation, fake, unchanged}
use tarvaultsync.Core.Engine.{append_event, rotate, remove_old_log, log_is_full, event_log_limit}
use tarvaultsync.Core.Engine.Saved.{old_log}
use tarvaultsync.Core.Engine.EventLog.{
  IsLogging, len_or_zero, append_event-le-limit, append_event-rotates,
}
use tarvaultsync.Tests.World.{World, start, content, move_file}
use tarvaultsync.Tests.Engine.{p}

spaces : ℕ → Bytes
spaces zero = []
spaces (suc n) = b' ' ∷ spaces n

length-spaces : (n : ℕ) → length (spaces n) ≡ n
unfolding spaces
length-spaces zero = refl
length-spaces (suc n) = ap suc (length-spaces n)

-- A log of 1 MiB
full : World
full = record (start (text "v1") false) { files = (text "e", spaces event_log_limit) ∷ [] }

event : Event
event = record {
  timestamp = 1;
  binding_id = text "b1";
  operation = sync_operation;
  source_kind = fake;
  outcome = unchanged;
}

appended_len :
    (o : Option Bytes) (x : Bytes)
    → length (content o ++ x)
      ≡ len_or_zero (elim o [ none ↦ none | some y ↦ some (length y) ]) + length x
appended_len none x = omega arith
appended_len (some y) x = length-append y x

append-len :
    (x : Bytes) (w : World)
    → p.os.metadata_len (text "e") (p.os.append (text "e") x w).1
      ≡ some (len_or_zero (p.os.metadata_len (text "e") w) + length x)
unfolding text_eq
append-len x w = ground (
  arith,
  lookup-insert (text "e") (text "e") (content (lookup (text "e") w.files) ++ x) w.files,
  appended_len (lookup (text "e") w.files) x,
)

move-gone :
    (w : World) (o : Option Bytes)
    → (move_file (text "e") (text "e.ndjson.1") w o).0 ≡ ok tt
    → (p.os.metadata_len (text "e") (move_file (text "e") (text "e.ndjson.1") w o).1 ≡ none)
unfolding text_eq
move-gone w none h = cc
move-gone w (some x) h = ground (
  arith,
  lookup-insert (text "e") (text "e.ndjson.1") x (remove (text "e") w.files),
  lookup-remove (text "e") (text "e") w.files,
)

move-moved :
    (w : World) (o : Option Bytes)
    → lookup (text "e") w.files ≡ o
    → (move_file (text "e") (text "e.ndjson.1") w o).0 ≡ ok tt
    → p.os.read (text "e.ndjson.1") (move_file (text "e") (text "e.ndjson.1") w o).1
      ≡ p.os.read (text "e") w
unfolding text_eq
move-moved w none q h = cc
move-moved w (some x) q h =
    ground
      (arith, lookup-insert (text "e.ndjson.1") (text "e.ndjson.1") x (remove (text "e") w.files))

p-IsLogging : IsLogging p
unfolding text_eq
p-IsLogging = record {
  append-len = λ x w h. append-len x w;
  append-old_log = λ x w. ground (
    arith,
    lookup-insert (text "e.ndjson.1") (text "e") (content (lookup (text "e") w.files) ++ x) w.files,
  );
  remove-log = λ w. ground (arith, lookup-remove (text "e") (text "e.ndjson.1") w.files);
  rename-gone = λ w h. move-gone w _ h;
  rename-moved = λ w h. move-moved w _ refl h;
}

log_full : log_is_full p (b'{' ∷ b'}' ∷ []) full ≡ true
unfolding log_is_full full lookup text_eq
log_full = rw length-spaces

log_moves : (rotate p (b'{' ∷ b'}' ∷ []) full).0 ≡ ok tt
unfolding rotate full lookup text_eq remove_old_log
log_moves = rw log_full refl

appended : (append_event p event full).0 ≡ ok tt
unfolding append_event
appended = ground (arith, log_moves)

append_event-le-limit_example :
    (n : ℕ) × (p.os.metadata_len (text "e") (append_event p event full).1 ≡ some n)
    × (n ≤ event_log_limit)
append_event-le-limit_example =
    append_event-le-limit p p-IsLogging event (b'{' ∷ b'}' ∷ []) full refl (omega arith) appended

append_event-rotates_example :
    p.os.read (old_log p) (append_event p event full).1 ≡ ok (spaces event_log_limit)
unfolding lookup full text_eq
append_event-rotates_example =
    append_event-rotates p p-IsLogging event (b'{' ∷ b'}' ∷ []) full refl log_full appended
