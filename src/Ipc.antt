-- ===== src/Ipc.antt =====
-- The request handler of src/ipc.rs.
pub mod Laws
pub mod Saved
use tarvaultsync.Prelude.{
  ℕ, zero, suc, Option, none, some, Bool, true, false, not, ◌&&◌, List, [], ◌∷◌, ◌++◌, ◌==◌, nat_eq,
  ltb, if◌then◌else◌, length,
}
use mathlib.Core.List.{reverse}
use tarvaultsync.Prelude.Text.{Text, text_eq}
use tarvaultsync.Prelude.Map.{Map, keys}
use tarvaultsync.Prelude.Result.{Result, ok, err}
use tarvaultsync.Core.{
  Bytes, Event, SyncOutcome, RedactedStatus, restart_required, outcome_eq, DeviceState,
}
use tarvaultsync.Core.Os.{not_found, other}
use tarvaultsync.Core.Engine.{Parts, Engine, sync, enable_binding, acknowledge_restart, status_of}

-- Each request carries a token; the last three carry the id of a binding too.
pub data Request : Type 0 where
  status_request events_request : Text → Request
  trigger_request acknowledge_request enable_request : Text → Text → Request

pub data Response : Type 0 where
  -- applied, restart_required, disabled
  status_response : List Text → List Text → List Text → Response
  events_response : List Event → Response
  trigger_response : SyncOutcome → Response
  acknowledged failed_response unauthorized_response invalid_response : Response

-- `str::lines`: parts that end at a line feed, which goes with a carriage return before it; no part
-- follows the last line feed.
abbrev pub drop_return : Bytes → Bytes
drop_return [] = []
drop_return (c ∷ []) = if c == b'\r' then [] else c ∷ []
drop_return (c ∷ d ∷ s) = c ∷ drop_return (d ∷ s)

unfoldable pub lines_from : Bytes → Bytes → List Bytes
unfolding nat_eq
lines_from [] [] = []
lines_from (c ∷ line) [] = reverse (c ∷ line) ∷ []
lines_from line (c ∷ s) =
    let ended = lines_from [] s in
    let more = lines_from (c ∷ line) s in
    if c == b'\n' then drop_return (reverse line) ∷ ended else more

unfoldable pub lines : Bytes → List Bytes
unfolding lines_from
lines s = lines_from [] s

unfoldable pub take {ℓ} : {A : Type ℓ} → ℕ → List A → List A
take zero xs = []
take (suc n) [] = []
take (suc n) (x ∷ xs) = x ∷ take n xs

-- `collect::<Result<Vec<_>, _>>`
unfoldable pub collect : (Bytes → Option Event) → List Bytes → Option (List Event)
collect decode [] = some []
collect decode (l ∷ ls) = elim (decode l) [
  | none ↦ none
  | some x ↦ elim (collect decode ls) [ none ↦ none | some xs ↦ some (x ∷ xs) ]
]

-- The text of the log, or `none` for one that does not parse
unfoldable pub recent_events : (Bytes → Option Event) → Bytes → Option (List Event)
recent_events decode log = elim (collect decode (take 100 (reverse (lines log)))) [
  | none ↦ none
  | some xs ↦ some (reverse xs)
]

-- The ids whose last outcome says that a restart is due
unfoldable pub restart_ids : Map RedactedStatus → List Text
unfolding outcome_eq
restart_ids [] = []
restart_ids ((id, r) ∷ m) =
    let rest = restart_ids m in if r.outcome == restart_required then id ∷ rest else rest

module _ {W : Type 0} (p : Parts W) (decode : Bytes → Option Event) (is_utf8 : Bytes → Bool) where
  unfoldable pub events_answer : W → Response
  events_answer w = elim (p.os.read p.events_path w) [
    | err not_found ↦ events_response []
    | err other ↦ failed_response
    | ok log ↦ if not (is_utf8 log) then failed_response else elim (recent_events decode log) [
      | none ↦ failed_response
      | some events ↦ events_response events
    ]
  ]

  unfoldable pub status_answer : DeviceState → Response
  status_answer s = status_response (keys s.applied) (restart_ids s.status) (keys s.disabled)

  abbrev pub acknowledged_if : {A E : Type 0} → Result E A → Response
  acknowledged_if (ok _) = acknowledged
  acknowledged_if (err _) = failed_response

  -- The `match` on the parsed line, with the guard of each arm
  unfoldable pub respond : Text → Option Request → Engine W → Response × Engine W
  respond token none e = (invalid_response, e)
  respond token (some (status_request t)) e =
      if t == token then (status_answer (status_of p e), e) else (unauthorized_response, e)
  respond token (some (events_request t)) e =
      if t == token then (events_answer e.world, e) else (unauthorized_response, e)
  respond token (some (trigger_request t id)) e =
      let (o, e') = sync p id e in
      if t == token then (trigger_response o, e') else (unauthorized_response, e)
  respond token (some (acknowledge_request t id)) e =
      let (r, e') = acknowledge_restart p id e in
      if t == token then (acknowledged_if r, e') else (unauthorized_response, e)
  respond token (some (enable_request t id)) e =
      let (r, e') = enable_binding p id e in
      if t == token then (acknowledged_if r, e') else (unauthorized_response, e)

  -- `parse` is `serde_json::from_slice::<Request>`. The line is what was read, at most 4097 bytes;
  -- `none` closes the connection with no response.
  unfoldable pub handle :
      Text → (Bytes → Option Request) → Bytes → Engine W → Option Response × Engine W
  handle token parse line e =
      if ltb 4096 (length line)
      then (none, e)
      else let (r, e') = respond token (parse line) e in (some r, e')
