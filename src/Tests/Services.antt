-- ===== src/Tests/Services.antt =====
-- The registry, the scheduler and the request handler at concrete inputs.
use tarvaultsync.Prelude.{
  ℕ, ◌+◌, ◌*◌, ◌^◌, ◌%◌, ◌≡◌, ◌≤◌, min, ◌⊎◌, Option, none, some, true, false, [], ◌∷◌, ◌==◌,
  if◌then◌else◌, ltb, length, not, ◌≢◌, arith,
}
use tarvaultsync.Prelude.Text.{text, text_eq}
use tarvaultsync.Prelude.Map.{lookup, has_key}
use tarvaultsync.Prelude.Result.{ok, err}
use tarvaultsync.Azure.{is_some}
use tarvaultsync.Core.{Bytes, Event, invalid_config}
use tarvaultsync.Core.Engine.{Engine}
use tarvaultsync.Core.Registry.{
  ModuleRegistry, fake_store_screen, fake_target_screen, register, register_lem,
}
use tarvaultsync.Scheduler.{retry_delay, interval_delay, is_retryable, run_once}
use tarvaultsync.Scheduler.Laws.{
  after_sleep, run_at, AllRetried, retry_delay_lem, retry_delay_bounds, run_once_lem,
}
use tarvaultsync.Ipc.{
  Request, status_request, unauthorized_response, invalid_response, handle, lines, collect,
  recent_events,
}
use tarvaultsync.Ipc.Laws.{last, token_of, handle-unauthorized, recent_events-eq-collect}
use tarvaultsync.Tests.World.{World}
use tarvaultsync.Tests.Engine.{p, begin}

abbrev first : Engine World
first = begin (text "v1") false

abbrev one_screen : ModuleRegistry
one_screen = (text "fake_store", fake_store_screen) ∷ []

register_lem_example :
    let (result, r') = register fake_target_screen one_screen in
    ((has_key (text "fake_target") one_screen ≡ true)
      × (result ≡ err invalid_config)
      × (r' ≡ one_screen))
    ⊎ ((has_key (text "fake_target") one_screen ≡ false)
        × (result ≡ ok tt)
        × (lookup (text "fake_store") r' ≡ (
            if text "fake_target" == text "fake_store"
            then some fake_target_screen
            else lookup (text "fake_store") one_screen)))
register_lem_example = register_lem fake_target_screen one_screen (text "fake_store")

retry_delay_lem_example : retry_delay 3 777 ≡ 1000 * 2 ^ min 3 8 + 777 % 501
retry_delay_lem_example = retry_delay_lem 3 777

retry_delay_bounds_example : (1000 ≤ retry_delay 9 500) × (retry_delay 9 500 ≤ 256500)
retry_delay_bounds_example = retry_delay_bounds 9 500

-- The pauses take no time here.
abbrev no_pause : ℕ → World → World
no_pause delay w = w

run_once_lem_example :
    let start = after_sleep p no_pause (text "b1") 5 (interval_delay 60 5 * 1000) first in
    (n : ℕ) × (run_once p no_pause (text "b1") 5 4 60 first
      ≡ some (run_at p no_pause (text "b1") 5 n start))
    × (n ≤ 3)
    × AllRetried p no_pause (text "b1") 5 n start
    × (is_retryable (run_at p no_pause (text "b1") 5 n start).0 ≡ true → n ≡ 3)
run_once_lem_example = run_once_lem p no_pause (text "b1") 5 60 first

abbrev one_event : Bytes → Option Event
one_event line = none

wrong_right : text "wrong" ≢ text "right"
wrong_right h = ground arith

wrong_token :
    (r : Request) → some (status_request (text "wrong")) ≡ some r → token_of r ≢ text "right"
unfolding token_of
wrong_token r h k = ground (arith, wrong_right)

handle-unauthorized_example :
    handle p one_event
      (λ log. true)
      (text "right")
      (λ line. some (status_request (text "wrong")))
      (text "{}")
      first
    ≡ (
      if ltb 4096 (length (text "{}"))
          then none
          else some (
              if not (is_some (some (status_request (text "wrong"))))
              then invalid_response
              else unauthorized_response),
      first,
    )
handle-unauthorized_example =
    handle-unauthorized p one_event (λ log. true) (text "right")
      (λ line. some (status_request (text "wrong"))) (text "{}") first wrong_token

recent_events-eq-collect_example :
    recent_events one_event (text "{}") ≡ collect one_event (last 100 (lines (text "{}")))
recent_events-eq-collect_example = recent_events-eq-collect one_event (text "{}")
