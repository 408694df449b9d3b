-- ===== src/Lifecycle/Operations.antt =====
-- The exported operations of internal/core/service.go over events: each takes the lock, runs its
-- locked half, and persists where that succeeded.

use stattii.Base.{Option, Result, String, err, if◌then◌else◌, message, none, not_found, ok, some, ℕ}
use stattii.Lifecycle.Changes.{cancel_locked}
use stattii.Lifecycle.Creation.{confirm_locked, create_locked, validate_input}
use stattii.Lifecycle.Moves.{move_locked, reinstate_live}
use stattii.Model.{Event, EventInput, Via, event, is_cancelled}
use stattii.Service.{Service, save_locked}

-- `if err == nil { s.saveLocked() }`
unfoldable pub save_if_ok {ℓ} : {A : Type ℓ} → Result A × Service → Result A × Service
save_if_ok (ok a, w) = (ok a, save_locked w)
save_if_ok (err e, w) = (err e, w)

unfoldable pub create_checked : Result (Unit {0}) → EventInput → Service → Result Event × Service
create_checked (err e) i w = (err e, w)
create_checked (ok _) i w = (let (e, w') = create_locked i "api" w in (ok e, save_locked w'))

-- CreateEvent
unfoldable pub create_event : EventInput → Service → Result Event × Service
unfolding create_checked
create_event i w = create_checked (validate_input i) i w

-- ConfirmEvent
unfoldable pub confirm_event : String → String → Via → Service → Result Event × Service
unfolding save_if_ok
confirm_event event_id person_id via w = save_if_ok (confirm_locked event_id person_id via w)

-- CancelEvent
unfoldable pub cancel_event : String → String → String → Via → Service → Result Event × Service
unfolding save_if_ok
cancel_event event_id person_id reason via w =
    save_if_ok (cancel_locked event_id person_id reason via w)

-- MoveEvent
unfoldable pub move_event : String → ℕ → ℕ → String → String → Service → Result Event × Service
unfolding save_if_ok
move_event event_id start end note actor w =
    save_if_ok (move_locked event_id start end note actor w)

unfoldable pub reinstate_found : String → Option Event → Service → Result Event × Service
unfolding reinstate_live
reinstate_found actor none w = (err not_found, w)
reinstate_found actor (some e) w =
    if is_cancelled e.status
    then (let (e', w') = reinstate_live e actor w in (ok e', save_locked w'))
    else (err (message "event is not cancelled"), w)

-- ReinstateEvent
unfoldable pub reinstate_event : String → String → Service → Result Event × Service
unfolding reinstate_found
reinstate_event event_id actor w = reinstate_found actor (event w.tables event_id) w
