-- ===== src/Lifecycle/Answers.antt =====
-- The operations over events acknowledge only what is durable, and refuse without an effect.

use stattii.Base.{
  Option, Result, String, already_cancelled, err, ltb, message, none, not, ok, refl, some, ℕ, ◌&&◌,
}
use stattii.Lifecycle.Changes.{cancel_found, cancel_locked}
use stattii.Lifecycle.Creation.{confirm_found, confirm_locked, create_locked, validate_input}
use stattii.Lifecycle.Moves.{move_found, move_locked, reinstate_live}
use stattii.Lifecycle.Operations.{
  cancel_event, confirm_event, create_checked, create_event, move_event, reinstate_event,
  reinstate_found, save_if_ok,
}
use stattii.Model.{Event, EventInput, Via, event, is_cancelled, is_zero, person}
use stattii.Service.{Service}
use stattii.Service.Health.Acknowledged.{Acknowledged, Acknowledged-if, Refuses, Refuses-if}
use stattii.Service.Health.Durability.{save-Durable}

confirm_found-Refuses :
    (person_id : String) (via : Via) (found : Option Event) (w : Service)
    → Refuses w (confirm_found person_id via found w)
unfolding confirm_found
confirm_found-Refuses person_id via none w = refl
confirm_found-Refuses person_id via (some e) w =
    Refuses-if (is_cancelled e.status) w (err already_cancelled, w) _ refl tt

cancel_found-Refuses :
    (person_id reason : String) (via : Via) (found : Option Event) (w : Service)
    → Refuses w (cancel_found person_id reason via found w)
unfolding cancel_found
cancel_found-Refuses person_id reason via none w = refl
cancel_found-Refuses person_id reason via (some e) w =
    Refuses-if (is_cancelled e.status) w (err already_cancelled, w) _ refl tt

move_found-Refuses :
    (start end : ℕ) (note actor : String) (found : Option Event) (w : Service)
    → Refuses w (move_found start end note actor found w)
unfolding move_found
move_found-Refuses start end note actor none w = refl
move_found-Refuses start end note actor (some e) w =
    Refuses-if (is_cancelled e.status) w (err already_cancelled, w) _ refl tt

pub confirm_locked-Refuses :
    (event_id person_id : String) (via : Via) (w : Service)
    → Refuses w (confirm_locked event_id person_id via w)
unfolding confirm_locked
confirm_locked-Refuses event_id person_id via w =
    confirm_found-Refuses person_id via (event w.tables event_id) w

pub cancel_locked-Refuses :
    (event_id person_id reason : String) (via : Via) (w : Service)
    → Refuses w (cancel_locked event_id person_id reason via w)
unfolding cancel_locked
cancel_locked-Refuses event_id person_id reason via w =
    cancel_found-Refuses person_id reason via (event w.tables event_id) w

pub move_locked-Refuses :
    (event_id : String) (start end : ℕ) (note actor : String) (w : Service)
    → Refuses w (move_locked event_id start end note actor w)
unfolding move_locked
move_locked-Refuses event_id start end note actor w =
    Refuses-if (is_zero start) w (err (message "starts_at is required for a move"), w) _ refl
      (Refuses-if (not (is_zero end) && ltb end start) w
        (err (message "ends_at is before starts_at"), w) _ refl
        (move_found-Refuses start end note actor (event w.tables event_id) w))

pub save_if_ok-Acknowledged {ℓ} :
    {A : Type ℓ} (w : Service) (r : Result A × Service)
    → Refuses w r
    → Acknowledged w (save_if_ok r)
unfolding save_if_ok
save_if_ok-Acknowledged w (ok a, v) h = save-Durable v
save_if_ok-Acknowledged w (err e, v) h = h

reinstate_found-Acknowledged :
    (actor : String) (found : Option Event) (w : Service)
    → Acknowledged w (reinstate_found actor found w)
unfolding reinstate_found
reinstate_found-Acknowledged actor none w = refl
reinstate_found-Acknowledged actor (some e) w =
    Acknowledged-if (is_cancelled e.status) w _ (err (message "event is not cancelled"), w)
      (save-Durable (reinstate_live e actor w).1) refl

-- A request to one of the five operations over events.
pub data EventCall : Type 0 where
  create : EventInput → EventCall
  confirm : String → String → Via → EventCall
  cancel : String → String → String → Via → EventCall
  move : String → ℕ → ℕ → String → String → EventCall
  reinstate : String → String → EventCall

abbrev pub answer : EventCall → Service → Result Event × Service
answer (EventCall.create i) w = create_event i w
answer (EventCall.confirm id person via) w = confirm_event id person via w
answer (EventCall.cancel id person reason via) w = cancel_event id person reason via w
answer (EventCall.move id start end note actor) w = move_event id start end note actor w
answer (EventCall.reinstate id actor) w = reinstate_event id actor w

create-Acknowledged :
    (checked : Result (Unit {0})) (i : EventInput) (w : Service)
    → Acknowledged w (create_checked checked i w)
unfolding create_checked
create-Acknowledged (ok _) i w = save-Durable (create_locked i "api" w).1
create-Acknowledged (err e) i w = refl

-- Whatever the call, the state and the store's answers.
pub answer-Acknowledged : (call : EventCall) (w : Service) → Acknowledged w (answer call w)
unfolding create_event confirm_event cancel_event move_event reinstate_event
answer-Acknowledged (EventCall.create i) w = create-Acknowledged (validate_input i) i w
answer-Acknowledged (EventCall.confirm id person via) w =
    save_if_ok-Acknowledged w _ (confirm_locked-Refuses id person via w)
answer-Acknowledged (EventCall.cancel id person reason via) w =
    save_if_ok-Acknowledged w _ (cancel_locked-Refuses id person reason via w)
answer-Acknowledged (EventCall.move id start end note actor) w =
    save_if_ok-Acknowledged w _ (move_locked-Refuses id start end note actor w)
answer-Acknowledged (EventCall.reinstate id actor) w =
    reinstate_found-Acknowledged actor (event w.tables id) w
