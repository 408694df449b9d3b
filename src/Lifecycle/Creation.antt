-- ===== src/Lifecycle/Creation.antt =====
-- createLocked and confirmLocked of internal/core/service.go, with EventInput.Validate.

use stattii.Base.{
  Option, Result, String, [], already_cancelled, err, if◌then◌else◌, message, none, not_found, ok,
  some, suc, ℕ, ◌++◌, ◌==◌, ◌||◌, ◌∷◌,
}
use stattii.Lifecycle.FanOut.{map_events, put_event}
use stattii.Model.{
  ActionKind, Event, EventInput, IfUnconfirmed, Via, confirmed, event, is_cancelled, is_scheduled,
  is_zero, scheduled,
}
use stattii.Service.{
  Service, a_via, audit_locked, fire_webhooks_locked, moment, new_id, of_event, text,
}

unfoldable pub validate_input : EventInput → Result (Unit {0})
validate_input i =
    if i.title == "" || is_zero i.starts_at
    then err (message "title and starts_at are required")
    else elim i.if_unconfirmed [
      | IfUnconfirmed.other _ ↦
          err (message "if_unconfirmed must be \"notify\" (default) or \"cancel\"")
      | _ ↦ ok tt
    ]

unfoldable pub new_event : EventInput → String → ℕ → Event
new_event i id now = record {
  id = id;
  title = i.title;
  location = i.location;
  note = i.note;
  starts_at = i.starts_at;
  ends_at = i.ends_at;
  status = scheduled;
  seq = 0;
  if_unconfirmed = i.if_unconfirmed;
  cancel_reason = "";
  created_at = now;
  cancelled_at = 0;
  reminder_sent_at = 0;
  deadline_fired_at = 0;
  unreachable_notified_at = 0;
  nudge_sent_at = 0;
  fan_out_at = 0;
  fan_out_count = 0;
  fan_out_txn_id = "";
  source_uid = i.source_uid;
  source_key = i.source_key;
  vanished_at = 0;
}

-- createLocked
unfoldable pub create_locked : EventInput → String → Service → Event × Service
unfolding new_event map_events new_id
create_locked i actor w =
    let (id, w1) = new_id "ev" w in
    let e = new_event i id w1.now in
    let w2 = map_events (λ es. es ++ e ∷ []) w1 in
    let w3 =
      audit_locked "event.created"
        (("event_id", text id)
          ∷ ("title", text i.title)
          ∷ ("starts_at", moment i.starts_at)
          ∷ ("actor", text actor)
          ∷ [])
        w2 in
    (e, fire_webhooks_locked "event.created" (of_event e) w3)

unfoldable pub action_word : ActionKind → String
action_word ActionKind.confirm = "confirm"
action_word ActionKind.cancel = "cancel"
action_word (ActionKind.other s) = s

-- `s.state.Responses = append(…)` and its audit line, for a decision that names a person.
unfoldable pub record_response : String → String → ActionKind → Via → Service → Service
unfolding action_word
record_response event_id person_id action via w =
    if person_id == ""
    then w
    else audit_locked "response"
        (("event_id", text event_id)
          ∷ ("person_id", text person_id)
          ∷ ("action", text (action_word action))
          ∷ ("via", a_via via)
          ∷ [])
        (record w {
          tables = record w.tables {
            responses =
                w.tables.responses
                ++ record {
                  at = w.now;
                  event_id = event_id;
                  person_id = person_id;
                  action = action;
                  via = via;
                }
                  ∷ [];
          };
        })

unfoldable pub confirm_scheduled : Event → String → Via → Service → Event × Service
unfolding put_event
confirm_scheduled e person_id via w =
    if is_scheduled e.status
    then (let e' = record e { status = confirmed; seq = suc e.seq } in
        let w1 =
          audit_locked "event.confirmed"
            (("event_id", text e.id) ∷ ("by", text person_id) ∷ ("via", a_via via) ∷ [])
            (put_event e' w) in
        (e', fire_webhooks_locked "event.confirmed" (of_event e') w1))
    else (e, w)

unfoldable pub confirm_found : String → Via → Option Event → Service → Result Event × Service
unfolding confirm_scheduled record_response
confirm_found person_id via none w = (err not_found, w)
confirm_found person_id via (some e) w =
    if is_cancelled e.status
    then (err already_cancelled, w)
    else (let (e', w') =
          confirm_scheduled e person_id via
            (record_response e.id person_id ActionKind.confirm via w) in
        (ok e', w'))

-- confirmLocked
unfoldable pub confirm_locked : String → String → Via → Service → Result Event × Service
unfolding confirm_found
confirm_locked event_id person_id via w = confirm_found person_id via (event w.tables event_id) w
