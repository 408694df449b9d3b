-- ===== src/Lifecycle/Moves.antt =====
-- moveLocked and the locked half of ReinstateEvent, of internal/core/service.go.

use stattii.Base.{
  Option, Result, String, [], already_cancelled, concat, err, if◌then◌else◌, ltb, message, none,
  not, not_found, ok, some, suc, true, ℕ, ◌&&◌, ◌==◌, ◌∷◌,
}
use stattii.Lifecycle.FanOut.{fan_out_locked, nobody_told_locked, put_event}
use stattii.Model.{Event, event, is_cancelled, is_zero, moved, reinstated, scheduled}
use stattii.Service.{
  Context, Service, audit_locked, fire_webhooks_locked, moment, of_event, text, when,
}

unfoldable pub moved_row : Event → ℕ → ℕ → String → Event
moved_row e start end note = record e {
  starts_at = start;
  ends_at = end;
  seq = suc e.seq;
  status = scheduled;
  reminder_sent_at = 0;
  nudge_sent_at = 0;
  deadline_fired_at = 0;
  unreachable_notified_at = 0;
  note = if note == "" then e.note else note;
}

unfoldable pub move_body : Event → ℕ → ℕ → ℕ → Context → String
move_body e old start end c = concat (
    e.title
    ∷ " has been MOVED.\nOld: "
    ∷ when c old
    ∷ "\nNew: "
    ∷ when c start
    ∷ (if is_zero end then "" else concat (" until " ∷ c.env.format_time "15:04" end ∷ []))
    ∷ [])

-- The row and the audit line of a move.
unfoldable pub move_flip : Event → ℕ → ℕ → String → String → Service → Service
unfolding moved_row put_event
move_flip e start end note actor w =
    audit_locked "event.moved"
      (("event_id", text e.id)
        ∷ ("from", moment e.starts_at)
        ∷ ("to", moment start)
        ∷ ("actor", text actor)
        ∷ [])
      (put_event (moved_row e start end note) w)

unfoldable pub move_live : Event → ℕ → ℕ → String → String → Service → Event × Service
unfolding move_flip move_body
move_live e start end note actor w =
    let e1 = moved_row e start end note in
    let w1 = move_flip e start end note actor w in
    let (n, e2, w2) =
      fan_out_locked e1 moved (concat ("MOVED: " ∷ e1.title ∷ []))
        (move_body e1 e.starts_at start end w1.ctx) w1 in
    let w3 = fire_webhooks_locked "event.moved" (of_event e2) w2 in
    (e2, nobody_told_locked e2 moved n (not (actor == "import")) w3)

unfoldable pub move_found :
    ℕ → ℕ → String → String → Option Event → Service → Result Event × Service
unfolding move_live
move_found start end note actor none w = (err not_found, w)
move_found start end note actor (some e) w =
    if is_cancelled e.status
    then (err already_cancelled, w)
    else (let (e', w') = move_live e start end note actor w in (ok e', w'))

-- moveLocked
unfoldable pub move_locked : String → ℕ → ℕ → String → String → Service → Result Event × Service
unfolding move_found
move_locked event_id start end note actor w =
    if is_zero start
    then (err (message "starts_at is required for a move"), w)
    else if not (is_zero end) && ltb end start
    then (err (message "ends_at is before starts_at"), w)
    else move_found start end note actor (event w.tables event_id) w

unfoldable pub reinstated_row : Event → Event
reinstated_row e = record e {
  status = scheduled;
  cancel_reason = "";
  cancelled_at = 0;
  seq = suc e.seq;
  reminder_sent_at = 0;
  nudge_sent_at = 0;
  deadline_fired_at = 0;
  unreachable_notified_at = 0;
}

unfoldable pub reinstate_body : Event → Context → String
reinstate_body e c = concat (
    e.title
    ∷ " on "
    ∷ when c e.starts_at
    ∷ " takes place after all — the cancellation is withdrawn."
    ∷ [])

-- The row and the audit line of a reinstatement.
unfoldable pub reinstate_flip : Event → String → Service → Service
unfolding reinstated_row put_event
reinstate_flip e actor w =
    audit_locked "event.reinstated" (("event_id", text e.id) ∷ ("actor", text actor) ∷ [])
      (put_event (reinstated_row e) w)

unfoldable pub reinstate_live : Event → String → Service → Event × Service
unfolding reinstate_flip reinstate_body
reinstate_live e actor w =
    let e1 = reinstated_row e in
    let w1 = reinstate_flip e actor w in
    let (n, e2, w2) =
      fan_out_locked e1 reinstated (concat ("REINSTATED: " ∷ e1.title ∷ []))
        (reinstate_body e1 w1.ctx) w1 in
    let w3 = fire_webhooks_locked "event.reinstated" (of_event e2) w2 in
    (e2, nobody_told_locked e2 reinstated n true w3)
