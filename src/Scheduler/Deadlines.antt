-- ===== src/Scheduler/Deadlines.antt =====
-- tickDeadlinesLocked of internal/core/outbox.go: the deadline pass and its dead-man-switch.

use stattii.Base.{
  Bool, List, Result, String, [], concat, err, false, if◌then◌else◌, ltb, not, ok, true, ℕ, ◌&&◌,
  ◌+◌, ◌∷◌,
}
use stattii.Lifecycle.{cancel_locked, nobody_told_body_locked, put_event}
use stattii.Model.{Event, Person, Via, assignees, auto_cancels, cancellation, is_scheduled, is_zero}
use stattii.Scheduler.Asks.{confirm_grace, event_ids, visit_each}
use stattii.Scheduler.Reach.{no_people, person_names, reachable_of}
use stattii.Service.{
  Service, audit_locked, fire_webhooks_locked, notify_admin_locked, of_event, text, when,
}

abbrev pub deadline_due : ℕ → Event → Service → Bool
deadline_due now e w =
    is_scheduled e.status
    && is_zero e.deadline_fired_at
    && not (is_zero e.reminder_sent_at && not (no_people (reachable_of (assignees w.tables e.id))))
    && not (not (is_zero e.reminder_sent_at) && ltb now (e.reminder_sent_at + confirm_grace))
    && not (ltb (now + w.cfg.deadline_lead) e.starts_at)
    && not (ltb e.starts_at now)

-- Why nobody answered.
unfoldable pub staffing_note : Event → List Person → String
staffing_note e ps =
    if no_people ps
    then " Nobody was assigned, so nobody could be asked."
    else if is_zero e.reminder_sent_at
    then concat (
        " Responsible: "
        ∷ person_names ps
        ∷ " — but none of them has a channel, so the ask never went out."
        ∷ [])
    else ""

unfoldable pub switch_body : Event → String → Service → String
unfolding nobody_told_body_locked
switch_body e staffing w = concat (
    e.title
    ∷ " on "
    ∷ when w.ctx e.starts_at
    ∷ " was unconfirmed by its deadline and has been auto-cancelled (dead-man-switch)."
    ∷ staffing
    ∷ " Reinstate if wrong."
    ∷ (if is_zero e.fan_out_count
        then concat (
            "\n\nThe cancellation itself reached NOBODY — "
            ∷ nobody_told_body_locked e cancellation w
            ∷ [])
        else "")
    ∷ [])

-- What follows the switch's cancellation; its error is only logged.
unfoldable pub switched : String → Result Event × Service → Service
unfolding switch_body
switched staffing (err x, w) = w
switched staffing (ok e, w) =
    notify_admin_locked (concat ("Auto-cancelled: " ∷ e.title ∷ [])) (switch_body e staffing w) w

unfoldable pub no_response : Event → String → Service → Service
no_response e staffing w =
    notify_admin_locked (concat ("No response: " ∷ e.title ∷ []))
      (concat (
        e.title
        ∷ " on "
        ∷ when w.ctx e.starts_at
        ∷ " is still unconfirmed and the response deadline has passed."
        ∷ staffing
        ∷ []))
      w

unfoldable pub fire_deadline : ℕ → Event → Service → Service
unfolding put_event staffing_note switched no_response cancel_locked
fire_deadline now e w =
    let staffing = staffing_note e (assignees w.tables e.id) in
    let e1 = record e { deadline_fired_at = now } in
    let w1 =
      fire_webhooks_locked "deadline.passed" (of_event e1)
        (audit_locked "deadline.passed" (("event_id", text e.id) ∷ []) (put_event e1 w)) in
    if auto_cancels e.if_unconfirmed
    then switched staffing (cancel_locked e.id "" "Not confirmed in time." Via.deadline w1)
    else no_response e1 staffing w1

-- One event of the deadline pass.
unfoldable pub meet_deadline : ℕ → Event → Service → Bool × Service
unfolding fire_deadline
meet_deadline now e w = if deadline_due now e w then (true, fire_deadline now e w) else (false, w)

-- tickDeadlinesLocked
unfoldable pub tick_deadlines_locked : ℕ → Service → Bool × Service
unfolding meet_deadline visit_each
tick_deadlines_locked now w = visit_each (meet_deadline now) (event_ids w) false w
