-- ===== src/Scheduler/Asks.antt =====
-- enqueueAskLocked, tickRemindersLocked and tickNudgesLocked of internal/core/outbox.go. A pass
-- visits the events by their ids, in the order of the table.

use stattii.Base.{
  Bool, List, Option, String, [], any_of, concat, false, if◌then◌else◌, length, ltb, map, none, not,
  select, some, true, ℕ, ◌&&◌, ◌+◌, ◌-◌, ◌==◌, ◌||◌, ◌∷◌,
}
use stattii.Lifecycle.{put_event}
use stattii.Links.{action_url, hour, links_locked}
use stattii.Model.{
  Event, OutboxItem, Person, Response, Tables, assignees, auto_cancels, event, is_scheduled,
  is_zero, reminder,
}
use stattii.Scheduler.Reach.{any_valid_channel, no_people, person_names, reachable_of}
use stattii.Service.{
  Config, Context, Fields, Service, audit_locked, enqueue_to_person_locked, fire_webhooks_locked,
  mail, notify_admin_locked, number, of_event, text, when,
}

-- confirmGrace
abbrev pub confirm_grace : ℕ
confirm_grace = hour

unfoldable pub ask_body : Event → String → String → Context → String
ask_body e c_tok x_tok c = concat (
    e.title
    ∷ "\n"
    ∷ when c e.starts_at
    ∷ (if e.location == "" then "" else concat ("\nLocation: " ∷ e.location ∷ []))
    ∷ (if is_zero e.vanished_at
        then ""
        else "\n\nNote: this entry has disappeared from the source calendar. If it is off, click NO.")
    ∷ "\n\nWill it take place?\nYES, confirm:  "
    ∷ c_tok
    ∷ "\nNO, cancel it: "
    ∷ x_tok
    ∷ "\n\nThese links are personal — please do not forward."
    ∷ [])

unfoldable pub ask_item : Event → String → String → String → Service → OutboxItem
unfolding ask_body
ask_item e subject c_tok x_tok w =
    let body = ask_body e (action_url w c_tok) (action_url w x_tok) w.ctx in
    record (mail reminder "" "" (concat (subject ∷ e.title ∷ [])) body) {
      event_id = e.id;
      buttons =
          record { label = "✅ Takes place"; payload = c_tok }
          ∷ record { label = "❌ Cancel event"; payload = x_tok }
          ∷ [];
    }

-- enqueueAskLocked
unfoldable pub enqueue_ask_locked : Event → Person → String → Service → Service
unfolding links_locked enqueue_to_person_locked ask_item
enqueue_ask_locked e p subject w =
    let ((c_tok, x_tok), w1) = links_locked e.id p.id w in
    (enqueue_to_person_locked p (ask_item e subject c_tok x_tok w1) w1).1

unfoldable pub ask_each : Event → String → List Person → Service → Service
unfolding enqueue_ask_locked
ask_each e subject [] w = w
ask_each e subject (p ∷ ps) w = ask_each e subject ps (enqueue_ask_locked e p subject w)

abbrev pub people_fields : Event → List Person → Service → Fields
people_fields e ps w =
    ("event_id", text e.id)
    ∷ ("people", text (person_names ps))
    ∷ ("count", number (length ps))
    ∷ []

-- The text's time is the start less the lead, which is not before the zero time.
unfoldable pub unreachable_body : Event → List Person → Service → String
unreachable_body e ps w = concat (
    e.title
    ∷ " on "
    ∷ when w.ctx e.starts_at
    ∷ " is assigned to "
    ∷ person_names ps
    ∷ " — but none of them has a channel, so the confirmation ask cannot go out.\n"
    ∷ "Add an email or Telegram chat id under /admin/people, or assign someone reachable."
    ∷ (if auto_cancels e.if_unconfirmed
        then concat (
            "\nThis event WILL auto-cancel at its deadline ("
            ∷ when w.ctx (e.starts_at - w.cfg.deadline_lead)
            ∷ ") unless it is confirmed before then."
            ∷ [])
        else "")
    ∷ [])

-- Staffed, but nobody can be reached: one early warning.
unfoldable pub warn_unreachable : ℕ → Event → List Person → Service → Bool × Service
unfolding put_event unreachable_body
warn_unreachable now e ps w =
    if not (no_people ps)
      && is_zero e.unreachable_notified_at
      && ltb (now + w.cfg.deadline_lead) e.starts_at
    then (let e1 = record e { unreachable_notified_at = now } in
        let w1 = audit_locked "staffing.unreachable" (people_fields e1 ps w) (put_event e1 w) in
        (
          true,
          notify_admin_locked (concat ("Nobody can be reached: " ∷ e1.title ∷ []))
              (unreachable_body e1 ps w1) w1,
        ))
    else (false, w)

unfoldable pub warn_broken : Event → List Person → Service → Service
warn_broken e ps w =
    if any_valid_channel w.env ps
    then w
    else (let w1 = audit_locked "staffing.channels_broken" (people_fields e ps w) w in
        notify_admin_locked (concat ("Asked over a broken channel: " ∷ e.title ∷ []))
          (concat (
            "The confirmation ask for "
            ∷ e.title
            ∷ " on "
            ∷ when w1.ctx e.starts_at
            ∷ " was sent to "
            ∷ person_names ps
            ∷ " — but none of their "
            ∷ "stored addresses passes its own format check, so it may have reached nobody.\n\n"
            ∷ "The ask WAS sent and a delivery failure will still escalate; nothing was removed "
            ∷ "and nobody counts as unreachable. Check the addresses under /admin/people."
            ∷ []))
          w1)

unfoldable pub send_reminder : ℕ → Event → List Person → Service → Service
unfolding ask_each put_event warn_broken
send_reminder now e ps w =
    let e1 = record e { reminder_sent_at = now } in
    let w1 = put_event e1 (ask_each e "Please confirm: " ps w) in
    let w2 = warn_broken e1 ps w1 in
    fire_webhooks_locked "reminder.sent" (of_event e1)
      (audit_locked "reminder.sent" (("event_id", text e.id) ∷ []) w2)

abbrev pub reminder_due : ℕ → Config → Event → Bool
reminder_due now cfg e =
    is_scheduled e.status
    && is_zero e.reminder_sent_at
    && not (ltb (now + cfg.reminder_lead) e.starts_at)
    && not (ltb e.starts_at now)

-- One event of the reminder pass.
unfoldable pub remind : ℕ → Event → Service → Bool × Service
unfolding warn_unreachable send_reminder
remind now e w =
    let ps = assignees w.tables e.id in
    if not (reminder_due now w.cfg e)
    then (false, w)
    else if no_people (reachable_of ps)
    then warn_unreachable now e ps w
    else (true, send_reminder now e ps w)

unfoldable pub visit_found :
    (Event → Service → Bool × Service) → Option Event → Service → Bool × Service
visit_found step none w = (false, w)
visit_found step (some e) w = step e w

-- The loop of a pass, and whether it changed anything.
unfoldable pub visit_each :
    (Event → Service → Bool × Service) → List String → Bool → Service → Bool × Service
unfolding visit_found
visit_each step [] changed w = (changed, w)
visit_each step (id ∷ ids) changed w =
    let (hit, w1) = visit_found step (event w.tables id) w in
    visit_each step ids (changed || hit) w1

abbrev pub event_ids : Service → List String
event_ids w = map (λ e. e.id) w.tables.events

-- tickRemindersLocked
unfoldable pub tick_reminders_locked : ℕ → Service → Bool × Service
unfolding remind visit_each
tick_reminders_locked now w = visit_each (remind now) (event_ids w) false w

-- answeredSinceLocked
abbrev pub answered_since : String → String → ℕ → List Response → Bool
answered_since event_id person_id since rs =
    any_of (λ r. r.event_id == event_id && r.person_id == person_id && not (ltb r.at since)) rs

abbrev pub nudge_due : ℕ → Config → Event → Bool
nudge_due now cfg e =
    is_scheduled e.status
    && not (is_zero e.reminder_sent_at)
    && is_zero e.nudge_sent_at
    && not (ltb (now + cfg.nudge_lead) e.starts_at)
    && ltb (e.reminder_sent_at + cfg.nudge_lead) e.starts_at
    && not (ltb now (e.reminder_sent_at + confirm_grace))
    && ltb (now + cfg.deadline_lead + confirm_grace) e.starts_at

abbrev pub silent_people : Event → Tables → List Person
silent_people e t =
    select (λ p. not (answered_since e.id p.id e.reminder_sent_at t.responses))
      (reachable_of (assignees t e.id))

-- One event of the nudge pass.
unfoldable pub nudge : ℕ → Event → Service → Bool × Service
unfolding ask_each put_event
nudge now e w =
    let silent = silent_people e w.tables in
    if not (nudge_due now w.cfg e) || no_people silent
    then (false, w)
    else (let e1 = record e { nudge_sent_at = now } in
        let w1 = put_event e1 (ask_each e "Reminder — please confirm: " silent w) in
        (true, audit_locked "reminder.nudged" (people_fields e silent w1) w1))

-- tickNudgesLocked
unfoldable pub tick_nudges_locked : ℕ → Service → Bool × Service
unfolding nudge visit_each
tick_nudges_locked now w =
    if is_zero w.cfg.nudge_lead then (false, w) else visit_each (nudge now) (event_ids w) false w
