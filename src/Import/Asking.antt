-- ===== src/Import/Asking.antt =====
-- askVanishedLocked of internal/core/import.go, and the page about what vanished.

use stattii.Base.{
  List, String, [], concat, eqb, if◌then◌else◌, join, length, map, ℕ, ◌+◌, ◌-◌, ◌==◌, ◌∷◌,
}
use stattii.Links.{action_url, links_locked}
use stattii.Model.{Event, OutboxItem, Person, assignees, auto_cancels, vanished}
use stattii.Scheduler.{no_people, person_names, reachable_of}
use stattii.Service.{
  Env, Service, audit_locked, enqueue_to_person_locked, mail, notify_admin_locked, number, text,
  when,
}

unfoldable pub vanished_header : Event → Service → String
vanished_header e w = concat (
    e.title
    ∷ "\n"
    ∷ when w.ctx e.starts_at
    ∷ (if e.location == "" then "" else concat ("\nLocation: " ∷ e.location ∷ []))
    ∷ "\n\nThis entry has disappeared from the source calendar. "
    ∷ "stattii has NOT cancelled it — a feed glitch must never send cancellation mail, so this is your decision."
    ∷ (if auto_cancels e.if_unconfirmed
        then concat (
            "\nIf nobody answers, it WILL auto-cancel at its deadline ("
            ∷ when w.ctx (e.starts_at - w.cfg.deadline_lead)
            ∷ ")."
            ∷ [])
        else "")
    ∷ [])

unfoldable pub vanished_ask : Event → String → String → String → Service → OutboxItem
vanished_ask e header c_tok x_tok w =
    record (mail vanished "" "" (concat ("Disappeared from the calendar: " ∷ e.title ∷ [])) (
      concat (
        header
        ∷ "\n\nDoes it still take place?\nYES, keep it:  "
        ∷ action_url w c_tok
        ∷ "\nNO, cancel it: "
        ∷ action_url w x_tok
        ∷ "\n\nThese links are personal — please do not forward."
        ∷ []))) {
          event_id = e.id;
          buttons =
              record { label = "✅ Takes place"; payload = c_tok }
              ∷ record { label = "❌ Cancel event"; payload = x_tok }
              ∷ [];
        }

unfoldable pub ask_vanished_people : Event → String → List Person → Service → Service
unfolding vanished_ask links_locked enqueue_to_person_locked
ask_vanished_people e header [] w = w
ask_vanished_people e header (p ∷ ps) w =
    let ((c_tok, x_tok), w1) = links_locked e.id p.id w in
    ask_vanished_people e header ps
      (enqueue_to_person_locked p (vanished_ask e header c_tok x_tok w1) w1).1

-- One event that vanished, and how many people were asked about it.
unfoldable pub ask_vanished_event : Event → Service → ℕ × Service
unfolding ask_vanished_people vanished_header
ask_vanished_event e w =
    let ps = reachable_of (assignees w.tables e.id) in
    if no_people ps
    then (0, w)
    else (let w1 = ask_vanished_people e (vanished_header e w) ps w in
        (
          length ps,
          audit_locked "vanished.asked"
              (("event_id", text e.id)
                ∷ ("title", text e.title)
                ∷ ("people", text (person_names ps))
                ∷ ("count", number (length ps))
                ∷ [])
              w1,
        ))

unfoldable pub ask_vanished_each : List Event → ℕ → Service → ℕ × Service
unfolding ask_vanished_event
ask_vanished_each [] asked w = (asked, w)
ask_vanished_each (e ∷ rest) asked w =
    let (n, w1) = ask_vanished_event e w in ask_vanished_each rest (asked + n) w1

-- askVanishedLocked
unfoldable pub ask_vanished_locked : List Event → Service → ℕ × Service
unfolding ask_vanished_each
ask_vanished_locked gone_events w = ask_vanished_each gone_events 0 w

unfoldable pub gone_line : Service → Event → String
gone_line w e = concat (
    "- "
    ∷ e.title
    ∷ " ("
    ∷ when w.ctx e.starts_at
    ∷ ")"
    ∷ (if auto_cancels e.if_unconfirmed
        then " — WILL auto-cancel at its deadline unless you act"
        else "")
    ∷ [])

unfoldable pub who_was_asked : Env → ℕ → String
who_was_asked env asked =
    if eqb asked 0
    then "NOBODY was asked — none of these events has a responsible with a usable channel. This one is yours to chase by hand."
    else concat (
        env.format_number asked
        ∷ " responsible person(s) have been asked directly, once, with their own confirm/cancel links."
        ∷ [])

unfoldable pub page_gone : List Event → Service → Service
unfolding ask_vanished_locked gone_line who_was_asked
page_gone [] w = w
page_gone (g ∷ gs) w =
    let lines = map (gone_line w) (g ∷ gs) in
    let (asked, w1) = ask_vanished_locked (g ∷ gs) w in
    notify_admin_locked
      (concat
        ("Gone from the calendar: " ∷ w1.env.format_number (length (g ∷ gs)) ∷ " event(s)" ∷ []))
      (concat (
        "These events are no longer in the source calendar. stattii has NOT cancelled them — a feed glitch must never send cancellation mail.\n"
        ∷ join "\n" lines
        ∷ "\n\n"
        ∷ who_was_asked w1.env asked
        ∷ "\nIf they are really off, cancel them in the panel (that sends the notices). If the feed is wrong, fix the feed — they clear on the next fetch. "
        ∷ "Until then their reminders go out as usual, with a note that the entry disappeared."
        ∷ []))
      w1
