-- ===== src/Deletion/Defs.antt =====
-- DeleteEvent and DeletePerson of internal/core/delete.go. `dropWhere` is `reject`, and its count
-- `count_where`; the key order of an audit line's map is not the program's to choose.

use stattii.Base.{
  Bool, List, Option, Result, String, [], concat, count_where, err, false, if◌then◌else◌, join, ltb,
  message, none, not, not_found, ok, reject, some, true, ℕ, ◌&&◌, ◌==◌, ◌||◌, ◌∷◌,
}
use stattii.Deliveries.{event_end, in_last_fan_out}
use stattii.Model.{
  Assignment, Event, OutboxItem, Person, Tables, event, has_id, is_cancelled, is_person, is_zero,
  person,
}
use stattii.Service.{
  Config, Fields, OutboxState, Service, a_status, audit_locked, fire_webhooks_locked, number,
  of_event, of_fields, outbox_state, save_locked, text,
}

-- fanOutInFlightLocked: the rows of the last transaction that are queued or retrying.
unfoldable pub is_moving : OutboxState → Bool
is_moving OutboxState.queued = true
is_moving OutboxState.retrying = true
is_moving OutboxState.delivered = false
is_moving OutboxState.failed = false

abbrev pub in_flight : Config → Event → OutboxItem → Bool
in_flight cfg e o = in_last_fan_out e o && is_moving (outbox_state cfg o)

abbrev pub fan_out_in_flight_locked : Event → Service → ℕ
fan_out_in_flight_locked e w = count_where (in_flight w.cfg e) w.outbox

-- The rows of each table that go with an event.
abbrev pub purge_event : String → Tables → Tables
purge_event id t = record t {
  events = reject (has_id id) t.events;
  assignments = reject (λ a. a.event_id == id) t.assignments;
  links = reject (λ l. l.event_id == id) t.links;
  responses = reject (λ r. r.event_id == id) t.responses;
  proposals = reject (λ p. p.event_id == id) t.proposals;
  guests = reject (λ g. g.event_id == id) t.guests;
  invites = reject (λ i. i.event_id == id) t.invites;
}

abbrev pub set_tables : Tables → Service → Service
set_tables t w = record w { tables = t }

abbrev pub dropped_with_event : String → Event → Tables → Fields
dropped_with_event id e t =
    ("event_id", text id)
    ∷ ("title", text e.title)
    ∷ ("status", a_status e.status)
    ∷ ("assignments", number (count_where (λ a. a.event_id == id) t.assignments))
    ∷ ("links", number (count_where (λ l. l.event_id == id) t.links))
    ∷ ("responses", number (count_where (λ r. r.event_id == id) t.responses))
    ∷ ("proposals", number (count_where (λ p. p.event_id == id) t.proposals))
    ∷ ("guests", number (count_where (λ g. g.event_id == id) t.guests))
    ∷ ("invites", number (count_where (λ i. i.event_id == id) t.invites))
    ∷ (if e.source_uid == "" then [] else ("source_uid", text e.source_uid) ∷ [])

-- What follows the guards.
unfoldable pub erase_event : String → Event → Service → Service
erase_event id e w = save_locked (
    fire_webhooks_locked "event.deleted" (of_event e) (
      audit_locked "event.deleted" (dropped_with_event id e w.tables)
        (set_tables (purge_event id w.tables) w)))

-- `Status != cancelled && !eventEnd(e).Before(now)`
abbrev pub still_on : ℕ → Event → Bool
still_on now e = not (is_cancelled e.status) && not (ltb (event_end e) now)

-- `SourceUID != "" && (Status == cancelled || VanishedAt.IsZero())`
abbrev pub would_return : Event → Bool
would_return e = not (e.source_uid == "") && (is_cancelled e.status || is_zero e.vanished_at)

unfoldable pub delete_found : String → Option Event → Service → Result (Unit {0}) × Service
unfolding erase_event
delete_found id none w = (err not_found, w)
delete_found id (some e) w =
    if still_on w.now e
    then (
      err (
          message (
            concat (
              w.env.quote e.title
              ∷ " is still on — cancel it first so the notices go out; deleting it tells nobody"
              ∷ []))),
      w,
    )
    else if would_return e
    then (
      err (
          message (
            concat (
              w.env.quote e.title
              ∷ " comes from the calendar import — deleting the row here means the next sync creates it again as scheduled (undoing the cancellation, if it is cancelled); remove it in the source calendar instead"
              ∷ []))),
      w,
    )
    else if ltb 0 (fan_out_in_flight_locked e w)
    then (
      err (
          message (
            concat (
              w.env.quote e.title
              ∷ " has "
              ∷ w.env.format_number (fan_out_in_flight_locked e w)
              ∷ " notice(s) of its last propagation still on the way — deleting it now takes the proof that they arrived with it; wait for the outbox"
              ∷ []))),
      w,
    )
    else (ok tt, erase_event id e w)

-- DeleteEvent
unfoldable pub delete_event : String → Service → Result (Unit {0}) × Service
unfolding delete_found
delete_event id w = delete_found id (event w.tables id) w

unfoldable pub open_title : ℕ → Option Event → List String → List String
open_title now none titles = titles
open_title now (some e) titles = if ltb (event_end e) now then titles else e.title ∷ titles

-- The titles of what the person is still responsible for, in the order of the assignments.
unfoldable pub open_titles : ℕ → String → Tables → List Assignment → List String
unfolding open_title
open_titles now id t [] = []
open_titles now id t (a ∷ rest) =
    let titles = open_titles now id t rest in
    if a.person_id == id then open_title now (event t a.event_id) titles else titles

-- The answers stay: `responses` is not among the tables that lose rows.
abbrev pub purge_person : String → Tables → Tables
purge_person id t = record t {
  people = reject (is_person id) t.people;
  assignments = reject (λ a. a.person_id == id) t.assignments;
  links = reject (λ l. l.person_id == id) t.links;
  proposals = reject (λ p. p.person_id == id) t.proposals;
  series_assignments = reject (λ s. s.person_id == id) t.series_assignments;
  telegram_onboardings = reject (λ o. o.person_id == id) t.telegram_onboardings;
}

abbrev pub dropped_with_person : String → Person → Tables → Fields
dropped_with_person id p t =
    ("person_id", text id)
    ∷ ("name", text p.name)
    ∷ ("assignments", number (count_where (λ a. a.person_id == id) t.assignments))
    ∷ ("links", number (count_where (λ l. l.person_id == id) t.links))
    ∷ ("proposals", number (count_where (λ q. q.person_id == id) t.proposals))
    ∷ ("series_assignments", number (count_where (λ s. s.person_id == id) t.series_assignments))
    ∷ ("telegram_onboardings", number (count_where (λ o. o.person_id == id) t.telegram_onboardings))
    ∷ []

unfoldable pub erase_person : String → Person → Service → Service
erase_person id p w = save_locked (
    fire_webhooks_locked "person.deleted" (of_fields (("id", text id) ∷ ("name", text p.name) ∷ []))
      (audit_locked "person.deleted" (dropped_with_person id p w.tables)
        (set_tables (purge_person id w.tables) w)))

unfoldable pub delete_person_open :
    String → Person → List String → Service → Result (Unit {0}) × Service
unfolding erase_person
delete_person_open id p [] w = (ok tt, erase_person id p w)
delete_person_open id p (t ∷ ts) w = (
  err (
      message (
        concat
          (p.name ∷ " is still responsible for " ∷ join ", " (t ∷ ts) ∷ " — unassign first" ∷ []))),
  w,
)

unfoldable pub delete_person_found : String → Option Person → Service → Result (Unit {0}) × Service
unfolding open_titles delete_person_open
delete_person_found id none w = (err not_found, w)
delete_person_found id (some p) w =
    delete_person_open id p (open_titles w.now id w.tables w.tables.assignments) w

-- DeletePerson
unfoldable pub delete_person : String → Service → Result (Unit {0}) × Service
unfolding delete_person_found
delete_person id w = delete_person_found id (person w.tables id) w
