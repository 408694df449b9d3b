-- ===== src/Examples/Calendar.antt =====
-- Runs of the theorems on invitations, the import and the expansion of a feed.

use stattii.Base.{
  All, List, Option, Result, String, [], arith, err, false, gone, if◌then◌else◌, is_space, length,
  none, not_found, ok, one_line, pos, refl, some, trim_space, true, ℕ, ◌%◌, ◌*◌, ◌/◌, ◌==◌, ◌∷◌,
  ◌≡◌, ◌≤◌,
}
use stattii.Examples.Fixtures.{called_off, demo, demo-NamedTxns, demo_tables, meeting, visitor}
use stattii.Guests.{
  RsvpInput, clean_email, clean_name, clean_note, lookup_invite_locked, max_guests_per_event,
  resolve_invite, revoke_invite, rsvp,
}
use stattii.Guests.Cap.{guest_count, rsvp-InCap}
use stattii.Guests.Closing.{revoke_invite-Closes}
use stattii.Guests.Kept.{AllKept, rsvp-AllKept}
use stattii.Import.{
  FetchAnswer, fetch_address, fetch_calendar, replace_once, response, sync_calendar,
}
use stattii.Import.Fetching.{Fetched, fetch_calendar-Fetched}
use stattii.Import.Standing.{AllHeld}
use stattii.Import.Untouched.{sync_calendar-AllHeld}
use stattii.Model.{InviteLink, Occurrence, Skipped, declined}
use stattii.Recurrence.{
  Budget, IcsEvent, Std, Zone, add_start, daily, days_between, enumerate, expand, expand_rule,
  in_window, new_budget, parse_rule, rounds, rule_parts, spend, split_on,
}
use stattii.Recurrence.Ending.{Settled, expand_rule-Settled}
use stattii.Recurrence.Window.{expand-Settled}
use stattii.Scheduler.{parse_email}
use stattii.Service.{Service, audit_locked, fire_webhooks_locked, save_locked}

abbrev open_invite : InviteLink
open_invite = record { token = "inv"; event_id = "ev1"; created_at = 10; revoked_at = 0 }

-- The demo service with an open guest list.
abbrev party : Service
party = record demo { tables = record demo_tables { invites = open_invite ∷ [] } }

-- The guest of the demo, who answers again and gives another address.
abbrev second_answer : RsvpInput
second_answer = record { name = "Guest"; email = "other@x.y"; status = declined; note = "" }

rsvp-AllKept_example : AllKept (visitor ∷ []) (rsvp "inv" second_answer party).1.tables.guests
rsvp-AllKept_example = rsvp-AllKept "inv" second_answer party

rsvp-InCap_example :
    guest_count "ev1" (rsvp "inv" second_answer party).1.tables.guests ≤ max_guests_per_event
rsvp-InCap_example = rsvp-InCap "ev1" "inv" second_answer party (omega arith)

revoke_invite-Closes_example :
    (let v = (revoke_invite "ev1" party).1 in
      (resolve_invite "inv" v ≡ err gone)
      × ((rsvp "inv" second_answer v).1 ≡ v)
      × (v.tables.guests ≡ visitor ∷ []))
revoke_invite-Closes_example =
    revoke_invite-Closes "ev1" open_invite second_answer party refl refl refl

-- The answer arrives, the address stays.
address_stays :
    (rsvp "inv" second_answer party).0 ≡ ok (record visitor { status = declined; updated_at = 100 })
unfolding rsvp lookup_invite_locked clean_name clean_note clean_email one_line trim_space is_space
    parse_email audit_locked fire_webhooks_locked save_locked
address_stays = refl

-- An occurrence of the meeting that the source has moved, and one that is new.
abbrev shifted : Occurrence
shifted = record {
  key = "u/1";
  uid = "u";
  summary = "Meeting";
  location = "";
  start = 2000;
  finish = 2100;
}

abbrev imported : Service
imported = record demo {
  tables = record demo_tables {
    events = record meeting { source_uid = "u"; source_key = "u/1" } ∷ called_off ∷ [];
  };
}

sync_calendar-AllHeld_example :
    AllHeld
      (record meeting { source_uid = "u"; source_key = "u/1" } ∷ called_off ∷ [])
      (sync_calendar
        (shifted ∷ record shifted { key = "u/2" } ∷ [])
        []
        5000
        imported).1.tables.events
sync_calendar-AllHeld_example =
    sync_calendar-AllHeld (shifted ∷ record shifted { key = "u/2" } ∷ []) [] 5000 imported
      demo-NamedTxns

-- Ten units make a day of a single endless month.
abbrev toy_zone : Zone
toy_zone = record {
  date = λ y m d h mi s. d * 10;
  year = λ t. 1;
  month = λ t. 1;
  day = λ t. t / 10;
  hour = λ t. 0;
  minute = λ t. 0;
  second = λ t. 0;
  weekday = λ t. t / 10 % 7;
  add_days = λ t n. t;
  utc_day = λ y m d. d;
  parse = λ layout s. none;
}

abbrev toy_std : Std
toy_std = record {
  atoi = λ s. if s == "3" then some (pos 3) else none;
  to_upper = λ s. s;
  quote = λ s. s;
  format_number = λ n. "n";
  parse_utc = λ layout s. none;
  rfc3339 = λ t. "then";
  equal_fold = λ a b. a == b;
  parse_error = λ layout s. "cannot parse";
  utc = toy_zone;
  local = toy_zone;
  load_location = λ name. none;
}

abbrev three_days : IcsEvent
three_days = record {
  uid = "u";
  summary = "Course";
  location = "";
  start = 20;
  finish = 25;
  all_day = false;
  r_rule = "FREQ=DAILY;COUNT=3";
  ex_dates = [];
  r_dates = [];
  recurrence_id = 0;
  status = "";
  zone = toy_zone;
}

expand_rule-Settled_example :
    Settled
      (parse_rule toy_std "FREQ=DAILY;COUNT=3" toy_zone)
      three_days
      new_budget
      900
      (expand_rule toy_std three_days new_budget 0 900)
expand_rule-Settled_example = expand_rule-Settled toy_std three_days new_budget 0 900

expand-Settled_example :
    (r : List Occurrence × List Skipped) × (expand toy_std (three_days ∷ []) 0 35 ≡ some r)
    × All (λ o. in_window 0 35 o ≡ true) r.0
    × (length r.0 ≤ 2_000_001)
expand-Settled_example = expand-Settled toy_std (three_days ∷ []) 0 35

abbrev ap_starts : Option (Result (List ℕ) × Budget) → Result (List ℕ)
ap_starts none = err not_found
ap_starts (some (r, b)) = r

-- Three days in a row.
counted_days : ap_starts (expand_rule toy_std three_days new_budget 0 900) ≡ ok (20 ∷ 30 ∷ 40 ∷ [])
unfolding expand_rule parse_rule rule_parts split_on trim_space enumerate rounds daily add_start
    spend days_between
counted_days = refl

-- A feed of one event.
abbrev one_feed : String → FetchAnswer
one_feed url = response 200 (ok "BEGIN:VEVENT\nUID:u1\nDTSTART:20260101\nEND:VEVENT\n")

fetch_calendar-Fetched_example : Fetched demo (fetch_calendar toy_std one_feed demo)
fetch_calendar-Fetched_example = fetch_calendar-Fetched toy_std one_feed demo demo-NamedTxns

-- A webcal address is fetched over https.
webcal_address : fetch_address "webcal://x/feed.ics" ≡ ok "https://x/feed.ics"
unfolding fetch_address replace_once
webcal_address = refl
