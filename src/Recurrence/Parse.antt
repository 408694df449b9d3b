-- ===== src/Recurrence/Parse.antt =====
-- Parse of internal/icsimport/parse.go.

use stattii.Base.{
  Char, Error, List, Option, Result, String, [], chars, code, concat, eqb, err, error_message,
  false, if◌then◌else◌, none, not, of_chars, ok, pos, some, trim_space, ℕ, ◌++◌, ◌==◌, ◌||◌, ◌∷◌,
}
use stattii.Model.{Skipped}
use stattii.Recurrence.Defs.{IcsEvent, Std}
use stattii.Recurrence.Rule.{split_on}
use stattii.Recurrence.Times.{IcsTime, Params, Prop, param, parse_ics_time, split_prop}
use stattii.Recurrence.Unfolding.{unescape_text, unfold_lines}

-- The VEVENT at hand, and `curErr`.
pub record Draft : Type 0 where
  pub event : IcsEvent
  pub error : String

abbrev pub blank_event : Std → IcsEvent
blank_event std = record {
  uid = "";
  summary = "";
  location = "";
  start = 0;
  finish = 0;
  all_day = false;
  r_rule = "";
  ex_dates = [];
  r_dates = [];
  recurrence_id = 0;
  status = "";
  zone = std.utc;
}

abbrev pub newline_char : Char
newline_char = "\n"

abbrev pub unescaped : String → String
unescaped v = of_chars (unescape_text code newline_char (chars v))

-- `curErr = what + ": " + err.Error()`
abbrev pub failed_draft : String → Error → Draft → Draft
failed_draft what x d = record d { error = concat (what ∷ ": " ∷ error_message x ∷ []) }

unfoldable pub set_start : Result IcsTime → Draft → Draft
unfolding error_message
set_start (err x) d = failed_draft "DTSTART" x d
set_start (ok t) d = record d {
  event = record d.event { start = t.at; all_day = t.all_day; zone = t.zone };
}

unfoldable pub set_end : Result IcsTime → Draft → Draft
unfolding error_message
set_end (err x) d = failed_draft "DTEND" x d
set_end (ok t) d = record d { event = record d.event { finish = t.at } }

unfoldable pub set_recurrence : Result IcsTime → Draft → Draft
unfolding error_message
set_recurrence (err x) d = failed_draft "RECURRENCE-ID" x d
set_recurrence (ok t) d = record d { event = record d.event { recurrence_id = t.at } }

-- The times of a list up to the first that does not parse, and its error.
unfoldable pub parse_times : Std → Params → List String → List ℕ × Option Error
unfolding parse_ics_time
parse_times std ps [] = ([], none)
parse_times std ps (v ∷ rest) =
    let (ts, failure) = parse_times std ps rest in
    elim (parse_ics_time std (trim_space v) ps) [
      | err x ↦ ([], some x)
      | ok t ↦ (t.at ∷ ts, failure)
    ]

abbrev pub note_failure : String → Option Error → Draft → Draft
note_failure what none d = d
note_failure what (some x) d = failed_draft what x d

unfoldable pub add_ex_dates : List ℕ × Option Error → Draft → Draft
unfolding error_message
add_ex_dates (ts, failure) d =
    note_failure "EXDATE" failure
      (record d { event = record d.event { ex_dates = d.event.ex_dates ++ ts } })

unfoldable pub add_draft_r_dates : List ℕ × Option Error → Draft → Draft
unfolding error_message
add_draft_r_dates (ts, failure) d =
    note_failure "RDATE" failure
      (record d { event = record d.event { r_dates = d.event.r_dates ++ ts } })

-- One property of the VEVENT at hand.
unfoldable pub set_prop : Std → Prop → Draft → Draft
unfolding unescape_text set_start set_end set_recurrence parse_times parse_ics_time add_ex_dates
    add_draft_r_dates split_on
set_prop std p d =
    if p.name == "UID"
    then record d { event = record d.event { uid = p.value } }
    else if p.name == "SUMMARY"
    then record d { event = record d.event { summary = unescaped p.value } }
    else if p.name == "LOCATION"
    then record d { event = record d.event { location = unescaped p.value } }
    else if p.name == "STATUS"
    then record d { event = record d.event { status = std.to_upper p.value } }
    else if p.name == "RRULE"
    then record d { event = record d.event { r_rule = p.value } }
    else if p.name == "DTSTART"
    then set_start (parse_ics_time std p.value p.params) d
    else if p.name == "DTEND"
    then set_end (parse_ics_time std p.value p.params) d
    else if p.name == "RECURRENCE-ID"
    then set_recurrence (parse_ics_time std p.value p.params) d
    else if p.name == "EXDATE"
    then add_ex_dates (parse_times std p.params (split_on "," p.value)) d
    else if p.name == "RDATE"
    then (if std.equal_fold (param "VALUE" p.params) "PERIOD"
        then record d { error = "RDATE: PERIOD values are not supported" }
        else add_draft_r_dates (parse_times std p.params (split_on "," p.value)) d)
    else d

-- What Parse has so far.
pub record Parsed : Type 0 where
  pub events : List IcsEvent
  pub skipped : List Skipped
  pub draft : Option Draft

-- A missing end is the start, or the day after for a date.
abbrev pub with_end : IcsEvent → IcsEvent
with_end e =
    if not (eqb e.finish 0)
    then e
    else record e { finish = if e.all_day then e.zone.add_days e.start (pos 1) else e.start }

abbrev pub skipped_draft : Draft → String → Skipped
skipped_draft d reason = record { uid = d.event.uid; summary = d.event.summary; reason = reason }

-- `END:VEVENT`
unfoldable pub close_draft : Draft → Parsed → Parsed
close_draft d st =
    if not (d.error == "")
    then record st { skipped = st.skipped ++ skipped_draft d d.error ∷ []; draft = none }
    else if d.event.uid == "" || eqb d.event.start 0
    then record st {
      skipped = st.skipped ++ skipped_draft d "missing UID or DTSTART" ∷ [];
      draft = none;
    }
    else record st { events = st.events ++ with_end d.event ∷ []; draft = none }

unfoldable pub end_draft : Option Draft → Parsed → Parsed
unfolding close_draft
end_draft none st = st
end_draft (some d) st = close_draft d st

unfoldable pub update_draft : Std → Prop → Option Draft → Parsed → Parsed
unfolding set_prop
update_draft std p none st = st
update_draft std p (some d) st = record st { draft = some (set_prop std p d) }

-- One logical line.
unfoldable pub parse_prop : Std → Prop → Parsed → Parsed
unfolding end_draft update_draft
parse_prop std p st =
    if p.name == "BEGIN"
    then (if p.value == "VEVENT"
        then record st { draft = some (record { event = blank_event std; error = "" }) }
        else st)
    else if p.name == "END"
    then (if p.value == "VEVENT" then end_draft st.draft st else st)
    else update_draft std p st.draft st

unfoldable pub parse_props : Std → List (List Char) → Parsed → Parsed
unfolding parse_prop split_prop
parse_props std [] st = st
parse_props std (l ∷ ls) st = parse_props std ls (parse_prop std (split_prop std l) st)

-- Parse
unfoldable pub parse_feed : Std → String → List IcsEvent × List Skipped
unfolding parse_props unfold_lines
parse_feed std raw =
    let st =
      parse_props std (unfold_lines code (chars raw))
        (record { events = []; skipped = []; draft = none }) in
    (st.events, st.skipped)
