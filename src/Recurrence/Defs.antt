-- ===== src/Recurrence/Defs.antt =====
-- The types of internal/icsimport, its budget, and what it takes from the standard library. A time is
-- the number of its nanoseconds since the zero time, as in the rows of the state.

use stattii.Base.{
  Bool, List, Option, String, eqb, false, if◌then◌else◌, negated, true, ℕ, ℤ, ◌%◌, ◌+◌, ◌-◌, ◌/◌,
  ◌||◌,
}

-- A *time.Location with the calendar that package time reads in it: time.Date, the parts of a time,
-- AddDate in days, and ParseInLocation by a layout. `utc_day` is the number of the day of a date.
pub record Zone : Type 0 where
  pub date : ℕ → ℕ → ℕ → ℕ → ℕ → ℕ → ℕ
  pub year : ℕ → ℕ
  pub month : ℕ → ℕ
  pub day : ℕ → ℕ
  pub hour : ℕ → ℕ
  pub minute : ℕ → ℕ
  pub second : ℕ → ℕ
  pub weekday : ℕ → ℕ
  pub add_days : ℕ → ℤ → ℕ
  pub utc_day : ℕ → ℕ → ℕ → ℕ
  pub parse : String → String → Option ℕ

-- strconv.Atoi, strings.ToUpper, strings.EqualFold, `%q`, time.Parse in UTC with the text of its
-- error, the RFC 3339 format in UTC, time.UTC, time.Local and time.LoadLocation.
pub record Std : Type 0 where
  pub atoi : String → Option ℤ
  pub to_upper : String → String
  pub quote : String → String
  pub format_number : ℕ → String
  pub parse_utc : String → String → Option ℕ
  pub rfc3339 : ℕ → String
  pub equal_fold : String → String → Bool
  pub parse_error : String → String → String
  pub utc : Zone
  pub local : Zone
  pub load_location : String → Option Zone

-- icsimport.Event; `zone` is the location of its start.
pub record IcsEvent : Type 0 where
  pub uid : String
  pub summary : String
  pub location : String
  pub start : ℕ
  pub finish : ℕ
  pub all_day : Bool
  pub r_rule : String
  pub ex_dates : List ℕ
  pub r_dates : List ℕ
  pub recurrence_id : ℕ
  pub status : String
  pub zone : Zone

pub record ByDay : Type 0 where
  pub ord : ℤ
  pub weekday : ℕ

pub record Rule : Type 0 where
  pub freq : String
  pub interval : ℕ
  pub until_at : ℕ
  pub count : ℕ
  pub by_day : List ByDay
  pub by_month : List ℕ
  pub by_month_day : List ℤ
  pub by_set_pos : List ℤ

abbrev pub max_interval : ℕ
max_interval = 10_000

abbrev pub max_count : ℕ
max_count = 10_000

abbrev pub max_event_steps : ℕ
max_event_steps = 500_000

abbrev pub max_feed_steps : ℕ
max_feed_steps = 2_000_000

pub record Budget : Type 0 where
  pub event : ℕ
  pub feed : ℕ
  pub hit : Bool

-- newBudget
abbrev pub new_budget : Budget
new_budget = record { event = max_event_steps; feed = max_feed_steps; hit = false }

-- nextEvent
abbrev pub next_event : Budget → Budget
next_event b = record b { event = max_event_steps; hit = false }

-- spend
unfoldable pub spend : Budget → Bool × Budget
spend b =
    if eqb b.event 0 || eqb b.feed 0
    then (false, record b { hit = true })
    else (true, record b { event = b.event - 1; feed = b.feed - 1 })

-- time.Second
abbrev pub one_second : ℕ
one_second = 1_000_000_000

-- time.Time.Unix, up to the same constant for every time.
abbrev pub unix : ℕ → ℕ
unix t = t / one_second

-- startOfISOWeek
unfoldable pub start_of_iso_week : Zone → ℕ → ℕ
start_of_iso_week z t =
    let m = z.add_days t (negated ((z.weekday t + 6) % 7)) in
    z.date (z.year m) (z.month m) (z.day m) 0 0 0

-- daysBetween, for a day that is not before the first.
unfoldable pub days_between : Zone → ℕ → ℕ → ℕ
days_between z a b =
    z.utc_day (z.year b) (z.month b) (z.day b) - z.utc_day (z.year a) (z.month a) (z.day a)
