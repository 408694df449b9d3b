-- ===== src/Recurrence/Series.antt =====
-- expandRule of internal/icsimport/expand.go. Each of its loops runs on fuel, since every round spends
-- a step of the budget; Recurrence.Ending shows that one round more than the budget is enough.

use stattii.Base.{
  Bool, Error, List, Option, Result, [], any_of, eqb, err, false, if◌then◌else◌, length, ltb,
  message, none, not, ok, some, suc, true, zero, ℕ, ◌%◌, ◌&&◌, ◌*◌, ◌++◌, ◌+◌, ◌-◌, ◌/◌, ◌==◌, ◌||◌,
  ◌∷◌,
}
use stattii.Recurrence.Defs.{
  Budget, ByDay, IcsEvent, Rule, Std, Zone, days_between, spend, start_of_iso_week,
}
use stattii.Recurrence.Months.{clock_of, date_at, month_candidates, no_entries}
use stattii.Recurrence.Rule.{parse_rule}

-- A loop so far: the starts that it found, and the budget.
pub record Found : Type 0 where
  pub starts : List ℕ
  pub budget : Budget

-- A round of a loop: whether it goes on.
abbrev pub Round : Type 0
Round = ℕ → Found → Bool × Found

-- `for ; ; i = next(i) { if !b.spend() { break }; … }`
unfoldable pub rounds : ℕ → Round → (ℕ → ℕ) → ℕ → Found → Option Found
unfolding spend
rounds zero body next i f = none
rounds (suc fuel) body next i f =
    let (paid, b1) = spend f.budget in
    let (more, f2) = body i (record f { budget = b1 }) in
    let rest = rounds fuel body next (next i) f2 in
    if not paid then some (record f { budget = b1 }) else if more then rest else some f2

-- What one series is expanded by.
pub record Series : Type 0 where
  pub rule : Rule
  pub zone : Zone
  pub anchor : ℕ
  pub lower : ℕ
  pub end : ℕ

-- `add`
unfoldable pub add_start : Series → ℕ → Found → Bool × Found
unfolding spend
add_start s t f =
    let (paid, b1) = spend f.budget in
    if not paid
    then (false, record f { budget = b1 })
    else if ltb t s.anchor || ltb s.end t
    then (true, record f { budget = b1 })
    else (
      eqb s.rule.count 0 || ltb (length f.starts + 1) s.rule.count,
      record { starts = f.starts ++ t ∷ []; budget = b1 },
    )

-- `for _, d := range cands { if !add(d) { break } }`
unfoldable pub add_each : Series → List ℕ → Found → Bool × Found
unfolding add_start
add_each s [] f = (true, f)
add_each s (d ∷ ds) f =
    let (more, f1) = add_start s d f in
    let rest = add_each s ds f1 in if more then rest else (false, f1)

-- The day that lies a number of days after the anchor, at the anchor's time of day.
abbrev pub day_after : Series → ℕ → ℕ
day_after s n =
    date_at s.zone (s.zone.year s.anchor) (s.zone.month s.anchor) (s.zone.day s.anchor + n)
      (clock_of s.zone s.anchor)

unfoldable pub daily : Series → Round
unfolding add_start
daily s i f =
    let d = day_after s (i * s.rule.interval) in if ltb s.end d then (false, f) else add_start s d f

-- The weekdays of BYDAY, or that of the anchor.
abbrev pub on_day : Series → ℕ → Bool
on_day s wd =
    if no_entries s.rule.by_day
    then eqb wd (s.zone.weekday s.anchor)
    else any_of (λ (bd : ByDay). eqb bd.weekday wd) s.rule.by_day

abbrev pub week_of : Series → ℕ → ℕ
week_of s d =
    days_between s.zone (start_of_iso_week s.zone s.anchor) (start_of_iso_week s.zone d) / 7

unfoldable pub weekly : Series → Round
unfolding add_start days_between start_of_iso_week
weekly s n f =
    let d = day_after s n in
    if ltb s.end d
    then (false, f)
    else if not (eqb (week_of s d % s.rule.interval) 0) || not (on_day s (s.zone.weekday d))
    then (true, f)
    else add_start s d f

unfoldable pub add_candidates : Series → Option (List ℕ) × Budget → List ℕ → Bool × Found
unfolding add_each
add_candidates s (none, b) starts = (false, record { starts = starts; budget = b })
add_candidates s (some cands, b) starts = add_each s cands (record { starts = starts; budget = b })

-- One month: its candidates, and those that are added.
unfoldable pub add_month : Series → ℕ → ℕ → Found → Bool × Found
unfolding add_candidates month_candidates
add_month s y m f = add_candidates s (month_candidates s.rule s.zone s.anchor y m f.budget) f.starts

unfoldable pub monthly : Series → Round
unfolding add_month
monthly s i f =
    let y = s.zone.year s.anchor + (s.zone.month s.anchor - 1 + i) / 12 in
    let m = (s.zone.month s.anchor - 1 + i) % 12 + 1 in
    if ltb s.end (s.zone.date y m 1 0 0 0) then (false, f) else add_month s y m f

unfoldable pub add_months : Series → ℕ → List ℕ → Found → Bool × Found
unfolding add_month
add_months s y [] f = (true, f)
add_months s y (m ∷ ms) f =
    let (more, f1) = add_month s y m f in
    let rest = add_months s y ms f1 in if more then rest else (false, f1)

abbrev pub months_of : Series → List ℕ
months_of s = if no_entries s.rule.by_month then s.zone.month s.anchor ∷ [] else s.rule.by_month

unfoldable pub yearly : Series → Round
unfolding add_months
yearly s y f =
    if ltb s.end (s.zone.date y 1 1 0 0 0) then (false, f) else add_months s y (months_of s) f

-- The four loops. A frequency that is none of these starts no loop.
unfoldable pub enumerate : Series → Budget → Option Found
unfolding rounds daily weekly monthly yearly days_between
enumerate s b =
    let f : Found = record { starts = []; budget = b } in
    let fuel = suc b.event in
    if s.rule.freq == "DAILY"
    then rounds fuel (daily s) (λ i. i + 1)
        (days_between s.zone s.anchor s.lower / s.rule.interval - 1) f
    else if s.rule.freq == "WEEKLY"
    then rounds fuel (weekly s) (λ i. i + 1) (days_between s.zone s.anchor s.lower - 7) f
    else if s.rule.freq == "MONTHLY"
    then rounds fuel (monthly s) (λ i. i + s.rule.interval) 0 f
    else if s.rule.freq == "YEARLY"
    then rounds fuel (yearly s) (λ i. i + s.rule.interval) (s.zone.year s.anchor) f
    else some f

abbrev pub series_end : Rule → ℕ → ℕ
series_end r window_end =
    if not (eqb r.until_at 0) && ltb r.until_at window_end then r.until_at else window_end

abbrev pub series_of : Rule → IcsEvent → ℕ → ℕ → Series
series_of r e window_start window_end = record {
  rule = r;
  zone = e.zone;
  anchor = e.start;
  lower = if eqb r.count 0 && ltb e.start window_start then window_start else e.start;
  end = series_end r window_end;
}

abbrev pub err_budget : Error
err_budget = message "recurrence too large: enumeration budget exhausted"

-- Where the loop's fuel ran out there is no result; otherwise a denied step is an error.
abbrev pub enumerated : Option Found → Option (Result (List ℕ) × Budget)
enumerated none = none
enumerated (some f) = some (if f.budget.hit then err err_budget else ok f.starts, f.budget)

unfoldable pub expand_parsed :
    Result Rule → IcsEvent → Budget → ℕ → ℕ → Option (Result (List ℕ) × Budget)
unfolding enumerate
expand_parsed (err x) e b window_start window_end = some (err x, b)
expand_parsed (ok r) e b window_start window_end =
    enumerated (enumerate (series_of r e window_start window_end) b)

-- expandRule
unfoldable pub expand_rule : Std → IcsEvent → Budget → ℕ → ℕ → Option (Result (List ℕ) × Budget)
unfolding expand_parsed parse_rule
expand_rule std e b window_start window_end =
    expand_parsed (parse_rule std e.r_rule e.zone) e b window_start window_end
