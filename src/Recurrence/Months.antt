-- ===== src/Recurrence/Months.antt =====
-- monthCandidates and nthWeekday of internal/icsimport/expand.go. A time of day is the hour, the
-- minute and the second of the anchor.

use stattii.Base.{
  Bool, List, Option, [], eqb, false, get_elem?, if◌then◌else◌, is_nonzero, leb, length, none, not,
  nth_index, select, some, sort_by, suc, true, zero, ℕ, ℤ, ◌++◌, ◌+◌, ◌∷◌,
}
use stattii.Recurrence.Defs.{Budget, ByDay, Rule, Zone, spend}

pub record DayTime : Type 0 where
  pub hour : ℕ
  pub minute : ℕ
  pub second : ℕ

abbrev pub clock_of : Zone → ℕ → DayTime
clock_of z t = record { hour = z.hour t; minute = z.minute t; second = z.second t }

-- time.Date at a time of day.
abbrev pub date_at : Zone → ℕ → ℕ → ℕ → DayTime → ℕ
date_at z y m d c = z.date y m d c.hour c.minute c.second

-- The day before the first of the next month.
abbrev pub days_in_month : Zone → ℕ → ℕ → ℕ
days_in_month z y m = z.day (z.date y (m + 1) 0 0 0 0)

-- The days of a month, from a first one.
unfoldable pub days_from : ℕ → ℕ → List ℕ
days_from first zero = []
days_from first (suc n) = first ∷ days_from (first + 1) n

abbrev pub month_days : Zone → ℕ → ℕ → List ℕ
month_days z y m = days_from 1 (days_in_month z y m)

abbrev pub date_or_none : Zone → ℕ → ℕ → Option ℕ → DayTime → Option ℕ
date_or_none z y m none c = none
date_or_none z y m (some day) c = some (date_at z y m day c)

-- nthWeekday
unfoldable pub nth_weekday : Zone → ℕ → ℕ → ℕ → ℤ → DayTime → Option ℕ
unfolding days_from nth_index
nth_weekday z y m wd ord c =
    let matches = select (λ day. eqb (z.weekday (z.date y m day 0 0 0)) wd) (month_days z y m) in
    elim (nth_index (length matches) ord) [
      | none ↦ none
      | some i ↦ date_or_none z y m (get_elem? matches i) c
    ]

-- Every day of the month that falls on a weekday; each costs a step.
unfoldable pub every_weekday :
    Zone → ℕ → ℕ → ℕ → DayTime → List ℕ → List ℕ → Budget → Option (List ℕ) × Budget
unfolding spend
every_weekday z y m wd c [] cands b = (some cands, b)
every_weekday z y m wd c (day ∷ days) cands b =
    let d = date_at z y m day c in
    let hit = eqb (z.weekday d) wd in
    let (paid, b1) = if hit then spend b else (true, b) in
    let next = every_weekday z y m wd c days (if hit then cands ++ d ∷ [] else cands) b1 in
    if paid then next else (none, b1)

unfoldable pub push_some : List ℕ → Option ℕ → List ℕ
push_some xs none = xs
push_some xs (some x) = xs ++ x ∷ []

-- The days of one BYDAY entry.
unfoldable pub by_day_entry :
    Zone → ℕ → ℕ → DayTime → ByDay → List ℕ → Budget → Option (List ℕ) × Budget
unfolding every_weekday nth_weekday push_some days_from
by_day_entry z y m c bd cands b =
    if is_nonzero bd.ord
    then (some (push_some cands (nth_weekday z y m bd.weekday bd.ord c)), b)
    else every_weekday z y m bd.weekday c (month_days z y m) cands b

-- A loop that spends one step for each entry and adds its days.
unfoldable pub collect {ℓ} :
    {A : Type ℓ}
    → (A → List ℕ → Budget → Option (List ℕ) × Budget)
    → List A
    → List ℕ
    → Budget
    → Option (List ℕ) × Budget
unfolding spend
collect entry [] cands b = (some cands, b)
collect entry (a ∷ rest) cands b =
    let (paid, b1) = spend b in
    let (found, b2) = entry a cands b1 in
    let next = λ (more : List ℕ). collect entry rest more b2 in
    if paid then elim found [ none ↦ (none, b2) | some more ↦ next more ] else (none, b1)

-- BYMONTHDAY, from the end of the month where it is negative.
unfoldable pub month_day_entry :
    Zone → ℕ → ℕ → DayTime → ℤ → List ℕ → Budget → Option (List ℕ) × Budget
unfolding nth_index push_some
month_day_entry z y m c md cands b = (
  some (
      push_some cands (elim (nth_index (days_in_month z y m) md) [
        | none ↦ none
        | some i ↦ some (date_at z y m (i + 1) c)
      ])),
  b,
)

-- Without BYDAY and BYMONTHDAY: the anchor's day, where the month has it.
abbrev pub anchor_day : Zone → ℕ → ℕ → DayTime → ℕ → Budget → Option (List ℕ) × Budget
anchor_day z y m c day b =
    let (paid, b1) = spend b in
    if not paid
    then (none, b1)
    else (some (if leb day (days_in_month z y m) then date_at z y m day c ∷ [] else []), b1)

abbrev pub no_entries {ℓ} : {A : Type ℓ} → List A → Bool
no_entries [] = true
no_entries _ = false

unfoldable pub raw_candidates : Rule → Zone → ℕ → ℕ → ℕ → Budget → Option (List ℕ) × Budget
unfolding collect by_day_entry month_day_entry
raw_candidates r z anchor y m b =
    let c = clock_of z anchor in
    if not (no_entries r.by_day)
    then collect (by_day_entry z y m c) r.by_day [] b
    else if not (no_entries r.by_month_day)
    then collect (month_day_entry z y m c) r.by_month_day [] b
    else anchor_day z y m c (z.day anchor) b

unfoldable pub set_pos_entry : List ℕ → ℤ → List ℕ → Budget → Option (List ℕ) × Budget
unfolding nth_index push_some
set_pos_entry cands p picked b = (
  some (
      push_some picked
        (elim (nth_index (length cands) p) [ none ↦ none | some i ↦ get_elem? cands i ])),
  b,
)

abbrev pub sorted : Option (List ℕ) × Budget → Option (List ℕ) × Budget
sorted (none, b) = (none, b)
sorted (some ts, b) = (some (sort_by (λ t. t) ts), b)

-- BYSETPOS, on the sorted days.
unfoldable pub pick_positions : List ℤ → Option (List ℕ) × Budget → Option (List ℕ) × Budget
unfolding collect set_pos_entry sort_by
pick_positions ps (none, b) = (none, b)
pick_positions [] (some cands, b) = (some cands, b)
pick_positions (p ∷ ps) (some cands, b) = sorted (collect (set_pos_entry cands) (p ∷ ps) [] b)

-- monthCandidates
unfoldable pub month_candidates : Rule → Zone → ℕ → ℕ → ℕ → Budget → Option (List ℕ) × Budget
unfolding raw_candidates pick_positions sort_by
month_candidates r z anchor y m b =
    pick_positions r.by_set_pos (sorted (raw_candidates r z anchor y m b))
