-- ===== src/Recurrence/Window.antt =====
-- Expand of internal/icsimport/expand.go ends, keeps to the window, and cannot be made to grow by the
-- feed's rules.

use stattii.Base.{
  All, All-append, Bool, Bool-cases, List, Option, Result, String, [], any_of, ap, arith, eqb, err,
  false, if◌then◌else◌, inl, inr, length, length-append, none, ok, refl, some, sort_by, true, ℕ,
  ◌++◌, ◌+◌, ◌==◌, ◌∷◌, ◌≡◌, ◌≤◌,
}
use stattii.Model.{Occurrence, Skipped}
use stattii.Recurrence.Defs.{Budget, IcsEvent, Std, max_feed_steps, next_event, spend, unix}
use stattii.Recurrence.Ending.{expand_rule-Settled}
use stattii.Recurrence.Expand.{
  Expansion, add_occurrence, add_occurrences, add_r_dates, base_occurrence, expand, expand_each,
  expand_event, first_override, in_window, is_called_off, is_ex_date, is_override, lower_for,
  no_expansion, occurrence_key, overridden, override_for, place_result, place_starts, placed,
  push_in_window, skip_event, sorted_occurrences, starts_of,
}
use stattii.Recurrence.Sorting.{All-sort_by, length-sort_by}
use stattii.Recurrence.Spending.{spend-Spent, spend_paid}

module _ (std : Std) (events : List IcsEvent) (from to : ℕ) where
  abbrev InWindow : Occurrence → Type 0
  InWindow o = in_window from to o ≡ true

  push-length :
      (occs : List Occurrence) (o : Option Occurrence)
      → length (push_in_window from to occs o) ≤ length occs + 1
  unfolding push_in_window
  push-length occs none = omega arith
  push-length occs (some o) = elim (Bool-cases (in_window from to o)) [
    | inl seen ↦ rw (seen, length-append) (omega arith)
    | inr out ↦ rw out (omega arith)
  ]

  push-InWindow :
      (occs : List Occurrence) (o : Option Occurrence)
      → All InWindow occs
      → All InWindow (push_in_window from to occs o)
  unfolding push_in_window
  push-InWindow occs none h = h
  push-InWindow occs (some o) h = elim (Bool-cases (in_window from to o)) [
    | inl seen ↦ rw seen (All-append InWindow occs (o ∷ []) h (seen, tt))
    | inr out ↦ rw out h
  ]

  add_occurrence-Kept :
      (e : IcsEvent) (st : ℕ) (occs : List Occurrence)
      → (length (add_occurrence std events e from to st occs) ≤ length occs + 1)
        × (All InWindow occs → All InWindow (add_occurrence std events e from to st occs))
  unfolding add_occurrence
  add_occurrence-Kept e st occs =
      let o =
        overridden e (base_occurrence std e st)
          (override_for std events (occurrence_key std e.uid st)) in
      elim (Bool-cases (is_ex_date e st)) [
        | inl excluded ↦ rw excluded (omega arith, λ h. h)
        | inr open_date ↦ rw open_date (push-length occs o, push-InWindow occs o)
      ]

  add_occurrences-Kept :
      (e : IcsEvent) (starts : List ℕ) (occs : List Occurrence)
      → (length (add_occurrences std events e from to starts occs) ≤ length occs + length starts)
        × (All InWindow occs → All InWindow (add_occurrences std events e from to starts occs))
  unfolding add_occurrences
  add_occurrences-Kept e [] occs = (omega arith, λ h. h)
  add_occurrences-Kept e (st ∷ rest) occs =
      let one = add_occurrence-Kept e st occs in
      let others = add_occurrences-Kept e rest (add_occurrence std events e from to st occs) in
      (omega (arith, one.0, others.0), λ h. others.1 (one.1 h))

  -- At most so many starts, as the feed's budget paid for.
  abbrev StartsPaid : ℕ → Option (List ℕ) × Budget → Type 0
  StartsPaid limit (none, b) = b.feed ≤ limit
  StartsPaid limit (some starts, b) = length starts + b.feed ≤ limit

  if-StartsPaid :
      (limit : ℕ) (paid : Bool) (r : Option (List ℕ) × Budget) (b : Budget)
      → (paid ≡ true → StartsPaid limit r)
      → b.feed ≤ limit
      → StartsPaid limit (if paid then r else (none, b))
  if-StartsPaid limit true r b h k = h refl
  if-StartsPaid limit false r b h k = k

  weaken-StartsPaid :
      (low high : ℕ) (r : Option (List ℕ) × Budget)
      → low ≤ high
      → StartsPaid low r
      → StartsPaid high r
  weaken-StartsPaid low high (none, b) h k = omega arith
  weaken-StartsPaid low high (some starts, b) h k = omega arith

  pushed-le :
      (known : Bool) (starts : List ℕ) (rd : ℕ)
      → length (if known then starts else starts ++ rd ∷ []) ≤ length starts + 1
  pushed-le true starts rd = omega arith
  pushed-le false starts rd = rw length-append (omega arith)

  add_r_dates-StartsPaid :
      (rds starts : List ℕ) (b : Budget)
      → StartsPaid (length starts + b.feed) (add_r_dates rds starts b)
  unfolding add_r_dates
  add_r_dates-StartsPaid [] starts b = omega arith
  add_r_dates-StartsPaid (rd ∷ rest) starts b =
      let known = any_of (λ t. eqb (unix t) (unix rd)) starts in
      let more = if known then starts else starts ++ rd ∷ [] in
      let b1 = (spend b).1 in
      let pays = spend-Spent 0 b in
      if-StartsPaid (length starts + b.feed) (spend b).0 (add_r_dates rest more b1) b1
        (λ paid.
          let p = spend_paid 0 b paid in
          weaken-StartsPaid (length more + b1.feed) (length starts + b.feed)
            (add_r_dates rest more b1) (omega (arith, pushed-le known starts rd, p.1))
            (add_r_dates-StartsPaid rest more b1))
        (omega (arith, pays))

  -- One event of the feed: it pays for its occurrences, but for one that needs no rule.
  record Grown (x : Expansion) (y : Expansion) : Type 0 where
    size : length y.occurrences + y.budget.feed ≤ length x.occurrences + x.budget.feed + 1
    window : All InWindow x.occurrences → All InWindow y.occurrences

  skip_event-Grown :
      (e : IcsEvent) (reason : String) (b : Budget) (x : Expansion)
      → b.feed ≤ x.budget.feed + 1
      → Grown x (skip_event e reason b x)
  unfolding skip_event
  skip_event-Grown e reason b x h = record { size = omega arith; window = λ a. a }

  place_starts-Grown :
      (e : IcsEvent) (r : Option (List ℕ) × Budget) (x : Expansion)
      → StartsPaid (x.budget.feed + 1) r
      → Grown x (place_starts std events e from to r x)
  unfolding place_starts
  place_starts-Grown e (none, b) x h = skip_event-Grown e _ b x h
  place_starts-Grown e (some starts, b) x h =
      let kept = add_occurrences-Kept e starts x.occurrences in
      record { size = omega (arith, kept.0); window = kept.1 }

  -- The starts of an event, paid for but for one.
  abbrev ResultPaid : ℕ → Result (List ℕ) × Budget → Type 0
  ResultPaid limit (err x, b) = b.feed ≤ limit
  ResultPaid limit (ok starts, b) = length starts + b.feed ≤ limit

  place_result-Grown :
      (e : IcsEvent) (r : Result (List ℕ) × Budget) (x : Expansion)
      → ResultPaid (x.budget.feed + 1) r
      → Grown x (place_result std events e from to r x)
  unfolding place_result
  place_result-Grown e (err m, b) x h = skip_event-Grown e _ b x h
  place_result-Grown e (ok starts, b) x h =
      place_starts-Grown e (add_r_dates e.r_dates starts b) x (
        weaken-StartsPaid (length starts + b.feed) (x.budget.feed + 1)
          (add_r_dates e.r_dates starts b) h (add_r_dates-StartsPaid e.r_dates starts b))

  settled-ResultPaid :
      (b b' : Budget) (q : Result (List ℕ))
      → ((starts : List ℕ) → q ≡ ok starts → length starts + b'.feed ≤ b.feed)
      → b'.feed ≤ b.feed
      → ResultPaid (b.feed + 1) (q, b')
  settled-ResultPaid b b' (err x) h k = omega arith
  settled-ResultPaid b b' (ok starts) h k = let paid = h starts refl in omega arith

  starts_of-paid :
      (e : IcsEvent) (b : Budget)
      → (r : Result (List ℕ) × Budget) × (starts_of std events e from to b ≡ some r)
        × ResultPaid (b.feed + 1) r
  unfolding starts_of
  starts_of-paid e b = elim (Bool-cases (e.r_rule == "")) [
    | inl single ↦ ((ok (e.start ∷ []), b), rw single, omega arith)
    | inr ruled ↦
        let done =
          expand_rule-Settled std e b (lower_for (first_override e.uid events none) from) to in
        (
          (done.result, done.budget),
          rw ruled done.found,
          settled-ResultPaid b done.budget done.result done.paid done.feed_le,
        )
  ]

  expand_event-Grown :
      (e : IcsEvent) (x : Expansion)
      → (y : Expansion) × (expand_event std events from to e x ≡ some y) × Grown x y
  unfolding expand_event
  expand_event-Grown e x = elim (Bool-cases (is_override e)) [
    | inl held ↦ (x, rw held, record { size = omega arith; window = λ a. a })
    | inr own ↦ elim (Bool-cases (is_called_off e)) [
      | inl off ↦ (
        skip_event e "cancelled in source" x.budget x,
        rw (own, off),
        skip_event-Grown e "cancelled in source" x.budget x (omega arith),
      )
      | inr on ↦
          let (r, found, paid) = starts_of-paid e (next_event x.budget) in
          (
            place_result std events e from to r x,
            rw (own, on) (ap (placed std events e from to x) found),
            place_result-Grown e r x paid,
          )
    ]
  ]

  expand_each-Grown :
      (es : List IcsEvent) (x : Expansion)
      → (y : Expansion) × (expand_each std events from to es x ≡ some y)
        × (length y.occurrences + y.budget.feed ≤ length x.occurrences + x.budget.feed + length es)
        × (All InWindow x.occurrences → All InWindow y.occurrences)
  unfolding expand_each
  expand_each-Grown [] x = (x, refl, omega arith, λ a. a)
  expand_each-Grown (e ∷ rest) x =
      let (y, found, grown) = expand_event-Grown e x in
      let (z, ended, size, window) = expand_each-Grown rest y in
      (z, rw (found, expand_each) ended, omega (arith, grown), λ a. window (grown.window a))

-- Expand ends for every feed, whatever its rules say and whatever the calendar answers: each
-- occurrence starts within the window, and there are at most as many as the feed has steps in its
-- budget and events.
pub expand-Settled :
    (std : Std) (events : List IcsEvent) (from to : ℕ)
    → (r : List Occurrence × List Skipped) × (expand std events from to ≡ some r)
      × All (λ o. in_window from to o ≡ true) r.0
      × (length r.0 ≤ max_feed_steps + length events)
unfolding expand
expand-Settled std events from to =
    let (y, found, size, window) = expand_each-Grown std events from to events no_expansion in
    (
      (sort_by (λ o. o.start) y.occurrences, y.skipped),
      ap sorted_occurrences found,
      All-sort_by (λ o. o.start) (λ o. in_window from to o ≡ true) y.occurrences (window tt),
      omega (arith, length-sort_by {0} (λ (o : Occurrence). o.start) y.occurrences),
    )
