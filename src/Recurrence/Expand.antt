-- ===== src/Recurrence/Expand.antt =====
-- Expand of internal/icsimport/expand.go.

use stattii.Base.{
  Bool, List, Option, Result, String, [], any_of, concat, eqb, err, error_message, find_last,
  if◌then◌else◌, ltb, none, not, ok, some, sort_by, ℕ, ◌&&◌, ◌++◌, ◌+◌, ◌-◌, ◌==◌, ◌∷◌,
}
use stattii.Model.{Occurrence, Skipped}
use stattii.Recurrence.Defs.{Budget, IcsEvent, Std, new_budget, next_event, spend, unix}
use stattii.Recurrence.Series.{err_budget, expand_rule}

-- occurrenceKey
abbrev pub occurrence_key : Std → String → ℕ → String
occurrence_key std uid t = concat (uid ∷ "/" ∷ std.rfc3339 t ∷ [])

abbrev pub is_override : IcsEvent → Bool
is_override e = not (eqb e.recurrence_id 0)

-- The override of an occurrence: the last one of the feed, as in the map.
abbrev pub overrides_key : Std → String → IcsEvent → Bool
overrides_key std key e = is_override e && occurrence_key std e.uid e.recurrence_id == key

abbrev pub override_for : Std → List IcsEvent → String → Option IcsEvent
override_for std events key = find_last (overrides_key std key) events

abbrev pub earlier : Option ℕ → ℕ → ℕ
earlier none t = t
earlier (some u) t = if ltb t u then t else u

-- The earliest original start at which a series is overridden.
unfoldable pub first_override : String → List IcsEvent → Option ℕ → Option ℕ
first_override uid [] found = found
first_override uid (e ∷ rest) found =
    first_override uid rest
      (if is_override e && e.uid == uid then some (earlier found e.recurrence_id) else found)

-- Where the enumeration of a series may start.
abbrev pub lower_for : Option ℕ → ℕ → ℕ
lower_for none from = from
lower_for (some t) from = if ltb t from then t else from

-- The RDATEs on top of the starts, none twice in one second; none where the budget ran out.
unfoldable pub add_r_dates : List ℕ → List ℕ → Budget → Option (List ℕ) × Budget
unfolding spend
add_r_dates [] starts b = (some starts, b)
add_r_dates (rd ∷ rest) starts b =
    let (paid, b1) = spend b in
    let known = any_of (λ t. eqb (unix t) (unix rd)) starts in
    let next = add_r_dates rest (if known then starts else starts ++ rd ∷ []) b1 in
    if paid then next else (none, b1)

abbrev pub is_ex_date : IcsEvent → ℕ → Bool
is_ex_date e t = any_of (λ x. eqb (unix x) (unix t)) e.ex_dates

-- The end of an occurrence: as far from its start as that of the event.
abbrev pub end_of : IcsEvent → ℕ → ℕ
end_of e start = start + e.finish - e.start

abbrev pub base_occurrence : Std → IcsEvent → ℕ → Occurrence
base_occurrence std e st = record {
  key = occurrence_key std e.uid st;
  uid = e.uid;
  summary = e.summary;
  location = e.location;
  start = st;
  finish = end_of e st;
}

abbrev pub is_called_off : IcsEvent → Bool
is_called_off e = e.status == "CANCELLED"

-- An occurrence after its override; none where that cancels it.
unfoldable pub overridden : IcsEvent → Occurrence → Option IcsEvent → Option Occurrence
overridden e occ none = some occ
overridden e occ (some ov) =
    if is_called_off ov
    then none
    else some (record occ {
      summary = ov.summary;
      location = ov.location;
      start = ov.start;
      finish = if eqb ov.finish 0 then end_of e ov.start else ov.finish;
    })

abbrev pub in_window : ℕ → ℕ → Occurrence → Bool
in_window from to occ = not (ltb occ.start from) && not (ltb to occ.start)

unfoldable pub push_in_window : ℕ → ℕ → List Occurrence → Option Occurrence → List Occurrence
push_in_window from to occs none = occs
push_in_window from to occs (some occ) = if in_window from to occ then occs ++ occ ∷ [] else occs

-- What one start adds to the occurrences.
unfoldable pub add_occurrence :
    Std → List IcsEvent → IcsEvent → ℕ → ℕ → ℕ → List Occurrence → List Occurrence
unfolding overridden push_in_window
add_occurrence std events e from to st occs =
    if is_ex_date e st
    then occs
    else (push_in_window from to occs (
        overridden e (base_occurrence std e st)
          (override_for std events (occurrence_key std e.uid st))))

unfoldable pub add_occurrences :
    Std → List IcsEvent → IcsEvent → ℕ → ℕ → List ℕ → List Occurrence → List Occurrence
unfolding add_occurrence
add_occurrences std events e from to [] occs = occs
add_occurrences std events e from to (st ∷ rest) occs =
    add_occurrences std events e from to rest (add_occurrence std events e from to st occs)

-- What Expand has so far.
pub record Expansion : Type 0 where
  pub occurrences : List Occurrence
  pub skipped : List Skipped
  pub budget : Budget

unfoldable pub skip_event : IcsEvent → String → Budget → Expansion → Expansion
skip_event e reason b x = record {
  occurrences = x.occurrences;
  skipped = x.skipped ++ record { uid = e.uid; summary = e.summary; reason = reason } ∷ [];
  budget = b;
}

unfoldable pub place_starts :
    Std → List IcsEvent → IcsEvent → ℕ → ℕ → Option (List ℕ) × Budget → Expansion → Expansion
unfolding skip_event add_occurrences
place_starts std events e from to (none, b) x = skip_event e (error_message err_budget) b x
place_starts std events e from to (some starts, b) x = record x {
  occurrences = add_occurrences std events e from to starts x.occurrences;
  budget = b;
}

unfoldable pub place_result :
    Std → List IcsEvent → IcsEvent → ℕ → ℕ → Result (List ℕ) × Budget → Expansion → Expansion
unfolding place_starts add_r_dates error_message
place_result std events e from to (err x, b) acc = skip_event e (error_message x) b acc
place_result std events e from to (ok starts, b) acc =
    place_starts std events e from to (add_r_dates e.r_dates starts b) acc

-- The starts of an event by itself: its own, or those of its rule.
unfoldable pub starts_of :
    Std → List IcsEvent → IcsEvent → ℕ → ℕ → Budget → Option (Result (List ℕ) × Budget)
unfolding expand_rule first_override
starts_of std events e from to b =
    if e.r_rule == ""
    then some (ok (e.start ∷ []), b)
    else expand_rule std e b (lower_for (first_override e.uid events none) from) to

unfoldable pub placed :
    Std
    → List IcsEvent
    → IcsEvent
    → ℕ
    → ℕ
    → Expansion
    → Option (Result (List ℕ) × Budget)
    → Option Expansion
unfolding place_result
placed std events e from to x none = none
placed std events e from to x (some r) = some (place_result std events e from to r x)

-- One event of the feed.
unfoldable pub expand_event : Std → List IcsEvent → ℕ → ℕ → IcsEvent → Expansion → Option Expansion
unfolding placed starts_of skip_event
expand_event std events from to e x =
    if is_override e
    then some x
    else if is_called_off e
    then some (skip_event e "cancelled in source" x.budget x)
    else placed std events e from to x (starts_of std events e from to (next_event x.budget))

unfoldable pub expand_each :
    Std → List IcsEvent → ℕ → ℕ → List IcsEvent → Expansion → Option Expansion
unfolding expand_event
expand_each std events from to [] x = some x
expand_each std events from to (e ∷ rest) x = elim (expand_event std events from to e x) [
  | none ↦ none
  | some x1 ↦ expand_each std events from to rest x1
]

abbrev pub sorted_occurrences : Option Expansion → Option (List Occurrence × List Skipped)
sorted_occurrences none = none
sorted_occurrences (some x) = some (sort_by (λ o. o.start) x.occurrences, x.skipped)

abbrev pub no_expansion : Expansion
no_expansion = record { occurrences = []; skipped = []; budget = new_budget }

-- Expand; the order of occurrences that start together is not fixed by the source.
unfoldable pub expand : Std → List IcsEvent → ℕ → ℕ → Option (List Occurrence × List Skipped)
unfolding expand_each sort_by
expand std events from to = sorted_occurrences (expand_each std events from to events no_expansion)
