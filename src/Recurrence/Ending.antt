-- ===== src/Recurrence/Ending.antt =====
-- expandRule of internal/icsimport/expand.go ends for any rule, and what it then holds.

use stattii.Base.{
  All, Bool, List, Option, Result, [], ap, arith, eqb, err, false, if◌then◌else◌, leb, length, ok,
  refl, some, subst, suc, true, ℕ, ◌+◌, ◌-◌, ◌/◌, ◌==◌, ◌||◌, ◌≡◌, ◌≤◌,
}
use stattii.Recurrence.Defs.{Budget, IcsEvent, Rule, Std, days_between}
use stattii.Recurrence.Rounds.{
  Ended, daily-Good, monthly-Good, room_capped, rounds-Ended, weekly-Good, yearly-Good,
}
use stattii.Recurrence.Rule.{parse_rule}
use stattii.Recurrence.Series.{
  Found, Series, daily, enumerate, enumerated, err_budget, expand_parsed, expand_rule, monthly,
  series_end, series_of, weekly, yearly,
}
use stattii.Recurrence.Spending.{Spent-refl}

if-Ended :
    (s : Series) (f : Found) (test : Bool) (a b : Option Found)
    → Ended s f a
    → Ended s f b
    → Ended s f (if test then a else b)
if-Ended s f true a b h k = h
if-Ended s f false a b h k = k

abbrev nothing_found : Budget → Found
nothing_found b = record { starts = []; budget = b }

enumerate-Ended : (s : Series) (b : Budget) → Ended s (nothing_found b) (enumerate s b)
unfolding enumerate
enumerate-Ended s b =
    let f = nothing_found b in
    let by_days = days_between s.zone s.anchor s.lower in
    if-Ended s f (s.rule.freq == "DAILY") _ _
      (rounds-Ended s (daily s) (λ i. i + 1) (daily-Good s) (suc b.event)
        (by_days / s.rule.interval - 1) f (omega arith))
      (if-Ended s f (s.rule.freq == "WEEKLY") _ _
        (rounds-Ended s (weekly s) (λ i. i + 1) (weekly-Good s) (suc b.event) (by_days - 7) f
          (omega arith))
        (if-Ended s f (s.rule.freq == "MONTHLY") _ _
          (rounds-Ended s (monthly s) (λ i. i + s.rule.interval) (monthly-Good s) (suc b.event) 0 f
            (omega arith))
          (if-Ended s f (s.rule.freq == "YEARLY") _ _
            (rounds-Ended s (yearly s) (λ i. i + s.rule.interval) (yearly-Good s) (suc b.event)
              (s.zone.year s.anchor) f (omega arith))
            (record {
              result = f;
              found = refl;
              spent = Spent-refl 0 b;
              span = λ a. a;
              capped = λ o. room_capped s f o;
            }))))

-- The starts of a series: within its span, and as many as COUNT and the budget allow.
pub record Bounded (r : Rule) (e : IcsEvent) (b : Budget) (window_end : ℕ) (starts : List ℕ)
    : Type 0 where
  pub span : All (λ t. (e.start ≤ t) × (t ≤ series_end r window_end)) starts
  pub counted : (eqb r.count 0 || leb (length starts) r.count) ≡ true
  pub few : length starts ≤ b.event

abbrev pub BoundedResult : Result Rule → IcsEvent → Budget → ℕ → Result (List ℕ) → Type 0
BoundedResult (err x) e b window_end q = q ≡ err x
BoundedResult (ok r) e b window_end (err x) = x ≡ err_budget
BoundedResult (ok r) e b window_end (ok starts) = Bounded r e b window_end starts

-- What expandRule leaves: a result, and a budget that paid for it.
pub record Settled (parsed : Result Rule) (e : IcsEvent) (b : Budget) (window_end : ℕ)
    (r : Option (Result (List ℕ) × Budget)) : Type 0 where
  pub result : Result (List ℕ)
  pub budget : Budget
  pub found : r ≡ some (result, budget)
  pub bounded : BoundedResult parsed e b window_end result
  pub paid : (starts : List ℕ) → result ≡ ok starts → length starts + budget.feed ≤ b.feed
  pub feed_le : budget.feed ≤ b.feed

hit-Bounded :
    (r : Rule) (e : IcsEvent) (b : Budget) (window_end : ℕ) (hit : Bool) (starts : List ℕ)
    → Bounded r e b window_end starts
    → BoundedResult (ok r) e b window_end (if hit then err err_budget else ok starts)
hit-Bounded r e b window_end true starts h = refl
hit-Bounded r e b window_end false starts h = h

hit-ok :
    (hit : Bool) (found starts : List ℕ)
    → (if hit then err err_budget else ok found) ≡ ok starts
    → found ≡ starts
hit-ok true found starts h = absurd (ground arith)
hit-ok false found starts h = cc

expand_parsed-Settled :
    (parsed : Result Rule) (e : IcsEvent) (b : Budget) (window_start window_end : ℕ)
    → Settled parsed e b window_end (expand_parsed parsed e b window_start window_end)
unfolding expand_parsed
expand_parsed-Settled (err x) e b window_start window_end = record {
  result = err x;
  budget = b;
  found = refl;
  bounded = refl;
  paid = λ starts h. absurd (ground arith);
  feed_le = omega arith;
}
expand_parsed-Settled (ok r) e b window_start window_end =
    let s = series_of r e window_start window_end in
    let done = enumerate-Ended s b in
    let hit = done.result.budget.hit in
    record {
      result = if hit then err err_budget else ok done.result.starts;
      budget = done.result.budget;
      found = ap enumerated done.found;
      bounded = hit-Bounded r e b window_end hit done.result.starts (record {
        span = done.span tt;
        counted = done.capped (ground arith);
        few = omega (arith, done.spent);
      });
      paid = λ starts h.
          subst (λ xs. length xs + done.result.budget.feed ≤ b.feed)
            (hit-ok hit done.result.starts starts h) (omega (arith, done.spent));
      feed_le = omega (arith, done.spent);
    }

-- Whatever the rule says and whatever the calendar answers, expandRule ends with a result: the error
-- of a rule that does not parse, the budget's error, or starts of which each lies between the
-- event's own start and the window's end or UNTIL, in number at most COUNT, where there is one, and
-- at most the budget, which paid for every one of them.
pub expand_rule-Settled :
    (std : Std) (e : IcsEvent) (b : Budget) (window_start window_end : ℕ)
    → Settled
        (parse_rule std e.r_rule e.zone)
        e
        b
        window_end
        (expand_rule std e b window_start window_end)
unfolding expand_rule
expand_rule-Settled std e b window_start window_end =
    expand_parsed-Settled (parse_rule std e.r_rule e.zone) e b window_start window_end
