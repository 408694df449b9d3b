-- ===== src/Recurrence/Rounds.antt =====
-- The loops of expandRule of internal/icsimport/expand.go: they end, they pay for what they add, and
-- what they add lies between the anchor and the end.

use stattii.Base.{
  All, All-append, Bool, Bool-cases, List, Option, [], arith, eqb, false, if◌then◌else◌, inl, inr,
  leb, length, length-append, ltb, none, not, refl, some, suc, true, zero, ℕ, ◌%◌, ◌*◌, ◌+◌, ◌-◌,
  ◌/◌, ◌<◌, ◌||◌, ◌∷◌, ◌≡◌, ◌≤◌,
}
use stattii.Recurrence.Defs.{Budget, spend}
use stattii.Recurrence.Months.{month_candidates}
use stattii.Recurrence.Series.{
  Found, Round, Series, add_candidates, add_each, add_month, add_months, add_start, daily,
  day_after, monthly, months_of, on_day, rounds, week_of, weekly, yearly,
}
use stattii.Recurrence.Spending.{
  Pays, Spent, Spent-refl, Spent-trans, SpentBy, month_candidates-Pays, spend-Spent, spend_paid,
}

-- A start that belongs to the series.
abbrev pub InSpan : Series → ℕ → Type 0
InSpan s t = (s.anchor ≤ t) × (t ≤ s.end)

-- COUNT is not reached, or there is none.
abbrev pub has_room : Series → Found → Bool
has_room s f = eqb s.rule.count 0 || ltb (length f.starts) s.rule.count

-- COUNT is not passed, or there is none.
abbrev pub is_capped : Series → Found → Bool
is_capped s f = eqb s.rule.count 0 || leb (length f.starts) s.rule.count

pub record Good (s : Series) (f : Found) (r : Bool × Found) : Type 0 where
  pub spent : SpentBy f r.1
  pub span : All (InSpan s) f.starts → All (InSpan s) r.1.starts
  pub room : r.0 ≡ true → has_room s f ≡ true → has_room s r.1 ≡ true
  pub capped : has_room s f ≡ true → is_capped s r.1 ≡ true

pub room_capped : (s : Series) (f : Found) → has_room s f ≡ true → is_capped s f ≡ true
room_capped s f h = ground arith

-- Nothing added.
idle-Good :
    (s : Series) (f : Found) (more : Bool) (b : Budget)
    → Spent (length f.starts) f.budget (length f.starts) b
    → Good s f (more, record f { budget = b })
idle-Good s f more b h = record {
  spent = h;
  span = λ a. a;
  room = λ e r. r;
  capped = λ r. room_capped s f r;
}

Good-trans :
    (s : Series) (f : Found) (r : Bool × Found) (q : Bool × Found)
    → Good s f r
    → r.0 ≡ true
    → Good s r.1 q
    → Good s f q
Good-trans s f r q h e k = record {
  spent = Spent-trans h.spent k.spent;
  span = λ a. k.span (h.span a);
  room = λ m o. k.room m (h.room e o);
  capped = λ o. k.capped (h.room e o);
}

add_start-Good : (s : Series) (t : ℕ) (f : Found) → Good s f (add_start s t f)
unfolding add_start
add_start-Good s t f = elim (Bool-cases (not (spend f.budget).0)) [
  | inl broke ↦
      rw (broke, add_start)
        (idle-Good s f false (spend f.budget).1 (spend-Spent (length f.starts) f.budget))
  | inr paid ↦ elim (Bool-cases (ltb t s.anchor || ltb s.end t)) [
    | inl outside ↦
        rw (paid, outside, add_start)
          (idle-Good s f true (spend f.budget).1 (spend-Spent (length f.starts) f.budget))
    | inr inside ↦
        rw (paid, inside, add_start)
          (record {
            spent =
                let p = spend_paid (length f.starts) f.budget (ground arith) in
                rw length-append (omega (arith, p.1));
            span =
                λ a. All-append (InSpan s) f.starts (t ∷ []) a ((ground arith, ground arith), tt);
            room = λ e r. rw length-append e;
            capped = λ r. rw length-append (ground arith);
          })
  ]
]

same-Good : (s : Series) (f : Found) (more : Bool) → Good s f (more, f)
same-Good s f more = idle-Good s f more f.budget (Spent-refl (length f.starts) f.budget)

-- A round that branches.
if-Good :
    (s : Series) (f : Found) (test : Bool) (a b : Bool × Found)
    → Good s f a
    → Good s f b
    → Good s f (if test then a else b)
if-Good s f true a b h k = h
if-Good s f false a b h k = k

-- A loop that goes on only where its step says so.
then-Good :
    (s : Series) (f : Found) (r q : Bool × Found)
    → Good s f r
    → Good s r.1 q
    → Good s f (if r.0 then q else (false, r.1))
then-Good s f r q h k = elim (Bool-cases r.0) [
  | inl more ↦ rw more (Good-trans s f r q h more k)
  | inr stop ↦
      rw stop (record { spent = h.spent; span = h.span; room = λ e o. cc; capped = h.capped })
]

add_each-Good : (s : Series) (ds : List ℕ) (f : Found) → Good s f (add_each s ds f)
unfolding add_each
add_each-Good s [] f = same-Good s f true
add_each-Good s (d ∷ ds) f =
    then-Good s f (add_start s d f) (add_each s ds (add_start s d f).1) (add_start-Good s d f)
      (add_each-Good s ds (add_start s d f).1)

pub daily-Good : (s : Series) (i : ℕ) (f : Found) → Good s f (daily s i f)
unfolding daily
daily-Good s i f =
    let d = day_after s (i * s.rule.interval) in
    if-Good s f (ltb s.end d) (false, f) (add_start s d f) (same-Good s f false)
      (add_start-Good s d f)

pub weekly-Good : (s : Series) (n : ℕ) (f : Found) → Good s f (weekly s n f)
unfolding weekly
weekly-Good s n f =
    let d = day_after s n in
    let off = not (eqb (week_of s d % s.rule.interval) 0) || not (on_day s (s.zone.weekday d)) in
    if-Good s f (ltb s.end d) (false, f) (if off then (true, f) else add_start s d f)
      (same-Good s f false)
      (if-Good s f off (true, f) (add_start s d f) (same-Good s f true) (add_start-Good s d f))

add_candidates-Good :
    (s : Series) (f : Found) (r : Option (List ℕ) × Budget)
    → Pays f.budget r
    → Good s f (add_candidates s r f.starts)
unfolding add_candidates
add_candidates-Good s f (none, b) h = idle-Good s f false b (h (length f.starts))
add_candidates-Good s f (some cands, b) h =
    let g : Found = record f { budget = b } in
    Good-trans s f (true, g) (add_each s cands g) (idle-Good s f true b (h (length f.starts))) refl
      (add_each-Good s cands g)

add_month-Good : (s : Series) (y m : ℕ) (f : Found) → Good s f (add_month s y m f)
unfolding add_month
add_month-Good s y m f =
    add_candidates-Good s f (month_candidates s.rule s.zone s.anchor y m f.budget)
      (month_candidates-Pays s.rule s.zone s.anchor y m f.budget)

pub monthly-Good : (s : Series) (i : ℕ) (f : Found) → Good s f (monthly s i f)
unfolding monthly
monthly-Good s i f =
    let y = s.zone.year s.anchor + (s.zone.month s.anchor - 1 + i) / 12 in
    let m = (s.zone.month s.anchor - 1 + i) % 12 + 1 in
    if-Good s f (ltb s.end (s.zone.date y m 1 0 0 0)) (false, f) (add_month s y m f)
      (same-Good s f false) (add_month-Good s y m f)

add_months-Good : (s : Series) (y : ℕ) (ms : List ℕ) (f : Found) → Good s f (add_months s y ms f)
unfolding add_months
add_months-Good s y [] f = same-Good s f true
add_months-Good s y (m ∷ ms) f =
    then-Good s f (add_month s y m f) (add_months s y ms (add_month s y m f).1)
      (add_month-Good s y m f) (add_months-Good s y ms (add_month s y m f).1)

pub yearly-Good : (s : Series) (y : ℕ) (f : Found) → Good s f (yearly s y f)
unfolding yearly
yearly-Good s y f =
    if-Good s f (ltb s.end (s.zone.date y 1 1 0 0 0)) (false, f) (add_months s y (months_of s) f)
      (same-Good s f false) (add_months-Good s y (months_of s) f)

-- A loop that ended, and what it found.
pub record Ended (s : Series) (f : Found) (r : Option Found) : Type 0 where
  pub result : Found
  pub found : r ≡ some result
  pub spent : SpentBy f result
  pub span : All (InSpan s) f.starts → All (InSpan s) result.starts
  pub capped : has_room s f ≡ true → is_capped s result ≡ true

-- A loop ends where its fuel is above the event's budget: each round spends a step.
pub rounds-Ended :
    (s : Series) (body : Round) (next : ℕ → ℕ)
    → ((i : ℕ) (f : Found) → Good s f (body i f))
    → (fuel i : ℕ) (f : Found) → f.budget.event < fuel
    → Ended s f (rounds fuel body next i f)
unfolding rounds
rounds-Ended s body next good zero i f h = absurd (omega arith)
rounds-Ended s body next good (suc fuel) i f h =
    let f1 : Found = record f { budget = (spend f.budget).1 } in
    let r = body i f1 in
    elim (Bool-cases (not (spend f.budget).0)) [
      | inl broke ↦
          rw (broke, rounds)
            (record {
              result = f1;
              found = refl;
              spent = spend-Spent (length f.starts) f.budget;
              span = λ a. a;
              capped = λ o. room_capped s f o;
            })
      | inr paid ↦
          let lower = (spend_paid (length f.starts) f.budget (ground arith)).0 in
          let one = good i f1 in
          elim (Bool-cases r.0) [
            | inl more ↦
                let rest =
                  rounds-Ended s body next good fuel (next i) r.1 (omega (arith, one.spent)) in
                rw (paid, more, rounds)
                  (record {
                    result = rest.result;
                    found = rest.found;
                    spent =
                        Spent-trans (spend-Spent (length f.starts) f.budget)
                          (Spent-trans one.spent rest.spent);
                    span = λ a. rest.span (one.span a);
                    capped = λ o. rest.capped (one.room more o);
                  })
            | inr stop ↦
                rw (paid, stop, rounds)
                  (record {
                    result = r.1;
                    found = refl;
                    spent = Spent-trans (spend-Spent (length f.starts) f.budget) one.spent;
                    span = one.span;
                    capped = one.capped;
                  })
          ]
    ]
