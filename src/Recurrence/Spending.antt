-- ===== src/Recurrence/Spending.antt =====
-- What the enumeration of internal/icsimport/expand.go may spend: no step gives budget back, and
-- every start that is added was paid for.

use stattii.Base.{
  Bool-cases, List, Option, [], arith, eqb, inl, inr, is_nonzero, length, none, not, some, true, ℕ,
  ℤ, ◌++◌, ◌+◌, ◌∷◌, ◌≡◌, ◌≤◌,
}
use stattii.Recurrence.Defs.{Budget, ByDay, Rule, Zone, spend}
use stattii.Recurrence.Months.{
  DayTime, by_day_entry, clock_of, collect, date_at, every_weekday, month_candidates,
  month_day_entry, month_days, no_entries, pick_positions, raw_candidates, set_pos_entry, sorted,
}
use stattii.Recurrence.Series.{Found}

-- From `n` starts under a budget to `n'` under another.
pub record Spent (n : ℕ) (b : Budget) (n' : ℕ) (b' : Budget) : Type 0 where
  pub event_le : b'.event ≤ b.event
  pub feed_le : b'.feed ≤ b.feed
  pub event_paid : n' + b'.event ≤ n + b.event
  pub feed_paid : n' + b'.feed ≤ n + b.feed

pub Spent-refl : (n : ℕ) (b : Budget) → Spent n b n b
Spent-refl n b = omega arith

pub Spent-trans : {l m n : ℕ} {a b c : Budget} → Spent l a m b → Spent m b n c → Spent l a n c
Spent-trans h k = omega arith

pub spend-Spent : (n : ℕ) (b : Budget) → Spent n b n (spend b).1
unfolding spend
spend-Spent n b = ground arith

-- A step that was paid for lowers the event's budget, and pays for one start.
pub spend_paid :
    (n : ℕ) (b : Budget)
    → (spend b).0 ≡ true
    → ((spend b).1.event + 1 ≡ b.event) × Spent n b (n + 1) (spend b).1
unfolding spend
spend_paid n b h = ground arith

abbrev pub SpentBy : Found → Found → Type 0
SpentBy f g = Spent (length f.starts) f.budget (length g.starts) g.budget

-- A function on days that only spends.
abbrev pub Pays : Budget → Option (List ℕ) × Budget → Type 0
Pays b r = (n : ℕ) → Spent n b n r.1

every_weekday-Pays :
    (z : Zone) (y m wd : ℕ) (c : DayTime) (days cands : List ℕ) (b : Budget)
    → Pays b (every_weekday z y m wd c days cands b)
unfolding every_weekday
every_weekday-Pays z y m wd c [] cands b n = Spent-refl n b
every_weekday-Pays z y m wd c (day ∷ days) cands b n =
    let d = date_at z y m day c in
    elim (Bool-cases (eqb (z.weekday d) wd)) [
      | inl hit ↦ elim (Bool-cases (spend b).0) [
        | inl paid ↦
            rw (hit, paid)
              (Spent-trans (spend-Spent n b)
                (every_weekday-Pays z y m wd c days (cands ++ d ∷ []) (spend b).1 n))
        | inr broke ↦ rw (hit, broke) (spend-Spent n b)
      ]
      | inr miss ↦ rw miss (every_weekday-Pays z y m wd c days cands b n)
    ]

by_day_entry-Pays :
    (z : Zone) (y m : ℕ) (c : DayTime) (bd : ByDay) (cands : List ℕ) (b : Budget)
    → Pays b (by_day_entry z y m c bd cands b)
unfolding by_day_entry
by_day_entry-Pays z y m c bd cands b n = elim (Bool-cases (is_nonzero bd.ord)) [
  | inl nth ↦ rw nth (Spent-refl n b)
  | inr every ↦ rw every (every_weekday-Pays z y m bd.weekday c (month_days z y m) cands b n)
]

collect_rest-Pays {ℓ} :
    {A : Type ℓ} (entry : A → List ℕ → Budget → Option (List ℕ) × Budget) (rest : List A)
    (found : Option (List ℕ)) (b : Budget)
    → ((cands : List ℕ) → Pays b (collect entry rest cands b))
    → Pays b (elim found [ none ↦ (none, b) | some more ↦ collect entry rest more b ])
collect_rest-Pays entry rest none b h n = Spent-refl n b
collect_rest-Pays entry rest (some cands) b h n = h cands n

collect-Pays {ℓ} :
    {A : Type ℓ} (entry : A → List ℕ → Budget → Option (List ℕ) × Budget)
    → ((a : A) (cands : List ℕ) (b : Budget) → Pays b (entry a cands b))
    → (xs : List A) (cands : List ℕ) (b : Budget) → Pays b (collect entry xs cands b)
unfolding collect
collect-Pays entry h [] cands b n = Spent-refl n b
collect-Pays entry h (a ∷ rest) cands b n =
    let r = entry a cands (spend b).1 in
    elim (Bool-cases (spend b).0) [
      | inl paid ↦ rw paid (
          Spent-trans (spend-Spent n b) (
            Spent-trans (h a cands (spend b).1 n) (
              collect_rest-Pays entry rest r.0 r.1 (λ more. collect-Pays entry h rest more r.1) n)))
      | inr broke ↦ rw broke (spend-Spent n b)
    ]

raw_candidates-Pays :
    (r : Rule) (z : Zone) (anchor y m : ℕ) (b : Budget) → Pays b (raw_candidates r z anchor y m b)
unfolding raw_candidates month_day_entry
raw_candidates-Pays r z anchor y m b n =
    let c = clock_of z anchor in
    elim (Bool-cases (not (no_entries r.by_day))) [
      | inl days ↦
          rw days (collect-Pays (by_day_entry z y m c) (by_day_entry-Pays z y m c) r.by_day [] b n)
      | inr none_given ↦ rw none_given (elim (Bool-cases (not (no_entries r.by_month_day))) [
        | inl month_days_given ↦ rw month_days_given (
            collect-Pays (month_day_entry z y m c) (λ md cands b' n'. Spent-refl n' b')
              r.by_month_day [] b n)
        | inr neither ↦ rw neither (elim (Bool-cases (not (spend b).0)) [
          | inl broke ↦ rw broke (spend-Spent n b)
          | inr paid ↦ rw paid (spend-Spent n b)
        ])
      ])
    ]

sorted-Pays : (b : Budget) (r : Option (List ℕ) × Budget) → Pays b r → Pays b (sorted r)
sorted-Pays b (none, b') h n = h n
sorted-Pays b (some ts, b') h n = h n

pick_positions-Pays :
    (ps : List ℤ) (b : Budget) (r : Option (List ℕ) × Budget)
    → Pays b r
    → Pays b (pick_positions ps r)
unfolding pick_positions set_pos_entry
pick_positions-Pays ps b (none, b') h n = h n
pick_positions-Pays [] b (some cands, b') h n = h n
pick_positions-Pays (p ∷ ps) b (some cands, b') h n = Spent-trans (h n) (
    sorted-Pays b' (collect (set_pos_entry cands) (p ∷ ps) [] b')
      (collect-Pays (set_pos_entry cands) (λ q picked c m. Spent-refl m c) (p ∷ ps) [] b') n)

pub month_candidates-Pays :
    (r : Rule) (z : Zone) (anchor y m : ℕ) (b : Budget) → Pays b (month_candidates r z anchor y m b)
unfolding month_candidates
month_candidates-Pays r z anchor y m b =
    pick_positions-Pays r.by_set_pos b (sorted (raw_candidates r z anchor y m b))
      (sorted-Pays b (raw_candidates r z anchor y m b) (raw_candidates-Pays r z anchor y m b))
