-- ===== src/Deliveries/Accounting.antt =====
-- What Propagation promises of its report.

use stattii.Base.{
  Bool, Bool-cases, List, Option, Result, String, [], arith, count_where, eqb, err, false,
  if◌then◌else◌, inl, inr, leb, ltb, none, not, not_found, ok, refl, some, suc, true, ◌&&◌, ◌++◌,
  ◌+◌, ◌∷◌, ◌≡◌,
}
use stattii.Deliveries.Reports.{
  PropagationStatus, count_row, count_rows, finish_report, in_last_fan_out, no_report, propagation,
  report_found, tally,
}
use stattii.Model.{Event, OutboxItem, event, is_delivered}
use stattii.Service.{Config, OutboxState, Service, outbox_state}

abbrev pub arrived : Event → OutboxItem → Bool
arrived e o = in_last_fan_out e o && is_delivered o

abbrev pub outstanding : Event → OutboxItem → Bool
outstanding e o = in_last_fan_out e o && not (is_delivered o)

-- A report that accounts for the outbox row by row.
pub record Accounts (w : Service) (e : Event) (ps : PropagationStatus) : Type 0 where
  pub total : ps.total ≡ count_where (in_last_fan_out e) w.outbox
  pub delivered : ps.delivered ≡ count_where (arrived e) w.outbox
  pub sum : ps.delivered + ps.pending + ps.failed ≡ ps.total
  pub complete : ps.complete ≡ (
      ltb 0 (count_where (in_last_fan_out e) w.outbox)
      && eqb (count_where (outstanding e) w.outbox) 0)
  pub alarm : (ps.empty && ps.complete) ≡ false

abbrev pub Reports : Option Event → Service → Result PropagationStatus → Type 0
Reports none w r = r ≡ err not_found
Reports (some e) w r = (ps : PropagationStatus) × (r ≡ ok ps) × Accounts w e ps

module _ (cfg : Config) (e : Event) where
  tally-total : (s : OutboxState) (ps : PropagationStatus) → (tally s ps).total ≡ ps.total
  unfolding tally
  tally-total OutboxState.delivered ps = refl
  tally-total OutboxState.failed ps = refl
  tally-total OutboxState.retrying ps = refl
  tally-total OutboxState.queued ps = refl

  tally-sum :
      (s : OutboxState) (ps : PropagationStatus)
      → (tally s ps).delivered + (tally s ps).pending + (tally s ps).failed
        ≡ suc (ps.delivered + ps.pending + ps.failed)
  unfolding tally
  tally-sum OutboxState.delivered ps = omega arith
  tally-sum OutboxState.failed ps = omega arith
  tally-sum OutboxState.retrying ps = omega arith
  tally-sum OutboxState.queued ps = omega arith

  tally-delivered :
      (o : OutboxItem) (ps : PropagationStatus)
      → (tally (outbox_state cfg o) ps).delivered
        ≡ (if is_delivered o then suc ps.delivered else ps.delivered)
  unfolding tally outbox_state
  tally-delivered o ps = elim (Bool-cases (is_delivered o)) [
    | inl d ↦ rw (d, outbox_state) (omega arith)
    | inr d ↦
        rw (d, outbox_state)
          (elim (Bool-cases (leb cfg.max_attempts o.attempts)) [
            | inl f ↦ rw f refl
            | inr f ↦
                rw f
                  (elim (Bool-cases (ltb 0 o.attempts)) [ inl g ↦ rw g refl | inr g ↦ rw g refl ])
          ])
  ]

  -- What the loop adds to the report that it starts from.
  record Adds (os : List OutboxItem) (before after : PropagationStatus) : Type 0 where
    total : after.total ≡ before.total + count_where (in_last_fan_out e) os
    delivered : after.delivered ≡ before.delivered + count_where (arrived e) os
    sum :
        after.delivered + after.pending + after.failed
        ≡ before.delivered + before.pending + before.failed + count_where (in_last_fan_out e) os

  Adds-skip :
      (o : OutboxItem) (os : List OutboxItem) {before after : PropagationStatus}
      → in_last_fan_out e o ≡ false
      → Adds os before after
      → Adds (o ∷ os) before after
  Adds-skip o os h a = record {
    total = rw h a.total;
    delivered = rw h a.delivered;
    sum = rw h a.sum;
  }

  Adds-row :
      (o : OutboxItem) (os : List OutboxItem) (ps after : PropagationStatus)
      → in_last_fan_out e o ≡ true
      → Adds os (count_row cfg o ps) after
      → Adds (o ∷ os) ps after
  unfolding count_row
  Adds-row o os ps after h a =
      let one = record ps { total = ps.total + 1; items = ps.items ++ o ∷ [] } in
      record {
        total = rw h (omega (arith, a.total, tally-total (outbox_state cfg o) one));
        delivered = rw h (ground (arith, a.delivered, tally-delivered o one));
        sum = rw h (omega (arith, a.sum, tally-sum (outbox_state cfg o) one));
      }

  count_rows-Adds :
      (os : List OutboxItem) (ps : PropagationStatus) → Adds os ps (count_rows cfg e os ps)
  unfolding count_rows
  count_rows-Adds [] ps = record { total = omega arith; delivered = omega arith; sum = omega arith }
  count_rows-Adds (o ∷ os) ps = elim (Bool-cases (in_last_fan_out e o)) [
    | inl h ↦ rw (h, count_rows) (Adds-row o os ps _ h (count_rows-Adds os (count_row cfg o ps)))
    | inr h ↦ rw (h, count_rows) (Adds-skip o os h (count_rows-Adds os ps))
  ]

count_where-split :
    (p q : OutboxItem → Bool) (os : List OutboxItem)
    → count_where (λ o. p o && q o) os + count_where (λ o. p o && not (q o)) os ≡ count_where p os
count_where-split p q [] = refl
count_where-split p q (o ∷ os) = ground (arith, count_where-split p q os)

finish-Accounts :
    (w : Service) (e : Event)
    → Accounts w e (finish_report w e (count_rows w.cfg e w.outbox (no_report e.id)))
unfolding finish_report
finish-Accounts w e =
    let a = count_rows-Adds w.cfg e w.outbox (no_report e.id) in
    let split = count_where-split (in_last_fan_out e) is_delivered w.outbox in
    record {
      total = omega (arith, a.total);
      delivered = omega (arith, a.delivered);
      sum = omega (arith, a.sum, a.total);
      complete = ground (arith, a.total, a.delivered, split);
      alarm = ground (arith);
    }

report_found-Reports : (found : Option Event) (w : Service) → Reports found w (report_found found w)
unfolding report_found
report_found-Reports none w = refl
report_found-Reports (some e) w = (_, refl, finish-Accounts w e)

-- The report of a known event counts exactly the rows of its latest transaction: the three states
-- add up to the total, it is complete where there are rows and all of them are delivered, and it is
-- never both empty and complete. An unknown event is not found.
pub propagation-Reports :
    (event_id : String) (w : Service) → Reports (event w.tables event_id) w (propagation event_id w)
unfolding propagation
propagation-Reports event_id w = report_found-Reports (event w.tables event_id) w
