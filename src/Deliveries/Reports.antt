-- ===== src/Deliveries/Reports.antt =====
-- inLastFanOut and Propagation, pruneOutboxLocked of internal/core/outbox.go, eventEnd of delete.go.

use stattii.Base.{
  Bool, List, Option, Result, String, [], count_where, eqb, err, false, if◌then◌else◌, ltb, none,
  not, not_found, ok, reject, some, true, ℕ, ◌&&◌, ◌++◌, ◌+◌, ◌-◌, ◌==◌, ◌∷◌,
}
use stattii.Model.{Event, OutboxItem, event, is_delivered, is_propagation, is_zero}
use stattii.Redaction.{shown_outbox}
use stattii.Service.{Config, OutboxState, Service, audit_locked, moment, number, outbox_state}

-- inLastFanOut
abbrev pub in_last_fan_out : Event → OutboxItem → Bool
in_last_fan_out e o =
    if not (o.event_id == e.id)
    then false
    else if not (e.fan_out_txn_id == "")
    then o.txn_id == e.fan_out_txn_id
    else is_propagation o.purpose

pub record PropagationStatus : Type 0 where
  pub event_id : String
  pub total : ℕ
  pub delivered : ℕ
  pub pending : ℕ
  pub failed : ℕ
  pub complete : Bool
  pub empty : Bool
  pub items : List OutboxItem

abbrev pub no_report : String → PropagationStatus
no_report id = record {
  event_id = id;
  total = 0;
  delivered = 0;
  pending = 0;
  failed = 0;
  complete = false;
  empty = false;
  items = [];
}

-- The switch over OutboxState.
unfoldable pub tally : OutboxState → PropagationStatus → PropagationStatus
tally OutboxState.delivered ps = record ps { delivered = ps.delivered + 1 }
tally OutboxState.failed ps = record ps { failed = ps.failed + 1 }
tally OutboxState.retrying ps = record ps { pending = ps.pending + 1 }
tally OutboxState.queued ps = record ps { pending = ps.pending + 1 }

unfoldable pub count_row : Config → OutboxItem → PropagationStatus → PropagationStatus
unfolding tally outbox_state
count_row cfg o ps =
    tally (outbox_state cfg o) (record ps { total = ps.total + 1; items = ps.items ++ o ∷ [] })

-- The loop over the outbox.
unfoldable pub count_rows : Config → Event → List OutboxItem → PropagationStatus → PropagationStatus
unfolding count_row
count_rows cfg e [] ps = ps
count_rows cfg e (o ∷ rest) ps =
    count_rows cfg e rest (if in_last_fan_out e o then count_row cfg o ps else ps)

unfoldable pub finish_report : Service → Event → PropagationStatus → PropagationStatus
finish_report w e ps = record ps {
  empty = not (is_zero e.fan_out_at) && eqb e.fan_out_count 0 && eqb ps.total 0;
  complete = ltb 0 ps.total && eqb ps.delivered ps.total;
  items = shown_outbox w.env ps.items;
}

unfoldable pub report_found : Option Event → Service → Result PropagationStatus
unfolding count_rows finish_report
report_found none w = err not_found
report_found (some e) w = ok (finish_report w e (count_rows w.cfg e w.outbox (no_report e.id)))

-- Propagation
unfoldable pub propagation : String → Service → Result PropagationStatus
unfolding report_found
propagation event_id w = report_found (event w.tables event_id) w

-- eventEnd
abbrev pub event_end : Event → ℕ
event_end e = if is_zero e.ends_at then e.starts_at else e.ends_at

-- `end.After(now.Add(-retention))`
abbrev pub recent : ℕ → ℕ → ℕ → Bool
recent now retention t = ltb now (t + retention)

abbrev pub recent_event : ℕ → ℕ → Option Event → Bool
recent_event now retention none = false
recent_event now retention (some e) = recent now retention (event_end e)

-- A row that is not kept: delivered, and both it and its event lie behind the cutoff.
abbrev pub prunable : ℕ → Service → OutboxItem → Bool
prunable now w o =
    is_delivered o
    && not (recent now w.cfg.outbox_retention o.delivered_at)
    && not (recent_event now w.cfg.outbox_retention (event w.tables o.event_id))

-- pruneOutboxLocked; the cutoff in the audit line is the time less the retention.
unfoldable pub prune_outbox_locked : ℕ → Service → Bool × Service
prune_outbox_locked now w =
    let n = count_where (prunable now w) w.outbox in
    if eqb n 0 then (false, w) else (
      true,
      audit_locked "outbox.pruned"
          (("count", number n) ∷ ("cutoff", moment (now - w.cfg.outbox_retention)) ∷ [])
          (record w { outbox = reject (prunable now w) w.outbox }),
    )
