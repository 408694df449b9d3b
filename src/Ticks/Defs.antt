-- ===== src/Ticks/Defs.antt =====
-- tickLocked and Tick of internal/core/outbox.go, which scheduler.go calls at every interval.

use stattii.Base.{Bool, List, Option, if◌then◌else◌, none, ℕ, ◌||◌}
use stattii.Deliveries.{
  OutboxAttempt, collect_outbox_locked, deliver, prune_outbox_locked, record_deliveries,
}
use stattii.Redaction.{SendError}
use stattii.Scheduler.{
  note_channel_problems_locked, tick_deadlines_locked, tick_nudges_locked, tick_reminders_locked,
}
use stattii.Service.{Service, save_locked}

abbrev pub save_changed : Bool → Service → Service
save_changed changed w = if changed then save_locked w else w

-- tickLocked
unfoldable pub tick_locked : ℕ → Service → List OutboxAttempt × Service
unfolding note_channel_problems_locked tick_reminders_locked tick_nudges_locked
    tick_deadlines_locked collect_outbox_locked prune_outbox_locked
tick_locked now w =
    let (scan, w1) = note_channel_problems_locked w in
    let (reminded, w2) = tick_reminders_locked now w1 in
    let (nudged, w3) = tick_nudges_locked now w2 in
    let (fired, w4) = tick_deadlines_locked now w3 in
    let ((attempts, escalated), w5) = collect_outbox_locked now none w4 in
    let (pruned, w6) = prune_outbox_locked now w5 in
    (attempts, save_changed (scan || reminded || nudged || fired || escalated || pruned) w6)

-- Tick: the locked half, the sends without the lock, and the booking.
unfoldable pub tick : ℕ → (OutboxAttempt → Option SendError) → Service → Service
unfolding tick_locked deliver record_deliveries
tick now send w =
    let (attempts, w1) = tick_locked now w in record_deliveries now (deliver send attempts) w1
