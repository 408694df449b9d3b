-- ===== src/Lifecycle/Fields.antt =====
-- What cancelLocked, moveLocked and ReinstateEvent leave in the row of the event, field by field.

use stattii.Base.{String, if◌then◌else◌, refl, subst, suc, sym, ℕ, ◌==◌, ◌≡◌}
use stattii.Lifecycle.Changes.{cancelled_row}
use stattii.Lifecycle.Moves.{moved_row, reinstated_row}
use stattii.Model.{Event, EventStatus}

-- The fields that no flip touches.
pub record SameOrigin (e row : Event) : Type 0 where
  pub id : row.id ≡ e.id
  pub title : row.title ≡ e.title
  pub location : row.location ≡ e.location
  pub if_unconfirmed : row.if_unconfirmed ≡ e.if_unconfirmed
  pub created_at : row.created_at ≡ e.created_at
  pub source_uid : row.source_uid ≡ e.source_uid
  pub source_key : row.source_key ≡ e.source_key
  pub vanished_at : row.vanished_at ≡ e.vanished_at
  pub seq : row.seq ≡ suc e.seq

-- The confirmation cycle starts again: no reminder, nudge, deadline or page has gone out.
pub record Restarted (row : Event) : Type 0 where
  pub reminder : row.reminder_sent_at ≡ 0
  pub nudge : row.nudge_sent_at ≡ 0
  pub deadline : row.deadline_fired_at ≡ 0
  pub unreachable : row.unreachable_notified_at ≡ 0

pub record Cancelled (e : Event) (reason : String) (now : ℕ) (row : Event) : Type 0 where
  pub status : row.status ≡ EventStatus.cancelled
  pub cancel_reason : row.cancel_reason ≡ reason
  pub cancelled_at : row.cancelled_at ≡ now
  pub starts_at : row.starts_at ≡ e.starts_at
  pub ends_at : row.ends_at ≡ e.ends_at
  pub note : row.note ≡ e.note
  pub same : SameOrigin e row

-- An empty note keeps the one that is there.
pub record Moved (e : Event) (start end : ℕ) (note : String) (row : Event) : Type 0 where
  pub status : row.status ≡ EventStatus.scheduled
  pub starts_at : row.starts_at ≡ start
  pub ends_at : row.ends_at ≡ end
  pub noted : row.note ≡ (if note == "" then e.note else note)
  pub cancel_reason : row.cancel_reason ≡ e.cancel_reason
  pub cancelled_at : row.cancelled_at ≡ e.cancelled_at
  pub restarted : Restarted row
  pub same : SameOrigin e row

pub record Reinstated (e row : Event) : Type 0 where
  pub status : row.status ≡ EventStatus.scheduled
  pub cancel_reason : row.cancel_reason ≡ ""
  pub cancelled_at : row.cancelled_at ≡ 0
  pub starts_at : row.starts_at ≡ e.starts_at
  pub ends_at : row.ends_at ≡ e.ends_at
  pub note : row.note ≡ e.note
  pub restarted : Restarted row
  pub same : SameOrigin e row

-- The row with the record of its fan-out.
abbrev pub with_fan_out : ℕ → ℕ → String → Event → Event
with_fan_out at count txn e = record e {
  fan_out_at = at;
  fan_out_count = count;
  fan_out_txn_id = txn;
}

pub cancelled_row-Cancelled :
    (e row : Event) (reason : String) (now at count : ℕ) (txn : String)
    → row ≡ with_fan_out at count txn (cancelled_row e reason now)
    → Cancelled e reason now row
unfolding cancelled_row
cancelled_row-Cancelled e row reason now at count txn h =
    subst (λ r. Cancelled e reason now r) (sym h)
      (record {
        status = refl;
        cancel_reason = refl;
        cancelled_at = refl;
        starts_at = refl;
        ends_at = refl;
        note = refl;
        same = record {
          id = refl;
          title = refl;
          location = refl;
          if_unconfirmed = refl;
          created_at = refl;
          source_uid = refl;
          source_key = refl;
          vanished_at = refl;
          seq = refl;
        };
      })

pub moved_row-Moved :
    (e row : Event) (start end : ℕ) (note : String) (at count : ℕ) (txn : String)
    → row ≡ with_fan_out at count txn (moved_row e start end note)
    → Moved e start end note row
unfolding moved_row
moved_row-Moved e row start end note at count txn h =
    subst (λ r. Moved e start end note r) (sym h)
      (record {
        status = refl;
        starts_at = refl;
        ends_at = refl;
        noted = refl;
        cancel_reason = refl;
        cancelled_at = refl;
        restarted = record { reminder = refl; nudge = refl; deadline = refl; unreachable = refl };
        same = record {
          id = refl;
          title = refl;
          location = refl;
          if_unconfirmed = refl;
          created_at = refl;
          source_uid = refl;
          source_key = refl;
          vanished_at = refl;
          seq = refl;
        };
      })

pub reinstated_row-Reinstated :
    (e row : Event) (at count : ℕ) (txn : String)
    → row ≡ with_fan_out at count txn (reinstated_row e)
    → Reinstated e row
unfolding reinstated_row
reinstated_row-Reinstated e row at count txn h =
    subst (λ r. Reinstated e r) (sym h)
      (record {
        status = refl;
        cancel_reason = refl;
        cancelled_at = refl;
        starts_at = refl;
        ends_at = refl;
        note = refl;
        restarted = record { reminder = refl; nudge = refl; deadline = refl; unreachable = refl };
        same = record {
          id = refl;
          title = refl;
          location = refl;
          if_unconfirmed = refl;
          created_at = refl;
          source_uid = refl;
          source_key = refl;
          vanished_at = refl;
          seq = refl;
        };
      })
