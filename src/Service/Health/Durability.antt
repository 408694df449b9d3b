-- ===== src/Service/Health/Durability.antt =====
-- What saveLocked leaves on disk or on record.

use stattii.Base.{Bool-cases, Option, String, inl, inr, none, refl, some, suc, true, zero, ℕ, ◌≡◌}
use stattii.Model.{Address}
use stattii.Service.Defs.{Fields, Service, State}
use stattii.Service.Store.{
  Audit, Bit, audit_bit, audit_fuel, audit_locked, audited, enqueue_locked, note_with,
  notify_target, notify_with, persist_healthy, save_bit, save_locked, saved, set_bit,
}

-- The state that a save writes.
abbrev pub memory : Service → State
memory w = record { tables = w.tables; outbox = w.outbox }

-- What is acknowledged is on disk, or PersistHealthy reports otherwise.
pub data Durable (w : Service) : Type 0 where
  on_disk : w.disk ≡ some (memory w) → Durable w
  reported : w.save_failed ≡ true → Durable w

-- An audit never clears the bit of a failed save.
abbrev KeepsSaveBit : Audit → Type 0
KeepsSaveBit audit =
    (kind : String) (fields : Fields) (w : Service)
    → w.save_failed ≡ true
    → (audit kind fields w).save_failed ≡ true

module _ (audit : Audit) (h : KeepsSaveBit audit) where
  notify_target_save :
      (subject body : String) (a : Option Address) (w : Service)
      → w.save_failed ≡ true
      → (notify_target audit subject body a w).save_failed ≡ true
  unfolding notify_target enqueue_locked
  notify_target_save subject body none w k = h _ _ w k
  notify_target_save subject body (some a) w k = k

  note_with_save :
      (what error : String) (b : Bit) (w : Service)
      → (set_bit b w).save_failed ≡ true
      → (note_with audit b what error w).save_failed ≡ true
  unfolding note_with notify_with
  note_with_save what error b w k = elim (Bool-cases (persist_healthy w)) [
    | inl e ↦ rw (e, note_with) (notify_target_save _ _ _ (set_bit b w) k)
    | inr e ↦ rw (e, note_with) k
  ]

  audited_save :
      (answer : Option String) (kind : String) (fields : Fields) (w : Service)
      → w.save_failed ≡ true
      → (audited audit answer kind fields w).save_failed ≡ true
  unfolding audited
  audited_save none kind fields w k = k
  audited_save (some error) kind fields w k =
      note_with_save "audit write failed" error audit_bit w (unfold set_bit in k)

audit_fuel_save : (fuel : ℕ) → KeepsSaveBit (audit_fuel fuel)
unfolding audit_fuel
audit_fuel_save zero kind fields w k = k
audit_fuel_save (suc fuel) kind fields w k =
    audited_save (audit_fuel fuel) (audit_fuel_save fuel) (w.env.audit_result w.audits) kind fields
      (record w { audits = suc w.audits }) k

saved-Durable : (answer : Option String) (w : Service) → Durable (saved answer w)
unfolding saved
saved-Durable none w = on_disk refl
saved-Durable (some error) w = reported (
    note_with_save audit_locked (unfold audit_locked in audit_fuel_save 2) "state persist failed"
      error save_bit w (unfold set_bit in refl))

-- After saveLocked the disk holds the state in memory, or the failure is on record.
pub save-Durable : (w : Service) → Durable (save_locked w)
unfolding save_locked
save-Durable w = saved-Durable (w.env.save_result w.saves) (record w { saves = suc w.saves })
