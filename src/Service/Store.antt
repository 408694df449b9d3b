-- ===== src/Service/Store.antt =====
-- saveLocked, auditLocked and noteStoreFailureLocked of service.go, notifyAdminLocked and
-- enqueueLocked of outbox.go. An audit that fails pages the admin, and a page without a target is
-- audited again: the recursion runs on fuel, and `Service.Health` shows that two levels are enough.

use stattii.Base.{
  Bool, Option, String, [], concat, false, if◌then◌else◌, none, not, some, suc, true, zero, ℕ, ◌&&◌,
  ◌++◌, ◌∷◌,
}
use stattii.Model.{Address, OutboxItem, Purpose, escalation}
use stattii.Service.Defs.{AuditEntry, Fields, Service, new_id, text}

-- A message with every optional field at its zero value.
abbrev pub mail : Purpose → String → String → String → String → OutboxItem
mail purpose kind to subject body = record {
  id = "";
  event_id = "";
  person_id = "";
  guest_id = "";
  purpose = purpose;
  txn_id = "";
  kind = kind;
  to = to;
  subject = subject;
  body = body;
  buttons = [];
  headers = [];
  attempts = 0;
  next_attempt = 0;
  delivered_at = 0;
  escalated_at = 0;
  last_error = "";
  created_at = 0;
}

unfoldable pub stamp : String → ℕ → OutboxItem → OutboxItem
stamp id now item = record item { id = id; created_at = now; next_attempt = now }

-- enqueueLocked
unfoldable pub enqueue_locked : OutboxItem → Service → String × Service
unfolding new_id stamp
enqueue_locked item w =
    let (id, w') = new_id "ob" w in
    (id, record w' { outbox = w'.outbox ++ stamp id w'.now item ∷ [] })

pub data Bit : Type 0 where
  save_bit audit_bit : Bit

unfoldable pub set_bit : Bit → Service → Service
set_bit save_bit w = record w { save_failed = true }
set_bit audit_bit w = record w { audit_failed = true }

-- PersistHealthy
abbrev pub persist_healthy : Service → Bool
persist_healthy w = not w.save_failed && not w.audit_failed

abbrev pub Audit : Type 0
Audit = String → Fields → Service → Service

-- notifyAdminLocked, over the audit that it calls.
unfoldable pub notify_target : Audit → String → String → Option Address → Service → Service
unfolding enqueue_locked
notify_target audit subject body none w =
    audit "admin.unnotified"
      (("subject", text subject)
        ∷ ("error", text "no admin notify target configured (set STATTII_ADMIN_NOTIFY)")
        ∷ [])
      w
notify_target audit subject body (some a) w =
    (enqueue_locked (mail escalation a.kind a.to subject body) w).1

unfoldable pub notify_with : Audit → String → String → Service → Service
unfolding notify_target
notify_with audit subject body w = notify_target audit subject body w.cfg.admin_notify w

abbrev pub failure_subject : String → String
failure_subject what = concat ("STORE FAILURE: " ∷ what ∷ [])

abbrev pub failure_body : String → String → String
failure_body what error = concat (
    what ∷ ": " ∷ error ∷ "\n\nMutations continue in memory but are NOT durable. "
    ∷ "Fix the data dir now; /healthz reports failure until a write succeeds." ∷ [])

-- noteStoreFailureLocked
unfoldable pub note_with : Audit → Bit → String → String → Service → Service
unfolding set_bit notify_with
note_with audit bit what error w =
    if persist_healthy w
    then notify_with audit (failure_subject what) (failure_body what error) (set_bit bit w)
    else set_bit bit w

unfoldable pub entry : String → Fields → AuditEntry
entry kind fields = record { kind = kind; fields = fields }

-- What follows the store's answer to an audit line.
unfoldable pub audited : Audit → Option String → String → Fields → Service → Service
unfolding note_with entry
audited audit none kind fields w = record w {
  log = w.log ++ entry kind fields ∷ [];
  audit_failed = false;
}
audited audit (some error) kind fields w = note_with audit audit_bit "audit write failed" error w

unfoldable pub audit_fuel : ℕ → String → Fields → Service → Service
unfolding audited
audit_fuel zero kind fields w = w
audit_fuel (suc fuel) kind fields w =
    audited (audit_fuel fuel) (w.env.audit_result w.audits) kind fields
      (record w { audits = suc w.audits })

-- auditLocked
unfoldable pub audit_locked : String → Fields → Service → Service
unfolding audit_fuel
audit_locked = audit_fuel 2

unfoldable pub notify_admin_locked : String → String → Service → Service
unfolding notify_with audit_locked
notify_admin_locked = notify_with audit_locked

-- What follows the store's answer to a save.
unfoldable pub saved : Option String → Service → Service
unfolding note_with audit_locked
saved none w = record w {
  disk = some (record { tables = w.tables; outbox = w.outbox });
  save_failed = false;
}
saved (some error) w = note_with audit_locked save_bit "state persist failed" error w

-- saveLocked
unfoldable pub save_locked : Service → Service
unfolding saved
save_locked w = saved (w.env.save_result w.saves) (record w { saves = suc w.saves })
