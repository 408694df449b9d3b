-- ===== src/Service/Frame.antt =====
-- What the helpers of outbox.go and service.go that only send and record leave alone. A step emits
-- where it keeps the tables, the configuration and the in-flight marks, and only appends to the
-- outbox; `P` says which messages it may append.
pub mod Messages
use stattii.Base.{
  All, All-append, Bool, List, Option, String, [], ap, append-nil, append_assoc, false,
  if◌then◌else◌, none, refl, some, suc, sym, true, zero, ℕ, ◌++◌, ◌∙◌, ◌∷◌, ◌≡◌,
}
use stattii.Model.{Address, OutboxItem, escalation}
use stattii.Service.Defs.{Fields, Service, new_id}
use stattii.Service.Store.{
  Audit, Bit, audit_bit, audit_fuel, audit_locked, audited, enqueue_locked, mail, note_with,
  notify_admin_locked, notify_target, notify_with, persist_healthy, save_bit, save_locked, saved,
  set_bit, stamp,
}

pub record Emits (P : OutboxItem → Type 0) (v w : Service) : Type 0 where
  pub ctx : w.ctx ≡ v.ctx
  pub tables : w.tables ≡ v.tables
  pub process : w.process ≡ v.process
  pub sent : List OutboxItem
  pub outbox : w.outbox ≡ v.outbox ++ sent
  pub all : All P sent

-- A message outside every propagation transaction.
abbrev pub NoTxn : OutboxItem → Type 0
NoTxn o = o.txn_id ≡ ""

-- A page to the admin: it belongs to no propagation transaction.
pub record IsPage (o : OutboxItem) : Type 0 where
  pub purpose : o.purpose ≡ escalation
  pub txn : o.txn_id ≡ ""

module _ {P : OutboxItem → Type 0} where
  pub Emits-refl : (w : Service) → Emits P w w
  Emits-refl w = record {
    ctx = refl;
    tables = refl;
    process = refl;
    sent = [];
    outbox = sym (append-nil w.outbox);
    all = tt;
  }

  pub Emits-trans : {u v w : Service} → Emits P u v → Emits P v w → Emits P u w
  Emits-trans {u} a b = record {
    ctx = b.ctx ∙ a.ctx;
    tables = b.tables ∙ a.tables;
    process = b.process ∙ a.process;
    sent = a.sent ++ b.sent;
    outbox = b.outbox ∙ ap (λ o. o ++ b.sent) a.outbox ∙ append_assoc u.outbox a.sent b.sent;
    all = All-append P a.sent b.sent a.all b.all;
  }

  -- A step that does not touch the outbox either.
  pub Emits-silent :
      {v w : Service}
      → w.ctx ≡ v.ctx
      → w.tables ≡ v.tables
      → w.process ≡ v.process
      → w.outbox ≡ v.outbox
      → Emits P v w
  Emits-silent {v} c t p o = record {
    ctx = c;
    tables = t;
    process = p;
    sent = [];
    outbox = o ∙ sym (append-nil v.outbox);
    all = tt;
  }

  pub enqueue-Emits :
      (item : OutboxItem) (w : Service)
      → P (stamp (w.env.new_id "ob" w.drawn) w.now item)
      → Emits P w (enqueue_locked item w).1
  unfolding enqueue_locked
  enqueue-Emits item w h = record {
    ctx = refl;
    tables = refl;
    process = refl;
    sent = stamp (w.env.new_id "ob" w.drawn) w.now item ∷ [];
    outbox = refl;
    all = (h, tt);
  }

set_bit-Emits : (P : OutboxItem → Type 0) (b : Bit) (w : Service) → Emits P w (set_bit b w)
unfolding set_bit
set_bit-Emits P save_bit w = Emits-silent refl refl refl refl
set_bit-Emits P audit_bit w = Emits-silent refl refl refl refl

abbrev AuditEmits : Audit → Type 0
AuditEmits audit =
    (kind : String) (fields : Fields) (w : Service) → Emits IsPage w (audit kind fields w)

stamp-IsPage :
    (id : String) (now : ℕ) (kind to subject body : String)
    → IsPage (stamp id now (mail escalation kind to subject body))
unfolding stamp
stamp-IsPage id now kind to subject body = record { purpose = refl; txn = refl }

pub Emits-if :
    {P : OutboxItem → Type 0} {v x y : Service} (b : Bool)
    → Emits P v x
    → Emits P v y
    → Emits P v (if b then x else y)
Emits-if true h k = h
Emits-if false h k = k

module _ (audit : Audit) (h : AuditEmits audit) where
  notify_target-Emits :
      (subject body : String) (a : Option Address) (w : Service)
      → Emits IsPage w (notify_target audit subject body a w)
  unfolding notify_target
  notify_target-Emits subject body none w = h _ _ w
  notify_target-Emits subject body (some a) w =
      enqueue-Emits (mail escalation a.kind a.to subject body) w
        (stamp-IsPage _ _ a.kind a.to subject body)

  note_with-Emits :
      (b : Bit) (what error : String) (w : Service)
      → Emits IsPage w (note_with audit b what error w)
  unfolding note_with notify_with
  note_with-Emits b what error w =
      Emits-if (persist_healthy w)
        (Emits-trans (set_bit-Emits IsPage b w) (notify_target-Emits _ _ _ _))
        (set_bit-Emits IsPage b w)

  audited-Emits :
      (answer : Option String) (kind : String) (fields : Fields) (w : Service)
      → Emits IsPage w (audited audit answer kind fields w)
  unfolding audited
  audited-Emits none kind fields w = Emits-silent refl refl refl refl
  audited-Emits (some error) kind fields w = note_with-Emits audit_bit "audit write failed" error w

audit_fuel-Emits : (fuel : ℕ) → AuditEmits (audit_fuel fuel)
unfolding audit_fuel
audit_fuel-Emits zero kind fields w = Emits-refl w
audit_fuel-Emits (suc fuel) kind fields w =
    Emits-trans {v = record w { audits = suc w.audits }} (Emits-silent refl refl refl refl)
      (audited-Emits (audit_fuel fuel) (audit_fuel-Emits fuel) _ kind fields _)

pub audit-Emits :
    (kind : String) (fields : Fields) (w : Service) → Emits IsPage w (audit_locked kind fields w)
unfolding audit_locked
audit-Emits = audit_fuel-Emits 2

pub notify-Emits :
    (subject body : String) (w : Service) → Emits IsPage w (notify_admin_locked subject body w)
unfolding notify_admin_locked notify_with
notify-Emits subject body w = notify_target-Emits audit_locked audit-Emits subject body _ w

saved-Emits : (answer : Option String) (w : Service) → Emits IsPage w (saved answer w)
unfolding saved
saved-Emits none w = Emits-silent refl refl refl refl
saved-Emits (some error) w =
    note_with-Emits audit_locked audit-Emits save_bit "state persist failed" error w

pub save-Emits : (w : Service) → Emits IsPage w (save_locked w)
unfolding save_locked
save-Emits w =
    Emits-trans {v = record w { saves = suc w.saves }} (Emits-silent refl refl refl refl)
      (saved-Emits _ _)

All-pages : (os : List OutboxItem) → All IsPage os → All NoTxn os
All-pages [] h = tt
All-pages (o ∷ os) h = (h.0.txn, All-pages os h.1)

pub Emits-page : {v w : Service} → Emits IsPage v w → Emits NoTxn v w
Emits-page a = record {
  ctx = a.ctx;
  tables = a.tables;
  process = a.process;
  sent = a.sent;
  outbox = a.outbox;
  all = All-pages a.sent a.all;
}
