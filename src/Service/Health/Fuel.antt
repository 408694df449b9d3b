-- ===== src/Service/Health/Fuel.antt =====
-- The recursion of auditLocked through notifyAdminLocked ends at the second level.

use stattii.Base.{
  Option, String, ap, arith, false, if◌then◌else◌, none, refl, some, suc, sym, ℕ, ◌∙◌, ◌≡◌,
}
use stattii.Model.{Address}
use stattii.Service.Defs.{Fields, Service}
use stattii.Service.Store.{
  Audit, Bit, audit_bit, audit_fuel, audit_locked, audited, failure_body, failure_subject,
  note_with, notify_target, notify_with, persist_healthy, save_bit, set_bit,
}

-- The recursion of auditLocked through notifyAdminLocked ends at the second level: more fuel
-- changes nothing.
abbrev Same : Audit → Audit → Type 0
Same a b = (kind : String) (fields : Fields) (w : Service) → a kind fields w ≡ b kind fields w

-- Where the store has failed already, nobody is paged, so the inner audit is not called.
pub note_with-sick :
    (a : Audit) (b : Bit) (what error : String) (w : Service)
    → persist_healthy w ≡ false
    → note_with a b what error w ≡ set_bit b w
unfolding note_with
note_with-sick a b what error w h = rw (h, note_with)

pub set_bit-sick : (b : Bit) (w : Service) → persist_healthy (set_bit b w) ≡ false
unfolding set_bit
set_bit-sick save_bit w = refl
set_bit-sick audit_bit w = ground arith

audited-sick :
    (a b : Audit) (answer : Option String) (kind : String) (fields : Fields) (w : Service)
    → persist_healthy w ≡ false
    → audited a answer kind fields w ≡ audited b answer kind fields w
unfolding audited
audited-sick a b none kind fields w h = refl
audited-sick a b (some error) kind fields w h =
    note_with-sick a audit_bit "audit write failed" error w h
    ∙ sym (note_with-sick b audit_bit "audit write failed" error w h)

audit_fuel-sick :
    (m n : ℕ) (kind : String) (fields : Fields) (w : Service)
    → persist_healthy w ≡ false
    → audit_fuel (suc m) kind fields w ≡ audit_fuel (suc n) kind fields w
unfolding audit_fuel
audit_fuel-sick m n kind fields w h =
    audited-sick (audit_fuel m) (audit_fuel n) (w.env.audit_result w.audits) kind fields
      (record w { audits = suc w.audits }) h

notify_target-sick :
    (m n : ℕ) (subject body : String) (a : Option Address) (w : Service)
    → persist_healthy w ≡ false
    → notify_target (audit_fuel (suc m)) subject body a w
      ≡ notify_target (audit_fuel (suc n)) subject body a w
unfolding notify_target
notify_target-sick m n subject body none w h = audit_fuel-sick m n _ _ w h
notify_target-sick m n subject body (some a) w h = refl

note_with_fuel :
    (m n : ℕ) (b : Bit) (what error : String) (w : Service)
    → note_with (audit_fuel (suc m)) b what error w ≡ note_with (audit_fuel (suc n)) b what error w
unfolding note_with notify_with
note_with_fuel m n b what error w =
    ap (λ page. if persist_healthy w then page else set_bit b w)
      (notify_target-sick m n (failure_subject what) (failure_body what error)
        (set_bit b w).cfg.admin_notify (set_bit b w) (set_bit-sick b w))

audited_fuel :
    (m n : ℕ) (answer : Option String) (kind : String) (fields : Fields) (w : Service)
    → audited (audit_fuel (suc m)) answer kind fields w
      ≡ audited (audit_fuel (suc n)) answer kind fields w
unfolding audited
audited_fuel m n none kind fields w = refl
audited_fuel m n (some error) kind fields w =
    note_with_fuel m n audit_bit "audit write failed" error w

-- Two levels are enough for auditLocked, whatever the store answers.
pub audit_fuel_enough :
    (fuel : ℕ) (kind : String) (fields : Fields) (w : Service)
    → audit_fuel (suc (suc fuel)) kind fields w ≡ audit_locked kind fields w
unfolding audit_fuel audit_locked
audit_fuel_enough fuel kind fields w =
    audited_fuel fuel 0 (w.env.audit_result w.audits) kind fields
      (record w { audits = suc w.audits })
