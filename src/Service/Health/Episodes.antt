-- ===== src/Service/Health/Episodes.antt =====
-- The pages of noteStoreFailureLocked: one for each failure episode.

use stattii.Base.{
  Bool, Bool-cases, List, Option, String, [], ap, append-nil, false, inl, inr, none, refl, some,
  suc, sym, true, zero, ℕ, ◌++◌, ◌∙◌, ◌∷◌, ◌≡◌,
}
use stattii.Model.{Address, OutboxItem, escalation}
use stattii.Service.Defs.{Fields, Service}
use stattii.Service.Health.Fuel.{note_with-sick, set_bit-sick}
use stattii.Service.Store.{
  Audit, Bit, audit_bit, audit_fuel, audit_locked, audited, enqueue_locked, failure_body,
  failure_subject, mail, note_with, notify_target, notify_with, persist_healthy, save_bit,
  save_locked, saved, set_bit, stamp,
}

-- What a store failure adds to the outbox: one page, at the start of an episode, to the admin.
abbrev pub episode_page :
    Option String → Option Address → Bool → String → String → ℕ → List OutboxItem
episode_page (some error) (some a) true what id now =
    stamp id now (mail escalation a.kind a.to (failure_subject what) (failure_body what error)) ∷ []
episode_page _ _ _ what id now = []

abbrev pub store_pages : Option String → String → Service → List OutboxItem
store_pages answer what w =
    episode_page answer w.cfg.admin_notify (persist_healthy w) what (w.env.new_id "ob" w.drawn)
      w.now

episode_page-sick :
    (error : String) (a : Option Address) (what id : String) (now : ℕ)
    → episode_page (some error) a false what id now ≡ []
episode_page-sick error none what id now = refl
episode_page-sick error (some a) what id now = refl

-- An audit that pages nobody once the store has failed.
abbrev Quiet : Audit → Type 0
Quiet audit =
    (kind : String) (fields : Fields) (w : Service)
    → persist_healthy w ≡ false
    → (audit kind fields w).outbox ≡ w.outbox

set_bit-outbox : (b : Bit) (w : Service) → (set_bit b w).outbox ≡ w.outbox
unfolding set_bit
set_bit-outbox save_bit w = refl
set_bit-outbox audit_bit w = refl

set_bit-admin : (b : Bit) (w : Service) → (set_bit b w).cfg.admin_notify ≡ w.cfg.admin_notify
unfolding set_bit
set_bit-admin save_bit w = refl
set_bit-admin audit_bit w = refl

audit_fuel-Quiet : (fuel : ℕ) → Quiet (audit_fuel fuel)
unfolding audit_fuel
audit_fuel-Quiet zero kind fields w h = refl
audit_fuel-Quiet (suc fuel) kind fields w h =
    audited-Quiet (w.env.audit_result w.audits) (record w { audits = suc w.audits }) h
  where
    audited-Quiet :
        (answer : Option String) (v : Service)
        → persist_healthy v ≡ false
        → (audited (audit_fuel fuel) answer kind fields v).outbox ≡ v.outbox
    audited-Quiet none v k = unfold audited in refl
    audited-Quiet (some error) v k =
        unfold audited in
        ap (λ (u : Service). u.outbox)
          (note_with-sick (audit_fuel fuel) audit_bit "audit write failed" error v k)
        ∙ set_bit-outbox audit_bit v

module _ (audit : Audit) (quiet : Quiet audit) (what : String) where
  notify_target_page :
      (b : Bit) (error : String) (a : Option Address) (w : Service)
      → (notify_target audit
          (failure_subject what)
          (failure_body what error)
          a
          (set_bit b w)).outbox
        ≡ w.outbox ++ episode_page (some error) a true what (w.env.new_id "ob" w.drawn) w.now
  unfolding notify_target set_bit enqueue_locked
  notify_target_page b error none w =
      quiet _ _ (set_bit b w) (set_bit-sick b w) ∙ set_bit-outbox b w ∙ sym (append-nil w.outbox)
  notify_target_page save_bit error (some a) w = refl
  notify_target_page audit_bit error (some a) w = refl

  note_with_page :
      (b : Bit) (error : String) (w : Service)
      → (note_with audit b what error w).outbox ≡ w.outbox ++ store_pages (some error) what w
  unfolding note_with notify_with
  note_with_page b error w = elim (Bool-cases (persist_healthy w)) [
    | inl e ↦
        rw (e, note_with)
          (ap
              (λ a.
                (notify_target audit (failure_subject what) (failure_body what error) a
                  (set_bit b w)).outbox)
              (set_bit-admin b w)
            ∙ notify_target_page b error w.cfg.admin_notify w)
    | inr e ↦
        rw
          (
            e,
            note_with,
            episode_page-sick error w.cfg.admin_notify what (w.env.new_id "ob" w.drawn) w.now,
          )
          (set_bit-outbox b w ∙ sym (append-nil w.outbox))
  ]

audited_page :
    (fuel : ℕ) (answer : Option String) (kind : String) (fields : Fields) (w : Service)
    → (audited (audit_fuel fuel) answer kind fields w).outbox
      ≡ w.outbox ++ store_pages answer "audit write failed" w
unfolding audited
audited_page fuel none kind fields w = sym (append-nil w.outbox)
audited_page fuel (some error) kind fields w =
    note_with_page (audit_fuel fuel) (audit_fuel-Quiet fuel) "audit write failed" audit_bit error w

saved_page :
    (answer : Option String) (w : Service)
    → (saved answer w).outbox ≡ w.outbox ++ store_pages answer "state persist failed" w
unfolding saved
saved_page none w = sym (append-nil w.outbox)
saved_page (some error) w =
    note_with_page audit_locked (unfold audit_locked in audit_fuel-Quiet 2) "state persist failed"
      save_bit error w

-- An audit line adds one page to the outbox if its failure begins an episode, and nothing else.
pub outbox-audit :
    (kind : String) (fields : Fields) (w : Service)
    → (audit_locked kind fields w).outbox
      ≡ w.outbox ++ store_pages (w.env.audit_result w.audits) "audit write failed" w
unfolding audit_locked audit_fuel
outbox-audit kind fields w =
    audited_page 1 (w.env.audit_result w.audits) kind fields (record w { audits = suc w.audits })

-- So does a save.
outbox-save :
    (w : Service)
    → (save_locked w).outbox
      ≡ w.outbox ++ store_pages (w.env.save_result w.saves) "state persist failed" w
unfolding save_locked
outbox-save w = saved_page (w.env.save_result w.saves) (record w { saves = suc w.saves })
